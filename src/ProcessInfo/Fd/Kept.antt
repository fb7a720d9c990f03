-- ===== src/ProcessInfo/Fd/Kept.antt =====
-- What fds holds after several reads.
use libsysinfo.Prelude.Dictionary.{find, assign, assign_all, last_value, find-assign_all}
use libsysinfo.Prelude.{
  ℕ, ◌^◌, ◌<◌, ◌≡◌, refl, ap, ◌∙◌, List, [], ◌∷◌, ◌++◌, map, All, some, ℤ, pos, eqb_ℤ, Result, ok,
}
use libsysinfo.ProcessInfo.Fd.{Fds, read_entries, read_directory, read_fd, fds_value, fds}
use libsysinfo.ProcessInfo.Life.{need_update}
use libsysinfo.ProcessInfo.Links.{target}
use libsysinfo.ProcessInfo.State.{Os, ProcessInfo}
use libsysinfo.ProcessInfo.Usage.OldState.{eqb_ℤ_iff}
use libsysinfo.Text.Decimal.{to_string, stoi-to_string}
use libsysinfo.Text.{Bytes, codes}

-- An open descriptor with what its link points to.
abbrev pub link : Os → Bytes → ℕ → ℤ × Bytes
link os directory n = (pos n, target (os.read_symlink (directory ++ (b'/' ∷ to_string n))))

read_entries-links :
    (os : Os) (directory : Bytes) (ns : List ℕ) (m : Fds)
    → All (λ n. n < 2 ^ 31) ns
    → read_entries os directory (map to_string ns) m
      ≡ (ok tt, assign_all eqb_ℤ (map (link os directory) ns) m)
unfolding read_entries assign_all
read_entries-links os directory [] m h = refl
read_entries-links os directory (n ∷ ns) m h =
    rw (stoi-to_string n h.0, read_entries)
      (read_entries-links os directory ns (assign eqb_ℤ (pos n) (link os directory n).1 m) h.1)

-- If the entries of /proc/<pid>/fd are numbers below 2 ^ 31, then fds returns after needUpdate, and
-- gives for each of them what its link points to; a descriptor that is no longer an entry keeps
-- what an earlier read gave, as m_fds is never cleared.
pub fds-last_value :
    (os : Os) (p : ProcessInfo) (ns : List ℕ) (fd : ℤ)
    → os.list_directory (p.proc_path ++ codes "fd") ≡ some (map to_string ns)
    → All (λ n. n < 2 ^ 31) ns
    → (m : Fds) × ((fds os (need_update p)).0 ≡ ok m)
      × (find eqb_ℤ fd m
          ≡ last_value eqb_ℤ fd
              (map (link os (p.proc_path ++ codes "fd")) ns)
              (find eqb_ℤ fd p.fds))
unfolding fds read_fd need_update
fds-last_value os p ns fd e h =
    let directory = p.proc_path ++ codes "fd" in
    let links = map (link os directory) ns in
    (
      assign_all eqb_ℤ links p.fds,
      ap
          (λ (r : Result (Unit {0}) × Fds).
            (fds_value (r.0, record (need_update p) { fds = r.1 })).0)
          (ap (λ o. read_directory os directory o p.fds) e
            ∙ read_entries-links os directory ns p.fds h),
      find-assign_all eqb_ℤ eqb_ℤ_iff fd links p.fds,
    )
