-- ===== src/ProcessInfo/Fd.antt =====
-- src/processinfo.cpp: readFd over the directory /proc/<pid>/fd, and its getter.
pub mod Kept
use libsysinfo.Prelude.Dictionary.{assign}
use libsysinfo.Prelude.{
  Bool, true, false, List, [], ◌∷◌, ◌++◌, Option, none, some, if◌then◌else◌, ℤ, eqb_ℤ, Result, ok,
  throw,
}
use libsysinfo.ProcessInfo.Io.{Effect}
use libsysinfo.ProcessInfo.Links.{target}
use libsysinfo.ProcessInfo.State.{Os, ProcessInfo}
use libsysinfo.Text.Number.{ten, stoi}
use libsysinfo.Text.{Bytes, codes}

abbrev pub Fds : Type 0
Fds = List (ℤ × Bytes)

-- The loop: m_fds[stoi(name)] = symlink for each entry. A name that is no number throws.
unfoldable pub read_entries : Os → Bytes → List Bytes → Fds → Result (Unit {0}) × Fds
read_entries os directory [] fds = (ok tt, fds)
read_entries os directory (name ∷ names) fds = elim (stoi name ten) [
  | ok fd ↦
      read_entries os directory names
        (assign eqb_ℤ fd (target (os.read_symlink (directory ++ (b'/' ∷ name)))) fds)
  | throw e ↦ (throw e, fds)
]

-- A filesystem_error of the iterator is caught.
abbrev pub read_directory : Os → Bytes → Option (List Bytes) → Fds → Result (Unit {0}) × Fds
read_directory os directory none fds = (ok tt, fds)
read_directory os directory (some names) fds = read_entries os directory names fds

unfoldable pub read_fd : Os → ProcessInfo → Effect (Unit {0})
read_fd os p =
    let directory = p.proc_path ++ codes "fd" in
    let (r, fds) = read_directory os directory (os.list_directory directory) p.fds in
    (r, record p { fds = fds })

abbrev pub fds_value : Effect (Unit {0}) → Effect Fds
fds_value (ok t, p) = (ok p.fds, record p { need_update = record p.need_update { fd = false } })
fds_value (throw e, p) = (throw e, p)

-- ProcessInfo::fds
unfoldable pub fds : Os → ProcessInfo → Effect Fds
fds os p = if p.need_update.fd then fds_value (read_fd os p) else (ok p.fds, p)
