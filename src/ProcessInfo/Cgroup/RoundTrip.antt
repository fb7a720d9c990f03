-- ===== src/ProcessInfo/Cgroup/RoundTrip.antt =====
-- readCgroup on lines as the kernel writes them.
use libsysinfo.Boost.{Boost, IsBoost, join}
use libsysinfo.Prelude.{
  ℕ, ◌^◌, ◌<◌, ◌≡◌, refl, sym, ap, ◌∙◌, List, [], ◌∷◌, ◌++◌, append_assoc, append-nil, map, All,
  some, pos, ok,
}
use libsysinfo.ProcessInfo.Cgroup.{
  push_hierarchy, first_part, read_cgroup_line, read_cgroup_lines, with_cgroups, read_cgroup,
}
use libsysinfo.ProcessInfo.Io.RoundTrip.{digits-Lacks}
use libsysinfo.ProcessInfo.Io.{lines_of}
use libsysinfo.ProcessInfo.State.{Os, ProcessInfo, CgroupHierarchy}
use libsysinfo.Text.Decimal.{to_string, to_string-AllOf, stoi-to_string}
use libsysinfo.Text.Lines.{unlines, Lacks, lines-unlines}
use libsysinfo.Text.Number.{ten, stoi}
use libsysinfo.Text.{Bytes, codes}

-- A line: the number, the subsystems, at least one and possibly empty, and the path, whose parts
-- between colons are `path` and `more`.
pub record Hierarchy : Type 0 where
  pub number : ℕ
  pub subsystem : Bytes
  pub others : List Bytes
  pub path : Bytes
  pub more : List Bytes

abbrev pub subsystems_text : Hierarchy → Bytes
subsystems_text h = join (h.subsystem ∷ h.others) b','

abbrev pub parts : Hierarchy → List Bytes
parts h = to_string h.number ∷ subsystems_text h ∷ h.path ∷ h.more

abbrev pub hierarchy_line : Hierarchy → Bytes
hierarchy_line h = join (parts h) b':'

abbrev pub IsHierarchy : Hierarchy → Type 0
IsHierarchy h =
    (h.number < 2 ^ 31)
    × All (Lacks b',') (h.subsystem ∷ h.others)
    × Lacks b':' (subsystems_text h)
    × All (Lacks b':') (h.path ∷ h.more)

-- What is stored of it: the path ends at its first colon.
abbrev pub stored : Hierarchy → CgroupHierarchy
stored h = record {
  hierarchy_id = pos h.number;
  subsystems = h.subsystem ∷ h.others;
  cgroup = h.path;
}

module _ (boost : Boost) (b : IsBoost boost) where
  read_cgroup_line-stored :
      (h : Hierarchy) (found : List CgroupHierarchy)
      → IsHierarchy h
      → read_cgroup_line boost (hierarchy_line h) found ≡ some (ok tt, found ++ stored h ∷ [])
  read_cgroup_line-stored h found (small, commas, colons, path) =
      ap (λ ps. push_hierarchy boost (stoi (first_part ps) ten) ps found)
        (b.split_join (to_string h.number) (subsystems_text h ∷ h.path ∷ h.more) b':'
          (digits-Lacks b':' (to_string h.number) refl (to_string-AllOf h.number), (colons, path)))
      ∙ ap (λ r. push_hierarchy boost r (parts h) found) (stoi-to_string h.number small)
      ∙ ap
          (λ ss. some (
            ok tt,
            found ++ record { hierarchy_id = pos h.number; subsystems = ss; cgroup = h.path } ∷ [],
          ))
          (b.split_join h.subsystem h.others b',' commas)

  read_cgroup_lines-stored :
      (hs : List Hierarchy) (found : List CgroupHierarchy)
      → All IsHierarchy hs
      → read_cgroup_lines boost (map hierarchy_line hs) found ≡ some (ok tt, found ++ map stored hs)
  unfolding read_cgroup_lines
  read_cgroup_lines-stored [] found h = ap (λ x. some (ok tt, x)) (sym (append-nil found))
  read_cgroup_lines-stored (h ∷ hs) found (is, rest) =
      rw (read_cgroup_line-stored h found is, read_cgroup_lines)
        (read_cgroup_lines-stored hs (found ++ stored h ∷ []) rest
          ∙ ap (λ x. some (ok tt, x)) (append_assoc found (stored h ∷ []) (map stored hs)))

  -- If /proc/<pid>/cgroup holds lines of a number below 2 ^ 31, subsystems between commas and a path,
  -- then readCgroup returns, reads behind the end of no vector, and puts the hierarchies behind
  -- those that were there; of a path with colons it keeps what stands in front of the first.
  pub read_cgroup-stored :
      (os : Os) (p : ProcessInfo) (hs : List Hierarchy)
      → os.open_file (p.proc_path ++ codes "/cgroup") ≡ some (unlines b'\n' (map hierarchy_line hs))
      → All IsHierarchy hs
      → All (Lacks b'\n') (map hierarchy_line hs)
      → read_cgroup boost os p ≡ some (ok tt, record p { cgroups = p.cgroups ++ map stored hs })
  unfolding read_cgroup
  read_cgroup-stored os p hs e h lacks =
      ap (λ ls. with_cgroups p (read_cgroup_lines boost ls p.cgroups))
        (ap lines_of e ∙ lines-unlines b'\n' (map hierarchy_line hs) lacks)
      ∙ ap (with_cgroups p) (read_cgroup_lines-stored hs p.cgroups h)
