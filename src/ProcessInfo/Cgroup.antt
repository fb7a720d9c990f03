-- ===== src/ProcessInfo/Cgroup.antt =====
-- src/processinfo.cpp: readCgroup over /proc/<pid>/cgroup. No getter calls it yet.
pub mod RoundTrip
use libsysinfo.Boost.{Boost}
use libsysinfo.Prelude.{ℕ, List, [], ◌∷◌, ◌++◌, Option, none, some, ℤ, Result, ok, throw}
use libsysinfo.ProcessInfo.Io.{lines_of}
use libsysinfo.ProcessInfo.State.{Os, ProcessInfo, CgroupHierarchy}
use libsysinfo.Text.Number.{ten, stoi}
use libsysinfo.Text.{Bytes, codes}

-- What the loop leaves; none where it reads behind the end of `splitted`, which is undefined.
abbrev pub Cgroups : Type 0
Cgroups = Option (Result (Unit {0}) × List CgroupHierarchy)

-- One line, with the parts between the colons and the first of them as a number.
abbrev pub push_hierarchy : Boost → Result ℤ → List Bytes → List CgroupHierarchy → Cgroups
push_hierarchy boost (throw e) parts found = some (throw e, found)
push_hierarchy boost (ok z) (id ∷ subsystems ∷ path ∷ more) found = some (
  ok tt,
  found
      ++ record { hierarchy_id = z; subsystems = boost.split subsystems b','; cgroup = path } ∷ [],
)
push_hierarchy boost (ok z) _ found = none

-- splitted[0]; the empty text stands for an empty vector, which split never gives
abbrev pub first_part : List Bytes → Bytes
first_part [] = []
first_part (s ∷ ss) = s

abbrev pub read_cgroup_line : Boost → Bytes → List CgroupHierarchy → Cgroups
read_cgroup_line boost l found =
    let parts = boost.split l b':' in push_hierarchy boost (stoi (first_part parts) ten) parts found

-- The loop.
unfoldable pub read_cgroup_lines : Boost → List Bytes → List CgroupHierarchy → Cgroups
read_cgroup_lines boost [] found = some (ok tt, found)
read_cgroup_lines boost (l ∷ ls) found = elim (read_cgroup_line boost l found) [
  | none ↦ none
  | some (ok t, next) ↦ read_cgroup_lines boost ls next
  | some (throw e, next) ↦ some (throw e, next)
]

abbrev pub with_cgroups : ProcessInfo → Cgroups → Option (Result (Unit {0}) × ProcessInfo)
with_cgroups p none = none
with_cgroups p (some (r, cgroups)) = some (r, record p { cgroups = cgroups })

unfoldable pub read_cgroup : Boost → Os → ProcessInfo → Option (Result (Unit {0}) × ProcessInfo)
read_cgroup boost os p =
    with_cgroups p
      (read_cgroup_lines boost (lines_of (os.open_file (p.proc_path ++ codes "/cgroup"))) p.cgroups)
