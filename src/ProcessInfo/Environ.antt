-- ===== src/ProcessInfo/Environ.antt =====
-- src/processinfo.cpp: readEnviron over /proc/<pid>/environ, and its getter.
pub mod Kept
use libsysinfo.Prelude.Dictionary.{assign_all}
use libsysinfo.Prelude.{
  map, Bool, true, false, List, [], ◌∷◌, ◌++◌, Option, none, some, if◌then◌else◌,
}
use libsysinfo.ProcessInfo.Getters.{Getter}
use libsysinfo.ProcessInfo.Links.{zero_ended}
use libsysinfo.ProcessInfo.State.{Os, ProcessInfo}
use libsysinfo.Text.Lines.{before, after}
use libsysinfo.Text.{Bytes, codes, same_text}

-- The two parts of an entry: before the first '=', and behind it up to a newline.
abbrev pub key_of : Bytes → Bytes
key_of l = before b'=' l

abbrev pub value_of_entry : Bytes → Bytes
value_of_entry l = before b'\n' (after b'=' l)

abbrev pub variable : Bytes → Bytes × Bytes
variable l = (key_of l, value_of_entry l)

-- The loop: m_environ[key] = value for each entry.
unfoldable pub read_variables : List Bytes → List (Bytes × Bytes) → List (Bytes × Bytes)
read_variables ls = assign_all same_text (map variable ls)

unfoldable pub read_environ : Os → ProcessInfo → ProcessInfo
read_environ os p = record p {
  environ = read_variables (zero_ended (os.open_file (p.proc_path ++ codes "environ"))) p.environ;
}

-- ProcessInfo::environ
unfoldable pub environ : Getter (List (Bytes × Bytes))
environ os p =
    let q =
      if p.need_update.environ
      then record (read_environ os p) { need_update = record p.need_update { environ = false } }
      else p in
    (q.environ, q)
