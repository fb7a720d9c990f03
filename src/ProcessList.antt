-- ===== src/ProcessList.antt =====
-- src/sysinfo.cpp: processListPid, processCount and processList over the directory /proc.
pub mod Entries
use libsysinfo.Boost.Pattern.{plain, some_of, Regex}
use libsysinfo.Boost.{Boost}
use libsysinfo.Prelude.{
  ℕ, Bool, true, false, ◌&&◌, List, [], ◌∷◌, ◌++◌, map, length, Option, none, some, ℤ, to_int,
  Result, ok, throw, filesystem_error,
}
use libsysinfo.ProcessInfo.Life.{process_info}
use libsysinfo.ProcessInfo.State.{Os, ProcessInfo}
use libsysinfo.Text.Number.{ten, stoi}
use libsysinfo.Text.{Bytes, codes, is_digit}

-- \d+
abbrev pub regex_number : Regex
regex_number = plain (some_of is_digit) ∷ []

abbrev pub is_match : Option (List Bytes) → Bool
is_match none = false
is_match (some caps) = true

-- itr->path()
abbrev pub entry_path : Bytes → Bytes
entry_path name = codes "/proc/" ++ name

-- The loop over the entries.
unfoldable pub list_pids : Boost → Os → List Bytes → List ℤ → Result (List ℤ)
list_pids boost os [] pids = ok pids
list_pids boost os (name ∷ names) pids =
    elim (os.is_directory (entry_path name) && is_match (boost.regex_match regex_number name)) [
      | true ↦ elim (stoi name ten) [
        | ok pid ↦ list_pids boost os names (pids ++ pid ∷ [])
        | throw e ↦ throw e
      ]
      | false ↦ list_pids boost os names pids
    ]

abbrev pub list_entries : Boost → Os → Option (List Bytes) → Result (List ℤ)
list_entries boost os none = throw filesystem_error
list_entries boost os (some names) = list_pids boost os names []

-- processListPid
unfoldable pub process_list_pid : Boost → Os → Result (List ℤ)
process_list_pid boost os = list_entries boost os (os.list_directory (codes "/proc"))

abbrev pub with_pids : {A : Type 0} → Result (List ℤ) → (List ℤ → A) → Result A
with_pids (ok pids) f = ok (f pids)
with_pids (throw e) f = throw e

-- processCount
unfoldable pub process_count : Boost → Os → Result ℤ
process_count boost os = with_pids (process_list_pid boost os) λ pids. to_int (length pids)

-- processList. The constructor throws nothing, so the handlers of the loop are not reached. `raw` is
-- what the storage of an object holds before.
unfoldable pub process_list : Boost → Os → ProcessInfo → Result (List ProcessInfo)
process_list boost os raw = with_pids (process_list_pid boost os) (map (process_info raw))
