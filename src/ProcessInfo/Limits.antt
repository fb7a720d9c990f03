-- ===== src/ProcessInfo/Limits.antt =====
-- src/processinfo.cpp: readLimits over /proc/<pid>/limits. No getter calls it yet.
pub mod Throws
use libsysinfo.Boost.Pattern.{plain, group, one, many, some_of, word_or, Regex, lit, any}
use libsysinfo.Boost.{Boost}
use libsysinfo.Prelude.{
  ℕ, Bool, true, false, List, [], ◌∷◌, ◌++◌, Option, none, some, if◌then◌else◌, ℤ, negsuc, Result,
  ok, throw,
}
use libsysinfo.ProcessInfo.Io.{Effect}
use libsysinfo.ProcessInfo.State.{
  Os, ProcessInfo, Limits, Limit, limit_index, assign, cpu_time, file_size, data_size, stack_size,
  core_file_size, resident_set, processes, open_files, locked_memory, address_space, file_locks,
  pending_signals, msgqueue_size, nice_priority, realtime_priority, realtime_timeout,
}
use libsysinfo.Text.Lines.{lines}
use libsysinfo.Text.Number.{ten, stoi}
use libsysinfo.Text.{Bytes, codes, same_text, is_space, is_digit}

-- ^Max\s(.*)\s+(unlimited|[[:digit:]]+)\s+(unlimited|[[:digit:]]+).*$
abbrev pub regex_limits : Regex
regex_limits =
    lit b'M'
    ∷ lit b'a'
    ∷ lit b'x'
    ∷ plain (one is_space)
    ∷ group (many any)
    ∷ plain (some_of is_space)
    ∷ group (word_or (codes "unlimited") is_digit)
    ∷ plain (some_of is_space)
    ∷ group (word_or (codes "unlimited") is_digit)
    ∷ plain (many any)
    ∷ []

-- -1 stands for unlimited
unfoldable pub limit_value : Bytes → Result ℤ
limit_value s = if same_text s (codes "unlimited") then ok (negsuc 0) else stoi s ten

-- The names of the limits, in the order of the source.
abbrev pub limit_names : List (Bytes × Limit)
limit_names =
    (codes "cpu time", cpu_time)
    ∷ (codes "file size", file_size)
    ∷ (codes "data size", data_size)
    ∷ (codes "stack size", stack_size)
    ∷ (codes "core file size", core_file_size)
    ∷ (codes "resident set", resident_set)
    ∷ (codes "processes", processes)
    ∷ (codes "open files", open_files)
    ∷ (codes "locked memory", locked_memory)
    ∷ (codes "address space", address_space)
    ∷ (codes "file locks", file_locks)
    ∷ (codes "pending signals", pending_signals)
    ∷ (codes "msgqueue size", msgqueue_size)
    ∷ (codes "nice priority", nice_priority)
    ∷ (codes "realtime priority", realtime_priority)
    ∷ (codes "realtime timeout", realtime_timeout)
    ∷ []

unfoldable pub store_limit : List (Bytes × Limit) → Bytes → ℤ → ℤ → Limits → Limits
store_limit [] name soft hard l = l
store_limit ((k, f) ∷ ks) name soft hard l =
    if same_text name k
    then record l {
      soft_lmt = assign limit_index l.soft_lmt f soft;
      hard_lmt = assign limit_index l.hard_lmt f hard;
    }
    else store_limit ks name soft hard l

abbrev pub with_values : Boost → Bytes → Result ℤ → Result ℤ → Limits → Result (Unit {0}) × Limits
with_values boost name (ok soft) (ok hard) l =
    (ok tt, store_limit limit_names (boost.trim name) soft hard l)
with_values boost name (throw e) hard l = (throw e, l)
with_values boost name (ok soft) (throw e) l = (throw e, l)

abbrev pub matched_limits : Boost → Option (List Bytes) → Limits → Result (Unit {0}) × Limits
matched_limits boost (some (name ∷ soft ∷ hard ∷ [])) l =
    with_values boost name (limit_value soft) (limit_value hard) l
matched_limits boost _ l = (ok tt, l)

-- The loop.
unfoldable pub read_limits_lines : Boost → List Bytes → Limits → Result (Unit {0}) × Limits
read_limits_lines boost [] l = (ok tt, l)
read_limits_lines boost (s ∷ ls) l =
    let (r, next) = matched_limits boost (boost.regex_match regex_limits s) l in
    elim r [ ok t ↦ read_limits_lines boost ls next | throw e ↦ (throw e, next) ]

-- the first line is skipped
abbrev pub behind_first : List Bytes → List Bytes
behind_first [] = []
behind_first (l ∷ ls) = ls

abbrev pub limits_lines : Option Bytes → List Bytes
limits_lines none = []
limits_lines (some s) = behind_first (lines b'\n' s)

unfoldable pub read_limits : Boost → Os → ProcessInfo → Effect (Unit {0})
read_limits boost os p =
    let (r, l) =
      read_limits_lines boost (limits_lines (os.open_file (p.proc_path ++ codes "/limits")))
        p.limits in
    (r, record p { limits = l })
