-- ===== src/ProcessInfo/Status.antt =====
-- src/processinfo.cpp: readStatus over /proc/<pid>/status, and the getters over it.
pub mod Uids
pub mod Throws
pub mod Vm
use libsysinfo.Boost.Pattern.{Part, plain, group, one, many, some_of, Regex, lit}
use libsysinfo.Boost.{Boost}
use libsysinfo.Prelude.{
  ℕ, Bool, true, false, List, [], ◌∷◌, ◌++◌, Option, none, some, if◌then◌else◌, ℤ, Result, ok,
  throw,
}
use libsysinfo.ProcessInfo.Io.{Effect, lines_of}
use libsysinfo.ProcessInfo.State.{
  Os, ProcessInfo, Status, VmField, vm_index, assign, m_vm_peak, m_vm_lck, m_vm_pin, m_vm_hwm,
  m_vm_rss, m_vm_data, m_vm_stk, m_vm_exe, m_vm_lib, m_vm_pte, m_vm_pmd, m_vm_swap,
}
use libsysinfo.Text.Decimal.{show_ℤ}
use libsysinfo.Text.Lines.{before, after}
use libsysinfo.Text.Number.{ten, stoi}
use libsysinfo.Text.{Bytes, codes, same_text, is_space, is_digit}

-- ^\s+([[:digit:]]+)\s+([[:digit:]]+)\s+([[:digit:]]+)\s+([[:digit:]]+)\s*$
abbrev pub regex_uids : Regex
regex_uids =
    plain (some_of is_space)
    ∷ group (some_of is_digit)
    ∷ plain (some_of is_space)
    ∷ group (some_of is_digit)
    ∷ plain (some_of is_space)
    ∷ group (some_of is_digit)
    ∷ plain (some_of is_space)
    ∷ group (some_of is_digit)
    ∷ plain (many is_space)
    ∷ []

-- ^\s+([[:digit:]]+)\skB\s*$
abbrev pub regex_vm : Regex
regex_vm =
    plain (some_of is_space)
    ∷ group (some_of is_digit)
    ∷ plain (one is_space)
    ∷ lit b'k'
    ∷ lit b'B'
    ∷ plain (many is_space)
    ∷ []

-- push_back(std::stoi(match[i + 1])) for each group; what was pushed before a throw stays.
unfoldable pub push_numbers : List Bytes → List ℤ → Result (Unit {0}) × List ℤ
push_numbers [] ids = (ok tt, ids)
push_numbers (c ∷ cs) ids = elim (stoi c ten) [
  | ok z ↦ push_numbers cs (ids ++ z ∷ [])
  | throw e ↦ (throw e, ids)
]

abbrev pub push_matched : Option (List Bytes) → List ℤ → Result (Unit {0}) × List ℤ
push_matched none ids = (ok tt, ids)
push_matched (some caps) ids = push_numbers caps ids

-- The keys of the integer members, in the order of the source.
abbrev pub vm_keys : List (Bytes × VmField)
vm_keys =
    (codes "VmPeak", m_vm_peak)
    ∷ (codes "VmLck", m_vm_lck)
    ∷ (codes "VmPin", m_vm_pin)
    ∷ (codes "VmHWM", m_vm_hwm)
    ∷ (codes "VmRSS", m_vm_rss)
    ∷ (codes "VmData", m_vm_data)
    ∷ (codes "VmStk", m_vm_stk)
    ∷ (codes "VmExe", m_vm_exe)
    ∷ (codes "VmLib", m_vm_lib)
    ∷ (codes "VmPTE", m_vm_pte)
    ∷ (codes "VmPMD", m_vm_pmd)
    ∷ (codes "VmSwap", m_vm_swap)
    ∷ []

abbrev pub store_vm : VmField → Result ℤ → Status → Result (Unit {0}) × Status
store_vm f (ok z) st = (ok tt, record st { vm = assign vm_index st.vm f z })
store_vm f (throw e) st = (throw e, st)

-- m_vm_... = std::stoi(match[1]), where the value matches
abbrev pub store_matched : VmField → Option (List Bytes) → Status → Result (Unit {0}) × Status
store_matched f none st = (ok tt, st)
store_matched f (some []) st = (ok tt, st)
store_matched f (some (c ∷ cs)) st = store_vm f (stoi c ten) st

unfoldable pub read_vm :
    Boost → List (Bytes × VmField) → Bytes → Bytes → Status → Result (Unit {0}) × Status
read_vm boost [] key value st = (ok tt, st)
read_vm boost ((k, f) ∷ ks) key value st =
    if same_text key k
    then store_matched f (boost.regex_match regex_vm value) st
    else read_vm boost ks key value st

abbrev pub with_uids : Status → Result (Unit {0}) × List ℤ → Result (Unit {0}) × Status
with_uids st (r, ids) = (r, record st { uids = ids })

abbrev pub with_gids : Status → Result (Unit {0}) × List ℤ → Result (Unit {0}) × Status
with_gids st (r, ids) = (r, record st { gids = ids })

-- One line.
unfoldable pub read_status_line : Boost → Bytes → Status → Result (Unit {0}) × Status
read_status_line boost l st =
    let key = before b':' l in
    let value = before b'\n' (after b':' l) in
    if same_text key (codes "Uid")
    then with_uids st (push_matched (boost.regex_match regex_uids value) st.uids)
    else if same_text key (codes "Gid")
    then with_gids st (push_matched (boost.regex_match regex_uids value) st.gids)
    else read_vm boost vm_keys key value st

-- The loop.
unfoldable pub read_status_lines : Boost → List Bytes → Status → Result (Unit {0}) × Status
read_status_lines boost [] st = (ok tt, st)
read_status_lines boost (l ∷ ls) st =
    let (r, next) = read_status_line boost l st in
    elim r [ ok t ↦ read_status_lines boost ls next | throw e ↦ (throw e, next) ]

unfoldable pub read_status : Boost → Os → ProcessInfo → Effect (Unit {0})
read_status boost os p =
    let (r, st) =
      read_status_lines boost (lines_of (os.open_file (p.proc_path ++ codes "status"))) p.status in
    (r, record p { status = st })

abbrev pub clear_status : Effect (Unit {0}) → Effect (Unit {0})
clear_status (ok t, p) = (ok t, record p { need_update = record p.need_update { status = false } })
clear_status (throw e, p) = (throw e, p)

-- if (m_need_update_status) { readStatus(); m_need_update_status = false; }
unfoldable pub update_status : Boost → Os → ProcessInfo → Effect (Unit {0})
update_status boost os p =
    if p.need_update.status then clear_status (read_status boost os p) else (ok tt, p)

abbrev pub status_value : {A : Type 0} → (Status → A) → Effect (Unit {0}) → Effect A
status_value view (ok t, p) = (ok (view p.status), p)
status_value view (throw e, p) = (throw e, p)

abbrev pub StatusGetter : Type 0 → Type 0
StatusGetter A = Boost → Os → ProcessInfo → Effect A

abbrev pub status_getter : {A : Type 0} → (Status → A) → StatusGetter A
status_getter view boost os p = status_value view (update_status boost os p)

unfoldable pub uids : StatusGetter (List ℤ)
uids = status_getter λ st. st.uids

unfoldable pub gids : StatusGetter (List ℤ)
gids = status_getter λ st. st.gids

unfoldable pub vm_peak : StatusGetter ℤ
vm_peak = status_getter λ st. st.vm m_vm_peak

unfoldable pub vm_lck : StatusGetter ℤ
vm_lck = status_getter λ st. st.vm m_vm_lck

unfoldable pub vm_pin : StatusGetter ℤ
vm_pin = status_getter λ st. st.vm m_vm_pin

unfoldable pub vm_hwm : StatusGetter ℤ
vm_hwm = status_getter λ st. st.vm m_vm_hwm

unfoldable pub vm_rss : StatusGetter ℤ
vm_rss = status_getter λ st. st.vm m_vm_rss

unfoldable pub vm_data : StatusGetter ℤ
vm_data = status_getter λ st. st.vm m_vm_data

unfoldable pub vm_stk : StatusGetter ℤ
vm_stk = status_getter λ st. st.vm m_vm_stk

unfoldable pub vm_exe : StatusGetter ℤ
vm_exe = status_getter λ st. st.vm m_vm_exe

unfoldable pub vm_lib : StatusGetter ℤ
vm_lib = status_getter λ st. st.vm m_vm_lib

unfoldable pub vm_pte : StatusGetter ℤ
vm_pte = status_getter λ st. st.vm m_vm_pte

unfoldable pub vm_pmd : StatusGetter ℤ
vm_pmd = status_getter λ st. st.vm m_vm_pmd

unfoldable pub vm_swap : StatusGetter ℤ
vm_swap = status_getter λ st. st.vm m_vm_swap

-- m_uids[0], the real uid; none where the vector is empty and the access is undefined.
abbrev pub real_uid : List ℤ → Option ℤ
real_uid [] = none
real_uid (z ∷ ids) = some z

abbrev pub name_or_number : Option Bytes → ℤ → Bytes
name_or_number none z = show_ℤ z
name_or_number (some name) z = name

abbrev pub name_of : Os → Option ℤ → Option Bytes
name_of os none = none
name_of os (some z) = some (name_or_number (os.user_name z) z)

-- The name of the user of the process, or its number where getpwuid knows none.
unfoldable pub user_name : StatusGetter (Option Bytes)
user_name boost os p = status_value (λ st. name_of os (real_uid st.uids)) (update_status boost os p)
