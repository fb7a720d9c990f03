-- ===== src/ProcessInfo/Io.antt =====
-- src/processinfo.cpp: readIo over /proc/<pid>/io, and the getters readBytes and writeBytes.
pub mod RoundTrip
use libsysinfo.Boost.{Boost}
use libsysinfo.Prelude.{
  ℕ, false, List, [], ◌∷◌, ◌++◌, Option, none, some, if◌then◌else◌, ℤ, to_u64, Result, ok, throw,
}
use libsysinfo.ProcessInfo.State.{Os, ProcessInfo, IoStat}
use libsysinfo.Text.Lines.{before, after, lines}
use libsysinfo.Text.Number.{ten, stol}
use libsysinfo.Text.{Bytes, codes, same_text}

-- A member of the object that may throw: what it returns, and the object that it leaves.
abbrev pub Effect : Type 0 → Type 0
Effect A = Result A × ProcessInfo

-- The integer of a line, assigned to an unsigned long.
abbrev pub store : Result ℤ → (ℕ → IoStat) → Result IoStat
store (ok z) f = ok (f (to_u64 z))
store (throw e) f = throw e

-- The chain of tests on the key.
unfoldable pub set_io : Bytes → Bytes → IoStat → Result IoStat
set_io key value io =
    if same_text key (codes "rchar")
    then store (stol value ten) (λ n. record io { rchar = n })
    else if same_text key (codes "wchar")
    then store (stol value ten) (λ n. record io { wchar = n })
    else if same_text key (codes "syscr")
    then store (stol value ten) (λ n. record io { syscr = n })
    else if same_text key (codes "syscw")
    then store (stol value ten) (λ n. record io { syscw = n })
    else if same_text key (codes "read_bytes")
    then store (stol value ten) (λ n. record io { read_bytes = n })
    else if same_text key (codes "write_bytes")
    then store (stol value ten) (λ n. record io { write_bytes = n })
    else if same_text key (codes "cancelled_write_bytes")
    then store (stol value ten) (λ n. record io { cancelled_write_bytes = n })
    else ok io

-- One line, `key: value`.
unfoldable pub read_io_line : Boost → Bytes → IoStat → Result IoStat
read_io_line boost l = set_io (before b':' l) (boost.trim (before b'\n' (after b':' l)))

-- The loop. What was stored before an exception stays stored.
unfoldable pub read_io_lines : Boost → List Bytes → IoStat → Result (Unit {0}) × IoStat
read_io_lines boost [] io = (ok tt, io)
read_io_lines boost (l ∷ ls) io = elim (read_io_line boost l io) [
  | ok next ↦ read_io_lines boost ls next
  | throw e ↦ (throw e, io)
]

-- The lines of a file; none if it cannot be opened.
abbrev pub lines_of : Option Bytes → List Bytes
lines_of none = []
lines_of (some s) = lines b'\n' s

-- readIo: the time of the read is noted before the lines are read.
unfoldable pub read_io : Boost → Os → ProcessInfo → Effect (Unit {0})
read_io boost os p =
    let (r, io) =
      read_io_lines boost (lines_of (os.open_file (p.proc_path ++ codes "io")))
        (record p.io { last_read = os.now }) in
    (r, record p { io = io })

-- the flag is cleared behind a read that returns
abbrev pub clear_io : Effect (Unit {0}) → Effect (Unit {0})
clear_io (ok t, p) = (ok t, record p { need_update = record p.need_update { io = false } })
clear_io (throw e, p) = (throw e, p)

-- if (m_need_update_io) { readIo(); m_need_update_io = false; }
unfoldable pub update_io : Boost → Os → ProcessInfo → Effect (Unit {0})
update_io boost os p = if p.need_update.io then clear_io (read_io boost os p) else (ok tt, p)

abbrev pub value_of : (IoStat → ℕ) → Effect (Unit {0}) → Effect ℕ
value_of view (ok t, p) = (ok (view p.io), p)
value_of view (throw e, p) = (throw e, p)

-- ProcessInfo::readBytes
unfoldable pub read_bytes : Boost → Os → ProcessInfo → Effect ℕ
read_bytes boost os p = value_of (λ io. io.read_bytes) (update_io boost os p)

-- ProcessInfo::writeBytes
unfoldable pub write_bytes : Boost → Os → ProcessInfo → Effect ℕ
write_bytes boost os p = value_of (λ io. io.write_bytes) (update_io boost os p)
