-- ===== src/ProcessInfo/Usage.antt =====
-- src/processinfo.cpp: the usage of processor and files, as differences to the old states that
-- the static map_pid_oldstate keeps for each pid.
pub mod OldState
pub mod Total
pub mod Mixed
pub mod Clock
pub mod Cpu
use libsysinfo.Boost.{Boost}
use libsysinfo.CpuInfo.{get_nb_cores}
use libsysinfo.Prelude.{
  ℕ, ◌+◌, ◌-◌, ◌*◌, ◌/◌, ◌%◌, ◌^◌, Bool, true, false, List, [], ◌∷◌, ◌++◌, Option, none, some, ltb,
  leb, ◌==◌, if◌then◌else◌, ℤ, pos, negsuc, to_u64, eqb_ℤ, Result, ok, throw,
}
use libsysinfo.ProcessInfo.Getters.{pid, utime, stime}
use libsysinfo.ProcessInfo.Io.{Effect, read_bytes, write_bytes}
use libsysinfo.ProcessInfo.Stat.{unsigned_long, stream_of}
use libsysinfo.ProcessInfo.State.{Os, ProcessInfo, IoStat, Usage, zero_usage, per_second, sum}
use libsysinfo.Text.Stream.{Stream, extract_number, extract_word}
use libsysinfo.Text.{Bytes, codes}

-- The static data: the old states by pid, and nb_core once it is initialised.
pub record Statics : Type 0 where
  pub map_pid_oldstate : List (ℤ × ProcessInfo)
  pub nb_core : Option ℕ

unfoldable pub find_oldstate : ℤ → List (ℤ × ProcessInfo) → Option ProcessInfo
find_oldstate k [] = none
find_oldstate k ((j, old) ∷ m) = if eqb_ℤ j k then some old else find_oldstate k m

-- map_pid_oldstate[k] = ..., or a change of the object that it points to
unfoldable pub set_oldstate : ℤ → ProcessInfo → List (ℤ × ProcessInfo) → List (ℤ × ProcessInfo)
set_oldstate k p [] = (k, p) ∷ []
set_oldstate k p ((j, old) ∷ m) = if eqb_ℤ j k then (k, p) ∷ m else (j, old) ∷ set_oldstate k p m

-- What a computation of a usage leaves: its outcome, the static data and the object.
abbrev pub Outcome : Type 0
Outcome = Result (Unit {0}) × Statics × ProcessInfo

-- The difference of two times, in nanoseconds.
abbrev pub minus : ℕ → ℕ → ℤ
minus a b = if leb b a then pos (a - b) else negsuc (b - a - 1)

-- a - b for unsigned long
abbrev pub sub_u64 : ℕ → ℕ → ℕ
sub_u64 a b = (a + 2 ^ 64 - b) % 2 ^ 64

-- The bytes over the time, unless no time has passed.
abbrev pub io_rate : ℕ → ℕ → ℤ → Usage
io_rate bytes old_bytes delta_time =
    if eqb_ℤ delta_time (pos 0) then zero_usage else per_second (sub_u64 bytes old_bytes) delta_time

-- The part of updateIoReadUsage behind the read, with what is found for the pid.
unfoldable pub io_read_delta :
    ℕ → Option ProcessInfo → Statics → ProcessInfo → Statics × ProcessInfo
io_read_delta bytes none g p = (
  record g { map_pid_oldstate = set_oldstate (pid p) p g.map_pid_oldstate },
  record p { io_read_usage = zero_usage },
)
io_read_delta bytes (some old) g p = (
  record g {
    map_pid_oldstate = set_oldstate (pid p) (record old { io = p.io }) g.map_pid_oldstate;
  },
  record p {
    io_read_usage = io_rate bytes old.io.read_bytes (minus p.io.last_read old.io.last_read);
  },
)

unfoldable pub io_write_delta :
    ℕ → Option ProcessInfo → Statics → ProcessInfo → Statics × ProcessInfo
io_write_delta bytes none g p = (
  record g { map_pid_oldstate = set_oldstate (pid p) p g.map_pid_oldstate },
  record p { io_write_usage = zero_usage },
)
io_write_delta bytes (some old) g p = (
  record g {
    map_pid_oldstate = set_oldstate (pid p) (record old { io = p.io }) g.map_pid_oldstate;
  },
  record p {
    io_write_usage = io_rate bytes old.io.write_bytes (minus p.io.last_read old.io.last_read);
  },
)

abbrev pub behind_read :
    (ℕ → Option ProcessInfo → Statics → ProcessInfo → Statics × ProcessInfo)
    → Statics
    → Effect ℕ
    → Outcome
behind_read delta g (throw e, p) = (throw e, g, p)
behind_read delta g (ok bytes, p) =
    let (g', p') = delta bytes (find_oldstate (pid p) g.map_pid_oldstate) g p in (ok tt, g', p')

unfoldable pub update_io_read_usage : Boost → Os → Statics → ProcessInfo → Outcome
update_io_read_usage boost os g p = behind_read io_read_delta g (read_bytes boost os p)

unfoldable pub update_io_write_usage : Boost → Os → Statics → ProcessInfo → Outcome
update_io_write_usage boost os g p = behind_read io_write_delta g (write_bytes boost os p)

-- What the two getters return, with the static data and the object that they leave.
abbrev pub Reply : Type 0 → Type 0
Reply A = Result A × Statics × ProcessInfo

abbrev pub reply_read : Outcome → Reply Usage
reply_read (throw e, g, p) = (throw e, g, p)
reply_read (ok t, g, p) = (
  ok p.io_read_usage,
  g,
  record p { need_update = record p.need_update { io_read_usage = false } },
)

abbrev pub reply_write : Outcome → Reply Usage
reply_write (throw e, g, p) = (throw e, g, p)
reply_write (ok t, g, p) = (
  ok p.io_write_usage,
  g,
  record p { need_update = record p.need_update { io_write_usage = false } },
)

-- ProcessInfo::ioReadUsage
unfoldable pub io_read_usage : Boost → Os → Statics → ProcessInfo → Reply Usage
io_read_usage boost os g p =
    if p.need_update.io_read_usage
    then reply_read (update_io_read_usage boost os g p)
    else (ok p.io_read_usage, g, p)

-- ProcessInfo::ioWriteUsage
unfoldable pub io_write_usage : Boost → Os → Statics → ProcessInfo → Reply Usage
io_write_usage boost os g p =
    if p.need_update.io_write_usage
    then reply_write (update_io_write_usage boost os g p)
    else (ok p.io_write_usage, g, p)

abbrev pub add_usage : Usage → Reply Usage → Reply Usage
add_usage u (ok v, g, p) = (ok (sum u v), g, p)
add_usage u (throw e, g, p) = (throw e, g, p)

abbrev pub then_write : Boost → Os → Reply Usage → Reply Usage
then_write boost os (ok u, g, p) = add_usage u (io_write_usage boost os g p)
then_write boost os (throw e, g, p) = (throw e, g, p)

-- ProcessInfo::ioTotalUsage, with the operands of the sum evaluated from the left.
unfoldable pub io_total_usage : Boost → Os → Statics → ProcessInfo → Reply Usage
io_total_usage boost os g p = then_write boost os (io_read_usage boost os g p)
