-- ===== src/ProcessInfo/Usage/Cpu.antt =====
-- src/processinfo.cpp: updateCPUUsage and cpuUsage.
pub mod Rate
use libsysinfo.Boost.{Boost}
use libsysinfo.CpuInfo.{get_nb_cores}
use libsysinfo.Prelude.{
  ℕ, ◌+◌, ◌-◌, ◌*◌, ◌/◌, ◌%◌, ◌^◌, Bool, true, false, List, [], ◌∷◌, ◌++◌, Option, none, some, ltb,
  ◌==◌, if◌then◌else◌, ℤ, pos, negsuc, to_u64, to_int, Result, ok, throw,
}
use libsysinfo.ProcessInfo.Getters.{pid, utime, stime}
use libsysinfo.ProcessInfo.Stat.{unsigned_long, stream_of}
use libsysinfo.ProcessInfo.State.{Os, ProcessInfo}
use libsysinfo.ProcessInfo.Usage.{Statics, find_oldstate, set_oldstate, Outcome, Reply, sub_u64}
use libsysinfo.Text.Stream.{Stream, extract_number, extract_word}
use libsysinfo.Text.{Bytes, codes}

-- What the uninitialised local variables hold.
pub record Locals : Type 0 where
  pub nice : ℤ
  pub system : ℤ
  pub idle : ℤ

-- user + nice + system + idle, from the first line of /proc/stat
unfoldable pub cpu_total_time : Locals → Stream → ℕ
cpu_total_time l st0 =
    let (tmp, st1) = extract_word [] st0 in
    let (user, st2) = extract_number unsigned_long (pos 0) st1 in
    let (nice, st3) = extract_number unsigned_long l.nice st2 in
    let (system, st4) = extract_number unsigned_long l.system st3 in
    let (idle, st5) = extract_number unsigned_long l.idle st4 in
    (to_u64 user + to_u64 nice + to_u64 system + to_u64 idle) % 2 ^ 64

-- 100 * nb_core * delta_process_time / delta_cpu_time, unless no time has passed
unfoldable pub cpu_rate : ℕ → ℕ → ℕ → ℤ
cpu_rate nb_core delta_process delta_cpu =
    if delta_cpu == 0 then pos 0 else to_int ((100 * nb_core * delta_process) % 2 ^ 64 / delta_cpu)

-- The part behind the measurements, with what is found for the pid.
unfoldable pub cpu_delta :
    ℕ → ℕ → ℕ → Option ProcessInfo → Statics → ProcessInfo → Statics × ProcessInfo
cpu_delta nb_core cpu_total process_total none g p =
    let q = record p { last_cpu_total_time = cpu_total; last_process_total_time = process_total } in
    (
      record g { map_pid_oldstate = set_oldstate (pid p) q g.map_pid_oldstate },
      record q { cpu_usage = pos 0 },
    )
cpu_delta nb_core cpu_total process_total (some old) g p = (
  record g {
    map_pid_oldstate =
        set_oldstate (pid p)
          (record old { last_cpu_total_time = cpu_total; last_process_total_time = process_total })
          g.map_pid_oldstate;
  },
  record p {
    cpu_usage =
        cpu_rate nb_core (sub_u64 process_total old.last_process_total_time)
          (sub_u64 cpu_total old.last_cpu_total_time);
  },
)

abbrev pub as_unsigned : Result ℤ → Result ℕ
as_unsigned (ok z) = ok (to_u64 z)
as_unsigned (throw e) = throw e

-- static int nb_core = getNbCores(): computed at the first call that returns, and kept here as what
-- it is converted to in the product with the unsigned delta_process_time
abbrev pub nb_core_of : Boost → Os → Option ℕ → Result ℕ
nb_core_of boost os (some n) = ok n
nb_core_of boost os none = as_unsigned (get_nb_cores boost (os.open_file (codes "/proc/cpuinfo")))

abbrev pub measure : Locals → Os → Statics → ProcessInfo → ℕ → Statics × ProcessInfo
measure l os g p nb_core =
    let cpu_total = cpu_total_time l (stream_of (os.open_file (codes "/proc/stat"))) in
    let (u, p1) = utime os p in
    let (s, p2) = stime os p1 in
    cpu_delta nb_core cpu_total ((to_u64 u + to_u64 s) % 2 ^ 64)
      (find_oldstate (pid p2) g.map_pid_oldstate) (record g { nb_core = some nb_core }) p2

unfoldable pub update_cpu_usage : Boost → Locals → Os → Statics → ProcessInfo → Outcome
update_cpu_usage boost l os g p = elim (nb_core_of boost os g.nb_core) [
  | ok n ↦ let (g', p') = measure l os g p n in (ok tt, g', p')
  | throw e ↦ (throw e, g, p)
]

abbrev pub reply_cpu : Outcome → Reply ℤ
reply_cpu (throw e, g, p) = (throw e, g, p)
reply_cpu (ok t, g, p) =
    (ok p.cpu_usage, g, record p { need_update = record p.need_update { cpu_usage = false } })

-- ProcessInfo::cpuUsage
unfoldable pub cpu_usage : Boost → Locals → Os → Statics → ProcessInfo → Reply ℤ
cpu_usage boost l os g p =
    if p.need_update.cpu_usage
    then reply_cpu (update_cpu_usage boost l os g p)
    else (ok p.cpu_usage, g, p)
