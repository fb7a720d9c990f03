-- ===== src/ProcessInfo/Getters.antt =====
-- src/processinfo.cpp: the getters over /proc/<pid>/stat. Each reads the file if its members
-- are flagged as old, clears the flag and returns a member.
pub mod Snapshot
use libsysinfo.Prelude.{
  ℕ, ◌+◌, ◌-◌, ◌/◌, ◌%◌, ◌^◌, true, false, List, [], ◌∷◌, ◌==◌, if◌then◌else◌, ℤ, pos, to_u64,
  eqb_ℤ,
}
use libsysinfo.ProcessInfo.Stat.{read_stat}
use libsysinfo.ProcessInfo.State.{
  Os, ProcessInfo, Stat, StatField, m_pid, m_policy, m_starttime, m_ppid, m_pgid, m_session,
  m_tpgid, m_flags, m_minflt, m_cminflt, m_majflt, m_cmajflt, m_utime, m_stime, m_cutime, m_cstime,
  m_priority, m_nice, m_num_threads, m_vmsize, m_startcode, m_endcode, m_startstack, m_kstkesp,
  m_kstkeip, m_wchan_addr, m_processor, m_rt_priority, m_delayacct_blkio_ticks, m_guest_time,
  m_cguest_time, m_start_data, m_end_data, m_start_brk, m_arg_start, m_arg_end, m_env_start,
  m_env_end,
}
use libsysinfo.Text.{Bytes, codes}

-- ProcessInfo::pid
unfoldable pub pid : ProcessInfo → ℤ
pid p = p.stat.number m_pid

-- if (m_need_update_stat) { readStat(); m_need_update_stat = false; }
unfoldable pub update_stat : Os → ProcessInfo → ProcessInfo
update_stat os p =
    if p.need_update.stat
    then record (read_stat os p) { need_update = record p.need_update { stat = false } }
    else p

-- A getter returns its value and the object that it leaves.
abbrev pub Getter : Type 0 → Type 0
Getter A = Os → ProcessInfo → A × ProcessInfo

abbrev pub stat_getter : {A : Type 0} → (Stat → A) → Getter A
stat_getter view os p = let q = update_stat os p in (view q.stat, q)

-- ProcessInfo::name
unfoldable pub name : Getter Bytes
name = stat_getter λ s. s.name

-- ProcessInfo::state
unfoldable pub state : Getter Bytes
state = stat_getter λ s. s.state

unfoldable pub ppid : Getter ℤ
ppid = stat_getter λ s. s.number m_ppid

unfoldable pub pgid : Getter ℤ
pgid = stat_getter λ s. s.number m_pgid

unfoldable pub sid : Getter ℤ
sid = stat_getter λ s. s.number m_session

unfoldable pub tpgid : Getter ℤ
tpgid = stat_getter λ s. s.number m_tpgid

unfoldable pub flags : Getter ℤ
flags = stat_getter λ s. s.number m_flags

unfoldable pub minflt : Getter ℤ
minflt = stat_getter λ s. s.number m_minflt

unfoldable pub cminflt : Getter ℤ
cminflt = stat_getter λ s. s.number m_cminflt

unfoldable pub majflt : Getter ℤ
majflt = stat_getter λ s. s.number m_majflt

unfoldable pub cmajflt : Getter ℤ
cmajflt = stat_getter λ s. s.number m_cmajflt

unfoldable pub utime : Getter ℤ
utime = stat_getter λ s. s.number m_utime

unfoldable pub stime : Getter ℤ
stime = stat_getter λ s. s.number m_stime

unfoldable pub cutime : Getter ℤ
cutime = stat_getter λ s. s.number m_cutime

unfoldable pub cstime : Getter ℤ
cstime = stat_getter λ s. s.number m_cstime

unfoldable pub priority : Getter ℤ
priority = stat_getter λ s. s.number m_priority

unfoldable pub nice : Getter ℤ
nice = stat_getter λ s. s.number m_nice

unfoldable pub num_threads : Getter ℤ
num_threads = stat_getter λ s. s.number m_num_threads

unfoldable pub vm_size : Getter ℤ
vm_size = stat_getter λ s. s.number m_vmsize

unfoldable pub start_code : Getter ℤ
start_code = stat_getter λ s. s.number m_startcode

unfoldable pub end_code : Getter ℤ
end_code = stat_getter λ s. s.number m_endcode

unfoldable pub start_stack : Getter ℤ
start_stack = stat_getter λ s. s.number m_startstack

unfoldable pub kstk_esp : Getter ℤ
kstk_esp = stat_getter λ s. s.number m_kstkesp

unfoldable pub kstk_eip : Getter ℤ
kstk_eip = stat_getter λ s. s.number m_kstkeip

unfoldable pub wchan_addr : Getter ℤ
wchan_addr = stat_getter λ s. s.number m_wchan_addr

unfoldable pub processor : Getter ℤ
processor = stat_getter λ s. s.number m_processor

unfoldable pub rt_priority : Getter ℤ
rt_priority = stat_getter λ s. s.number m_rt_priority

unfoldable pub delayacct_blkio_ticks : Getter ℤ
delayacct_blkio_ticks = stat_getter λ s. s.number m_delayacct_blkio_ticks

unfoldable pub guest_time : Getter ℤ
guest_time = stat_getter λ s. s.number m_guest_time

-- A long returned as an unsigned long.
unfoldable pub cguest_time : Getter ℤ
cguest_time = stat_getter λ s. pos (to_u64 (s.number m_cguest_time))

unfoldable pub start_data : Getter ℤ
start_data = stat_getter λ s. s.number m_start_data

unfoldable pub end_data : Getter ℤ
end_data = stat_getter λ s. s.number m_end_data

unfoldable pub start_brk : Getter ℤ
start_brk = stat_getter λ s. s.number m_start_brk

unfoldable pub start_arg : Getter ℤ
start_arg = stat_getter λ s. s.number m_arg_start

unfoldable pub end_arg : Getter ℤ
end_arg = stat_getter λ s. s.number m_arg_end

unfoldable pub start_env : Getter ℤ
start_env = stat_getter λ s. s.number m_env_start

unfoldable pub end_env : Getter ℤ
end_env = stat_getter λ s. s.number m_env_end

-- The seconds since the start of the process: jiffies to seconds, taken from the uptime modulo
-- 2 ^ 64.
unfoldable pub start_time : Getter ℕ
start_time os p =
    let q = update_stat os p in
    let starttime_sec = to_u64 (q.stat.number m_starttime) / os.clock_ticks in
    ((os.uptime % 2 ^ 64 + 2 ^ 64 - starttime_sec) % 2 ^ 64, q)

-- the switch of `policy`
unfoldable pub policy_name : ℤ → Bytes
policy_name z =
    if eqb_ℤ z (pos 0)
    then codes "SCHED_NORMAL"
    else if eqb_ℤ z (pos 1)
    then codes "SCHED_FIFO"
    else if eqb_ℤ z (pos 2)
    then codes "SCHED_RR"
    else if eqb_ℤ z (pos 3)
    then codes "SCHED_BATCH"
    else if eqb_ℤ z (pos 5)
    then codes "SCHED_IDLE"
    else if eqb_ℤ z (pos 6)
    then codes "SCHED_DEADLINE"
    else []

unfoldable pub policy : Getter Bytes
unfolding policy_name
policy = stat_getter λ s. policy_name (s.number m_policy)
