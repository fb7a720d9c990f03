-- ===== src/ProcessInfo/Stat/Line.antt =====
-- The line of /proc/<pid>/stat as proc(5) documents it: the integers behind the state, from the
-- fourth field to the 52nd, with the member that is meant to hold each. This is a description of
-- the file that does not rest on readStat.
use libsysinfo.Prelude.{List, [], ◌∷◌}
use libsysinfo.ProcessInfo.Stat.{int, long, unsigned_int, unsigned_long}
use libsysinfo.ProcessInfo.State.{
  StatField, m_ppid, m_pgid, m_session, m_tty_nr, m_tpgid, m_flags, m_minflt, m_cminflt, m_majflt,
  m_cmajflt, m_utime, m_stime, m_cutime, m_cstime, m_priority, m_nice, m_num_threads, m_itrealvalue,
  m_starttime, m_vmsize, m_rss, m_rsslim, m_startcode, m_endcode, m_startstack, m_kstkesp,
  m_kstkeip, m_signal, m_blocked, m_siginore, m_sigcatch, m_wchan_addr, m_nswap, m_cnswap,
  m_exit_signal, m_processor, m_rt_priority, m_policy, m_delayacct_blkio_ticks, m_guest_time,
  m_cguest_time, m_start_data, m_end_data, m_start_brk, m_arg_start, m_arg_end, m_env_start,
  m_env_end, m_exit_code, m_pid,
}
use libsysinfo.Text.Stream.{Kind}

-- The members in the order of the fields of the file.
abbrev pub kernel_fields : List StatField
kernel_fields =
    m_ppid ∷ m_pgid ∷ m_session ∷ m_tty_nr ∷ m_tpgid ∷ m_flags ∷ m_minflt ∷ m_cminflt ∷ m_majflt
    ∷ m_cmajflt ∷ m_utime ∷ m_stime ∷ m_cutime ∷ m_cstime ∷ m_priority ∷ m_nice ∷ m_num_threads
    ∷ m_itrealvalue ∷ m_starttime ∷ m_vmsize ∷ m_rss ∷ m_rsslim ∷ m_startcode ∷ m_endcode
    ∷ m_startstack ∷ m_kstkesp ∷ m_kstkeip ∷ m_signal ∷ m_blocked ∷ m_siginore ∷ m_sigcatch
    ∷ m_wchan_addr ∷ m_nswap ∷ m_cnswap ∷ m_exit_signal ∷ m_processor ∷ m_rt_priority ∷ m_policy
    ∷ m_delayacct_blkio_ticks ∷ m_guest_time ∷ m_cguest_time ∷ m_start_data ∷ m_end_data
    ∷ m_start_brk ∷ m_arg_start ∷ m_arg_end ∷ m_env_start ∷ m_env_end ∷ m_exit_code ∷ []

-- The types of the members in src/processinfo.h.
abbrev pub declared_type : StatField → Kind
declared_type m_pid = int
declared_type m_ppid = int
declared_type m_pgid = int
declared_type m_session = int
declared_type m_tty_nr = int
declared_type m_tpgid = int
declared_type m_flags = unsigned_int
declared_type m_minflt = unsigned_long
declared_type m_cminflt = unsigned_long
declared_type m_majflt = unsigned_long
declared_type m_cmajflt = unsigned_long
declared_type m_utime = unsigned_long
declared_type m_stime = unsigned_long
declared_type m_cutime = unsigned_long
declared_type m_cstime = unsigned_long
declared_type m_priority = long
declared_type m_nice = long
declared_type m_num_threads = long
declared_type m_itrealvalue = long
declared_type m_starttime = unsigned_long
declared_type m_vmsize = unsigned_long
declared_type m_rss = long
declared_type m_rsslim = unsigned_long
declared_type m_startcode = unsigned_long
declared_type m_endcode = unsigned_long
declared_type m_startstack = unsigned_long
declared_type m_kstkesp = unsigned_long
declared_type m_kstkeip = unsigned_long
declared_type m_signal = unsigned_long
declared_type m_blocked = unsigned_long
declared_type m_siginore = unsigned_long
declared_type m_sigcatch = unsigned_long
declared_type m_wchan_addr = unsigned_long
declared_type m_nswap = unsigned_long
declared_type m_cnswap = unsigned_long
declared_type m_exit_signal = int
declared_type m_processor = int
declared_type m_rt_priority = unsigned_int
declared_type m_policy = unsigned_int
declared_type m_delayacct_blkio_ticks = unsigned_long
declared_type m_guest_time = unsigned_long
declared_type m_cguest_time = long
declared_type m_start_data = unsigned_long
declared_type m_end_data = unsigned_long
declared_type m_start_brk = unsigned_long
declared_type m_arg_start = unsigned_long
declared_type m_arg_end = unsigned_long
declared_type m_env_start = unsigned_long
declared_type m_env_end = unsigned_long
declared_type m_exit_code = int

abbrev with_types : List StatField → List (StatField × Kind)
with_types [] = []
with_types (f ∷ fs) = (f, declared_type f) ∷ with_types fs

abbrev pub kernel_numbers : List (StatField × Kind)
kernel_numbers = with_types kernel_fields
