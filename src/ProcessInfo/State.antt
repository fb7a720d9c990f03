-- ===== src/ProcessInfo/State.antt =====
-- src/processinfo.h: the members of ProcessInfo, grouped by the file that they are read from,
-- and what the class takes from the operating system.
use libsysinfo.Prelude.{ℕ, Bool, List, Option, ℤ, ◌==◌, if◌then◌else◌}
use libsysinfo.Text.{Bytes}
use libsysinfo.MMap.State.{MMap}

-- The operating system at one moment. `open_file` is the content that an ifstream on a path
-- delivers, none where it cannot be opened; `read_symlink` is none where it sets its error
-- code; `list_directory` is the file names, none where the iterator throws; `is_directory` is that of
-- Boost on the status of a path; `device` is st_rdev, none where stat fails; `user_name` is pw_name of
-- getpwuid.
pub record Os : Type 0 where
  pub open_file : Bytes → Option Bytes
  pub read_symlink : Bytes → Option Bytes
  pub list_directory : Bytes → Option (List Bytes)
  pub is_directory : Bytes → Bool
  pub device : Bytes → Option ℕ
  pub user_name : ℤ → Option Bytes
  -- system_clock::now(), in nanoseconds
  pub now : ℕ
  -- sysconf(_SC_CLK_TCK)
  pub clock_ticks : ℕ
  -- sysinfo(&info); info.uptime
  pub uptime : ℕ

-- The integer members of /proc/<pid>/stat.
pub data StatField : Type 0 where
  m_pid m_ppid m_pgid m_session m_tty_nr m_tpgid m_flags m_minflt m_cminflt : StatField
  m_majflt m_cmajflt m_utime m_stime m_cutime m_cstime m_priority m_nice : StatField
  m_num_threads m_itrealvalue m_starttime m_vmsize m_rss m_rsslim m_startcode : StatField
  m_endcode m_startstack m_kstkesp m_kstkeip m_signal m_blocked m_siginore : StatField
  m_sigcatch m_wchan_addr m_nswap m_cnswap m_exit_signal m_processor m_rt_priority : StatField
  m_policy m_delayacct_blkio_ticks m_guest_time m_cguest_time m_start_data : StatField
  m_end_data m_start_brk m_arg_start m_arg_end m_env_start m_env_end m_exit_code : StatField

abbrev pub stat_index : StatField → ℕ
stat_index m_pid = 0
stat_index m_ppid = 1
stat_index m_pgid = 2
stat_index m_session = 3
stat_index m_tty_nr = 4
stat_index m_tpgid = 5
stat_index m_flags = 6
stat_index m_minflt = 7
stat_index m_cminflt = 8
stat_index m_majflt = 9
stat_index m_cmajflt = 10
stat_index m_utime = 11
stat_index m_stime = 12
stat_index m_cutime = 13
stat_index m_cstime = 14
stat_index m_priority = 15
stat_index m_nice = 16
stat_index m_num_threads = 17
stat_index m_itrealvalue = 18
stat_index m_starttime = 19
stat_index m_vmsize = 20
stat_index m_rss = 21
stat_index m_rsslim = 22
stat_index m_startcode = 23
stat_index m_endcode = 24
stat_index m_startstack = 25
stat_index m_kstkesp = 26
stat_index m_kstkeip = 27
stat_index m_signal = 28
stat_index m_blocked = 29
stat_index m_siginore = 30
stat_index m_sigcatch = 31
stat_index m_wchan_addr = 32
stat_index m_nswap = 33
stat_index m_cnswap = 34
stat_index m_exit_signal = 35
stat_index m_processor = 36
stat_index m_rt_priority = 37
stat_index m_policy = 38
stat_index m_delayacct_blkio_ticks = 39
stat_index m_guest_time = 40
stat_index m_cguest_time = 41
stat_index m_start_data = 42
stat_index m_end_data = 43
stat_index m_start_brk = 44
stat_index m_arg_start = 45
stat_index m_arg_end = 46
stat_index m_env_start = 47
stat_index m_env_end = 48
stat_index m_exit_code = 49

pub record Stat : Type 0 where
  pub name : Bytes
  pub state : Bytes
  pub number : StatField → ℤ

-- The members m_vm_* of /proc/<pid>/status.
pub data VmField : Type 0 where
  m_vm_peak m_vm_lck m_vm_pin m_vm_hwm m_vm_rss m_vm_data m_vm_stk : VmField
  m_vm_exe m_vm_lib m_vm_pte m_vm_pmd m_vm_swap : VmField

abbrev pub vm_index : VmField → ℕ
vm_index m_vm_peak = 0
vm_index m_vm_lck = 1
vm_index m_vm_pin = 2
vm_index m_vm_hwm = 3
vm_index m_vm_rss = 4
vm_index m_vm_data = 5
vm_index m_vm_stk = 6
vm_index m_vm_exe = 7
vm_index m_vm_lib = 8
vm_index m_vm_pte = 9
vm_index m_vm_pmd = 10
vm_index m_vm_swap = 11

pub record Status : Type 0 where
  pub uids : List ℤ
  pub gids : List ℤ
  pub vm : VmField → ℤ

-- struct io_stat; `last_read` is a time_point in nanoseconds.
pub record IoStat : Type 0 where
  pub rchar : ℕ
  pub wchar : ℕ
  pub syscr : ℕ
  pub syscw : ℕ
  pub read_bytes : ℕ
  pub write_bytes : ℕ
  pub cancelled_write_bytes : ℕ
  pub last_read : ℕ

-- A usage in bytes per second. The source computes a double; here it is the quotient that the
-- double rounds, of bytes by nanoseconds, or the sum that it rounds.
pub data Usage : Type 0 where
  zero_usage : Usage
  per_second : ℕ → ℤ → Usage
  sum : Usage → Usage → Usage

pub record CgroupHierarchy : Type 0 where
  pub hierarchy_id : ℤ
  pub subsystems : List Bytes
  pub cgroup : Bytes

pub record StackFunc : Type 0 where
  pub address : Bytes
  pub function : Bytes

-- struct limits_t: a soft and a hard limit for each of these.
pub data Limit : Type 0 where
  cpu_time file_size data_size stack_size : Limit
  core_file_size resident_set processes open_files : Limit
  locked_memory address_space file_locks pending_signals : Limit
  msgqueue_size nice_priority realtime_priority realtime_timeout : Limit

abbrev pub limit_index : Limit → ℕ
limit_index cpu_time = 0
limit_index file_size = 1
limit_index data_size = 2
limit_index stack_size = 3
limit_index core_file_size = 4
limit_index resident_set = 5
limit_index processes = 6
limit_index open_files = 7
limit_index locked_memory = 8
limit_index address_space = 9
limit_index file_locks = 10
limit_index pending_signals = 11
limit_index msgqueue_size = 12
limit_index nice_priority = 13
limit_index realtime_priority = 14
limit_index realtime_timeout = 15

pub record Limits : Type 0 where
  pub soft_lmt : Limit → ℤ
  pub hard_lmt : Limit → ℤ

-- The members m_need_update_*.
pub record NeedUpdate : Type 0 where
  pub stat : Bool
  pub status : Bool
  pub io : Bool
  pub cwd : Bool
  pub exe : Bool
  pub cmdline : Bool
  pub root : Bool
  pub environ : Bool
  pub fd : Bool
  pub wchan : Bool
  pub smaps : Bool
  pub cpu_usage : Bool
  pub io_read_usage : Bool
  pub io_write_usage : Bool

pub record ProcessInfo : Type 0 where
  pub proc_path : Bytes
  pub need_update : NeedUpdate
  pub stat : Stat
  pub cmdline : List Bytes
  pub cwd : Bytes
  pub exe : Bytes
  pub root : Bytes
  pub environ : List (Bytes × Bytes)
  pub io : IoStat
  pub wchan_name : Bytes
  pub status : Status
  pub cgroups : List CgroupHierarchy
  pub fds : List (ℤ × Bytes)
  pub maps : List MMap
  pub limits : Limits
  pub stack : List StackFunc
  pub cpu_usage : ℤ
  pub io_read_usage : Usage
  pub io_write_usage : Usage
  pub last_cpu_total_time : ℕ
  pub last_process_total_time : ℕ

-- An assignment to one of a family of members, which `index` tells apart.
module _ {K : Type 0} (index : K → ℕ) where
  unfoldable pub assign : (K → ℤ) → K → ℤ → K → ℤ
  assign store k z j = if index j == index k then z else store j
