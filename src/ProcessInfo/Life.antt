-- ===== src/ProcessInfo/Life.antt =====
-- src/processinfo.cpp: the constructors and needUpdate.
use libsysinfo.Prelude.{true, [], ◌++◌, ℤ, pos}
use libsysinfo.ProcessInfo.State.{ProcessInfo, NeedUpdate, m_pid, stat_index, assign}
use libsysinfo.Text.Decimal.{show_ℤ}
use libsysinfo.Text.{Bytes, codes}

abbrev pub all_flags : NeedUpdate
all_flags = record {
  stat = true;
  status = true;
  io = true;
  cwd = true;
  exe = true;
  cmdline = true;
  root = true;
  environ = true;
  fd = true;
  wchan = true;
  smaps = true;
  cpu_usage = true;
  io_read_usage = true;
  io_write_usage = true;
}

unfoldable pub need_update : ProcessInfo → ProcessInfo
need_update p = record p { need_update = all_flags }

-- The members behind a constructor that sets m_pid. What the source does not initialise is taken from
-- `raw`, whatever the storage holds; strings, vectors and maps start out empty, and the
-- time_point at the epoch.
abbrev initialised : ProcessInfo → Bytes → ℤ → ProcessInfo
initialised raw path pid = record raw {
  proc_path = path;
  stat = record { name = []; state = []; number = assign stat_index raw.stat.number m_pid pid };
  cmdline = [];
  cwd = [];
  exe = [];
  root = [];
  environ = [];
  io = record raw.io { last_read = 0 };
  wchan_name = [];
  status = record raw.status { uids = []; gids = [] };
  cgroups = [];
  fds = [];
  maps = [];
  stack = [];
}

-- ProcessInfo(). The flags are not initialised.
unfoldable pub default_process_info : ProcessInfo → ProcessInfo
unfolding assign
default_process_info raw = initialised raw [] (pos 0)

-- ProcessInfo(pid)
unfoldable pub process_info : ProcessInfo → ℤ → ProcessInfo
unfolding need_update assign
process_info raw pid =
    need_update (initialised raw (codes "/proc/" ++ (show_ℤ pid ++ codes "/")) pid)
