-- ===== src/Tests/Data.antt =====
-- Objects and operating systems for the tests.
use libsysinfo.Prelude.{ℕ, false, ◌+◌, List, [], none, some, ◌==◌, if◌then◌else◌, ℤ, pos, negsuc}
use libsysinfo.ProcessInfo.State.{Os, ProcessInfo, NeedUpdate, Stat, stat_index, IoStat, zero_usage}
use libsysinfo.Text.{Bytes, codes}

abbrev pub sample : Stat
sample = record {
  name = codes "bash";
  state = codes "S";
  number = λ f. if stat_index f == 5 then negsuc 0 else pos (stat_index f + 1000);
}

abbrev pub no_flags : NeedUpdate
no_flags = record {
  stat = false;
  status = false;
  io = false;
  cwd = false;
  exe = false;
  cmdline = false;
  root = false;
  environ = false;
  fd = false;
  wchan = false;
  smaps = false;
  cpu_usage = false;
  io_read_usage = false;
  io_write_usage = false;
}

abbrev pub no_io : IoStat
no_io = record {
  rchar = 0;
  wchar = 0;
  syscr = 0;
  syscw = 0;
  read_bytes = 0;
  write_bytes = 0;
  cancelled_write_bytes = 0;
  last_read = 0;
}

abbrev pub process : List ℤ → ProcessInfo
process uids = record {
  proc_path = codes "/proc/7/";
  need_update = no_flags;
  stat = record { name = []; state = []; number = λ f. pos 7 };
  cmdline = [];
  cwd = [];
  exe = [];
  root = [];
  environ = [];
  io = no_io;
  wchan_name = [];
  status = record { uids = uids; gids = []; vm = λ f. pos 0 };
  cgroups = [];
  fds = [];
  maps = [];
  limits = record { soft_lmt = λ l. pos 0; hard_lmt = λ l. pos 0 };
  stack = [];
  cpu_usage = pos 0;
  io_read_usage = zero_usage;
  io_write_usage = zero_usage;
  last_cpu_total_time = 11;
  last_process_total_time = 12;
}

-- A system at a time, on which every file has the same text.
abbrev pub system : ℕ → Bytes → Os
system now text = record {
  open_file = λ path. some text;
  read_symlink = λ path. none;
  list_directory = λ path. none;
  is_directory = λ path. false;
  device = λ path. none;
  user_name = λ z. none;
  now = now;
  clock_ticks = 100;
  uptime = 1000;
}
