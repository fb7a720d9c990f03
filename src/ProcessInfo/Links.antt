-- ===== src/ProcessInfo/Links.antt =====
-- src/processinfo.cpp: readCmdline, readCwd, readExe, readRoot and readWchan, and their getters.
pub mod Cmdline
use libsysinfo.Prelude.{
  ℕ, Bool, true, false, List, [], ◌∷◌, ◌++◌, Option, none, some, if◌then◌else◌,
}
use libsysinfo.ProcessInfo.Getters.{Getter}
use libsysinfo.ProcessInfo.State.{Os, ProcessInfo}
use libsysinfo.Text.Lines.{before, lines}
use libsysinfo.Text.{Bytes, codes}

-- the parts of a file that end in '\0'; none if it cannot be opened
abbrev pub zero_ended : Option Bytes → List Bytes
zero_ended none = []
zero_ended (some s) = lines 0 s

unfoldable pub read_cmdline : Os → ProcessInfo → ProcessInfo
read_cmdline os p = record p {
  cmdline = zero_ended (os.open_file (p.proc_path ++ codes "cmdline"));
}

-- ProcessInfo::cmdline
unfoldable pub cmdline : Getter (List Bytes)
cmdline os p =
    let q =
      if p.need_update.cmdline
      then record (read_cmdline os p) { need_update = record p.need_update { cmdline = false } }
      else p in
    (q.cmdline, q)

-- read_symlink(path, ec).string(), which is empty where ec is set
abbrev pub target : Option Bytes → Bytes
target none = []
target (some s) = s

unfoldable pub read_cwd : Os → ProcessInfo → ProcessInfo
read_cwd os p = record p { cwd = target (os.read_symlink (p.proc_path ++ codes "cwd")) }

unfoldable pub read_exe : Os → ProcessInfo → ProcessInfo
read_exe os p = record p { exe = target (os.read_symlink (p.proc_path ++ codes "exe")) }

unfoldable pub read_root : Os → ProcessInfo → ProcessInfo
read_root os p = record p { root = target (os.read_symlink (p.proc_path ++ codes "root")) }

-- ProcessInfo::cwd
unfoldable pub cwd : Getter Bytes
cwd os p =
    let q =
      if p.need_update.cwd
      then record (read_cwd os p) { need_update = record p.need_update { cwd = false } }
      else p in
    (q.cwd, q)

-- ProcessInfo::exe
unfoldable pub exe : Getter Bytes
exe os p =
    let q =
      if p.need_update.exe
      then record (read_exe os p) { need_update = record p.need_update { exe = false } }
      else p in
    (q.exe, q)

-- ProcessInfo::root
unfoldable pub root : Getter Bytes
root os p =
    let q =
      if p.need_update.root
      then record (read_root os p) { need_update = record p.need_update { root = false } }
      else p in
    (q.root, q)

-- getline into a string: a stream that is not open leaves it as it is
abbrev pub first_line : Option Bytes → Bytes → Bytes
first_line none old = old
first_line (some s) old = before b'\n' s

unfoldable pub read_wchan : Os → ProcessInfo → ProcessInfo
read_wchan os p = record p {
  wchan_name = first_line (os.open_file (p.proc_path ++ codes "wchan")) p.wchan_name;
}

-- ProcessInfo::wchanName
unfoldable pub wchan_name : Getter Bytes
wchan_name os p =
    let q =
      if p.need_update.wchan
      then record (read_wchan os p) { need_update = record p.need_update { wchan = false } }
      else p in
    (q.wchan_name, q)
