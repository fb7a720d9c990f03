-- ===== src/ProcessInfo/Usage/Clock/Others.antt =====
-- What the getters of the other files keep: status, cmdline, cwd, exe, root, environ, wchan, fd, smaps.
use mathlib.Core.Path.{subst}
use libsysinfo.Boost.{Boost}
use libsysinfo.MMap.State.{MMap}
use libsysinfo.Prelude.{ℕ, ◌≤◌, ◌≡◌, refl, List, ◌++◌, Result, ok, throw}
use libsysinfo.ProcessInfo.Environ.{environ, read_environ}
use libsysinfo.ProcessInfo.Fd.{Fds, fds, fds_value, read_fd, read_directory}
use libsysinfo.ProcessInfo.Io.{lines_of}
use libsysinfo.ProcessInfo.Links.{
  cmdline, read_cmdline, cwd, read_cwd, exe, read_exe, root, read_root, wchan_name, read_wchan,
}
use libsysinfo.ProcessInfo.Smaps.{maps, maps_value, read_smaps, read_smaps_file}
use libsysinfo.ProcessInfo.State.{Os, ProcessInfo, IoStat, Status}
use libsysinfo.ProcessInfo.Status.{update_status, clear_status, read_status, read_status_lines}
use libsysinfo.ProcessInfo.Usage.Clock.{Bounded, Rated, Timely, either_branch}
use libsysinfo.ProcessInfo.Usage.{Statics}
use libsysinfo.Text.{codes}

-- The files whose getters throw nothing.
pub data PlainFile : Type 0 where
  of_cmdline of_cwd of_exe of_root of_environ of_wchan : PlainFile

-- The object that the getter of a file leaves.
abbrev pub ask_file : PlainFile → Os → ProcessInfo → ProcessInfo
ask_file of_cmdline os p = (cmdline os p).1
ask_file of_cwd os p = (cwd os p).1
ask_file of_exe os p = (exe os p).1
ask_file of_root os p = (root os p).1
ask_file of_environ os p = (environ os p).1
ask_file of_wchan os p = (wchan_name os p).1

Timely-same :
    (t : ℕ) (g : Statics) (p q : ProcessInfo)
    → p.io ≡ q.io
    → p.need_update.io_read_usage ≡ q.need_update.io_read_usage
    → p.io_read_usage ≡ q.io_read_usage
    → p.need_update.io_write_usage ≡ q.need_update.io_write_usage
    → p.io_write_usage ≡ q.io_write_usage
    → Timely t g p
    → Timely t g q
Timely-same t g p q io due_read read due_write write s = record {
  past = subst (λ (x : IoStat). x.last_read ≤ t) io s.past;
  olds = subst (λ (x : IoStat). Bounded x.last_read g.map_pid_oldstate) io s.olds;
  read_rate =
      subst (Rated q.need_update.io_read_usage) read
        (subst (λ d. Rated d p.io_read_usage) due_read s.read_rate);
  write_rate =
      subst (Rated q.need_update.io_write_usage) write
        (subst (λ d. Rated d p.io_write_usage) due_write s.write_rate);
}

module _ (t : ℕ) (g : Statics) (p : ProcessInfo) (s : Timely t g p) where
  pub ask_file-Timely : (f : PlainFile) (os : Os) → Timely t g (ask_file f os p)
  unfolding cmdline read_cmdline cwd read_cwd exe read_exe root read_root environ read_environ
      wchan_name read_wchan
  ask_file-Timely of_cmdline os =
      either_branch (Timely t g) p.need_update.cmdline _ p
        (Timely-same t g p _ refl refl refl refl refl s) s
  ask_file-Timely of_cwd os =
      either_branch (Timely t g) p.need_update.cwd _ p
        (Timely-same t g p _ refl refl refl refl refl s) s
  ask_file-Timely of_exe os =
      either_branch (Timely t g) p.need_update.exe _ p
        (Timely-same t g p _ refl refl refl refl refl s) s
  ask_file-Timely of_root os =
      either_branch (Timely t g) p.need_update.root _ p
        (Timely-same t g p _ refl refl refl refl refl s) s
  ask_file-Timely of_environ os =
      either_branch (Timely t g) p.need_update.environ _ p
        (Timely-same t g p _ refl refl refl refl refl s) s
  ask_file-Timely of_wchan os =
      either_branch (Timely t g) p.need_update.wchan _ p
        (Timely-same t g p _ refl refl refl refl refl s) s

  clear_status-Timely :
      (r : Result (Unit {0})) (st : Status)
      → Timely t g (clear_status (r, record p { status = st })).1
  clear_status-Timely (ok x) st = Timely-same t g p _ refl refl refl refl refl s
  clear_status-Timely (throw e) st = Timely-same t g p _ refl refl refl refl refl s

  pub update_status-Timely : (boost : Boost) (os : Os) → Timely t g (update_status boost os p).1
  unfolding update_status read_status
  update_status-Timely boost os =
      let text = lines_of (os.open_file (p.proc_path ++ codes "status")) in
      let read = read_status_lines boost text p.status in
      either_branch (λ e. Timely t g e.1) p.need_update.status
        (clear_status (read_status boost os p)) (ok tt, p) (clear_status-Timely read.0 read.1) s

  fds_value-Timely :
      (r : Result (Unit {0})) (m : Fds) → Timely t g (fds_value (r, record p { fds = m })).1
  fds_value-Timely (ok x) m = Timely-same t g p _ refl refl refl refl refl s
  fds_value-Timely (throw e) m = Timely-same t g p _ refl refl refl refl refl s

  pub fds-Timely : (os : Os) → Timely t g (fds os p).1
  unfolding fds read_fd
  fds-Timely os =
      let directory = p.proc_path ++ codes "fd" in
      let read = read_directory os directory (os.list_directory directory) p.fds in
      either_branch (λ e. Timely t g e.1) p.need_update.fd (fds_value (read_fd os p)) (ok p.fds, p)
        (fds_value-Timely read.0 read.1) s

  maps_value-Timely :
      (r : Result (Unit {0})) (m : List MMap) → Timely t g (maps_value (r, record p { maps = m })).1
  maps_value-Timely (ok x) m = Timely-same t g p _ refl refl refl refl refl s
  maps_value-Timely (throw e) m = Timely-same t g p _ refl refl refl refl refl s

  pub maps-Timely : (boost : Boost) (raw : ℕ → MMap) (os : Os) → Timely t g (maps boost raw os p).1
  unfolding maps read_smaps
  maps-Timely boost raw os =
      let read = read_smaps_file boost raw (os.open_file (p.proc_path ++ codes "/smaps")) in
      either_branch (λ e. Timely t g e.1) p.need_update.smaps
        (maps_value (read_smaps boost raw os p)) (ok p.maps, p) (maps_value-Timely read.0 read.1) s
