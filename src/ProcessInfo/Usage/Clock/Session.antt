-- ===== src/ProcessInfo/Usage/Clock/Session.antt =====
-- A program with one object: it is refreshed and asked for whatever it offers in any order, on a
-- clock that does not run backwards.
use libsysinfo.Boost.{Boost}
use libsysinfo.MMap.State.{MMap}
use libsysinfo.ProcessInfo.Fd.{fds}
use libsysinfo.ProcessInfo.Smaps.{maps}
use libsysinfo.ProcessInfo.Status.{update_status}
use libsysinfo.ProcessInfo.Usage.Clock.Others.{
  PlainFile, ask_file, ask_file-Timely, update_status-Timely, fds-Timely, maps-Timely,
}
use libsysinfo.Prelude.{ℕ, ◌≤◌, refl, inl, [], none, arith, ℤ, ok, throw}
use libsysinfo.ProcessInfo.Getters.{pid, update_stat}
use libsysinfo.ProcessInfo.Io.{read_bytes, write_bytes}
use libsysinfo.ProcessInfo.Life.{need_update, process_info}
use libsysinfo.ProcessInfo.State.{Os, ProcessInfo, Usage}
use libsysinfo.ProcessInfo.Usage.Clock.Cpu.{update_stat-Timely, cpu_usage-Timely}
use libsysinfo.ProcessInfo.Usage.Clock.{
  IsRate, Timely, Timely-mono, counter-Timely, Answered, io_read_usage-Answered,
  io_write_usage-Answered, io_total_usage-Answered,
}
use libsysinfo.ProcessInfo.Usage.Cpu.{Locals, cpu_usage}
use libsysinfo.ProcessInfo.Usage.{Statics, Reply, io_read_usage, io_write_usage, io_total_usage}

-- The static data, the object and the time of the last call.
pub record Session : Type 0 where
  pub clock : ℕ
  pub statics : Statics
  pub object : ProcessInfo

abbrev pub after_reply : {A : Type 0} → ℕ → Reply A → Session
after_reply now (r, g, p) = record { clock = now; statics = g; object = p }

-- An object that was just constructed, and static data that are empty.
abbrev pub begun : ℕ → ProcessInfo → ℤ → Session
begun t raw pid = record {
  clock = t;
  statics = record { map_pid_oldstate = []; nb_core = none };
  object = process_info raw pid;
}

-- If a usage is returned, it is 0 or a rate over a positive time.
abbrev pub Yields : Reply Usage → Type 0
Yields (ok u, g, p) = IsRate u
Yields (throw e, g, p) = Unit

module _ (boost : Boost) where
  -- One public member function that is called. pid changes nothing; the other getters of stat, ttyNr
  -- among them, leave what update_stat leaves, and uids, gids, userName and the getters vm* what
  -- update_status leaves.
  pub data Step (s : Session) : Session → Type 0 where
    refreshes : Step s (record s { object = need_update s.object })
    asks_stat : (os : Os) → Step s (record s { object = update_stat os s.object })
    asks_status : (os : Os) → Step s (record s { object = (update_status boost os s.object).1 })
    asks_file : (f : PlainFile) (os : Os) → Step s (record s { object = ask_file f os s.object })
    asks_fds : (os : Os) → Step s (record s { object = (fds os s.object).1 })
    asks_maps :
        (os : Os) (raw : ℕ → MMap) → Step s (record s { object = (maps boost raw os s.object).1 })
    asks_read_bytes :
        (os : Os)
        → s.clock ≤ os.now
        → Step s (record s { clock = os.now; object = (read_bytes boost os s.object).1 })
    asks_write_bytes :
        (os : Os)
        → s.clock ≤ os.now
        → Step s (record s { clock = os.now; object = (write_bytes boost os s.object).1 })
    asks_read_usage :
        (os : Os)
        → s.clock ≤ os.now
        → Step s (after_reply os.now (io_read_usage boost os s.statics s.object))
    asks_write_usage :
        (os : Os)
        → s.clock ≤ os.now
        → Step s (after_reply os.now (io_write_usage boost os s.statics s.object))
    asks_total_usage :
        (os : Os)
        → s.clock ≤ os.now
        → Step s (after_reply os.now (io_total_usage boost os s.statics s.object))
    asks_cpu_usage :
        (os : Os) (l : Locals)
        → s.clock ≤ os.now
        → Step s (after_reply os.now (cpu_usage boost l os s.statics s.object))

  pub data Reach (s : Session) : Session → Type 0 where
    here : Reach s s
    next : {t u : Session} → Reach s t → Step t u → Reach s u

  abbrev Sound : Session → Type 0
  Sound s = Timely s.clock s.statics s.object

  Answered-Sound : (t : ℕ) (r : Reply Usage) → Answered t r → Sound (after_reply t r)
  Answered-Sound t (ok u, g, p) a = a.0
  Answered-Sound t (throw e, g, p) a = a

  Step-Sound : {s u : Session} → Step s u → Sound s → Sound u
  unfolding need_update read_bytes write_bytes
  Step-Sound refreshes h = record {
    past = h.past;
    olds = h.olds;
    read_rate = inl refl;
    write_rate = inl refl;
  }
  Step-Sound {s} (asks_stat os) h = update_stat-Timely boost s.clock s.statics os s.object h
  Step-Sound {s} (asks_status os) h = update_status-Timely s.clock s.statics s.object h boost os
  Step-Sound {s} (asks_file f os) h = ask_file-Timely s.clock s.statics s.object h f os
  Step-Sound {s} (asks_fds os) h = fds-Timely s.clock s.statics s.object h os
  Step-Sound {s} (asks_maps os raw) h = maps-Timely s.clock s.statics s.object h boost raw os
  Step-Sound {s} (asks_read_bytes os le) h =
      counter-Timely (λ io. io.read_bytes) boost os s.clock s.statics s.object le h
  Step-Sound {s} (asks_write_bytes os le) h =
      counter-Timely (λ io. io.write_bytes) boost os s.clock s.statics s.object le h
  Step-Sound {s} (asks_read_usage os le) h =
      Answered-Sound os.now (io_read_usage boost os s.statics s.object)
        (io_read_usage-Answered boost os s.clock s.statics s.object le h)
  Step-Sound {s} (asks_write_usage os le) h =
      Answered-Sound os.now (io_write_usage boost os s.statics s.object)
        (io_write_usage-Answered boost os s.clock s.statics s.object le h)
  Step-Sound {s} (asks_total_usage os le) h =
      Answered-Sound os.now (io_total_usage boost os s.statics s.object)
        (io_total_usage-Answered boost os s.clock s.statics s.object le h)
  Step-Sound {s} (asks_cpu_usage os l le) h =
      cpu_usage-Timely boost l os os.now s.statics s.object
        (Timely-mono s.clock os.now s.statics s.object le h)

  Reach-Sound : {s u : Session} → Reach s u → Sound s → Sound u
  Reach-Sound here h = h
  Reach-Sound (next r step) h = Step-Sound step (Reach-Sound r h)

  begun-Sound : (t : ℕ) (raw : ProcessInfo) (pid : ℤ) → Sound (begun t raw pid)
  unfolding process_info need_update
  begun-Sound t raw pid = record {
    past = omega arith;
    olds = tt;
    read_rate = inl refl;
    write_rate = inl refl;
  }

  Answered-Yields : (t : ℕ) (r : Reply Usage) → Answered t r → Yields r
  Answered-Yields t (ok u, g, p) a = a.1
  Answered-Yields t (throw e, g, p) a = tt

  -- In a program with one object, just constructed over empty static data, after any sequence of calls
  -- of its public member functions, with the files different at each, a usage of files that one of
  -- the three getters returns is 0 or made of rates over a positive time, as long as the clock does not run backwards: it is never
  -- divided by zero, and no time is negative.
  pub usage-Yields :
      (t : ℕ) (raw : ProcessInfo) (pid : ℤ) (os : Os) {s : Session}
      → Reach (begun t raw pid) s
      → s.clock ≤ os.now
      → Yields (io_read_usage boost os s.statics s.object)
        × Yields (io_write_usage boost os s.statics s.object)
        × Yields (io_total_usage boost os s.statics s.object)
  usage-Yields t raw pid os {s} r le =
      let sound = Reach-Sound r (begun-Sound t raw pid) in
      (
        Answered-Yields os.now (io_read_usage boost os s.statics s.object)
            (io_read_usage-Answered boost os s.clock s.statics s.object le sound),
        Answered-Yields os.now (io_write_usage boost os s.statics s.object)
            (io_write_usage-Answered boost os s.clock s.statics s.object le sound),
        Answered-Yields os.now (io_total_usage boost os s.statics s.object)
            (io_total_usage-Answered boost os s.clock s.statics s.object le sound),
      )
