-- ===== src/ProcessInfo/Usage/Clock/Cpu.antt =====
-- What cpuUsage and the getters of stat keep.
use libsysinfo.Boost.{Boost}
use libsysinfo.Prelude.{ℕ, inl, inr, false, Option, none, some, arith, ok, Result-cases}
use libsysinfo.ProcessInfo.Getters.{pid, update_stat, utime, stime}
use libsysinfo.ProcessInfo.Stat.{read_stat}
use libsysinfo.ProcessInfo.State.{Os, ProcessInfo}
use libsysinfo.ProcessInfo.Usage.Clock.{either_branch, Timely}
use libsysinfo.ProcessInfo.Usage.Cpu.{
  Locals, cpu_delta, cpu_usage, update_cpu_usage, measure, nb_core_of, reply_cpu,
}
use libsysinfo.ProcessInfo.Usage.{Statics, find_oldstate, Reply}
use libsysinfo.ProcessInfo.Usage.OldState.{Before, find_oldstate-Before, set_oldstate-Bounded}

-- What a call leaves.
abbrev pub TimelyReply : {A : Type 0} → ℕ → Reply A → Type 0
TimelyReply t (r, g, p) = Timely t g p

module _ (boost : Boost) where
  pub update_stat-Timely :
      (t : ℕ) (g : Statics) (os : Os) (p : ProcessInfo)
      → Timely t g p
      → Timely t g (update_stat os p)
  unfolding update_stat read_stat
  update_stat-Timely t g os p s =
      either_branch (Timely t g) p.need_update.stat
        (record (read_stat os p) { need_update = record p.need_update { stat = false } }) p
        (record {
          past = s.past;
          olds = s.olds;
          read_rate = s.read_rate;
          write_rate = s.write_rate;
        })
        s

  cpu_delta-Timely :
      (n total process t : ℕ) (o : Option ProcessInfo) (g : Statics) (p : ProcessInfo)
      → Timely t g p
      → Before p.io.last_read o
      → Timely t (cpu_delta n total process o g p).0 (cpu_delta n total process o g p).1
  unfolding cpu_delta
  cpu_delta-Timely n total process t none g p s h = record {
    past = s.past;
    olds =
        set_oldstate-Bounded p.io.last_read (pid p)
          (record p { last_cpu_total_time = total; last_process_total_time = process })
          g.map_pid_oldstate (omega arith) s.olds;
    read_rate = s.read_rate;
    write_rate = s.write_rate;
  }
  cpu_delta-Timely n total process t (some old) g p s h = record {
    past = s.past;
    olds =
        set_oldstate-Bounded p.io.last_read (pid p)
          (record old { last_cpu_total_time = total; last_process_total_time = process })
          g.map_pid_oldstate h s.olds;
    read_rate = s.read_rate;
    write_rate = s.write_rate;
  }

  with_nb_core :
      (t n : ℕ) (g : Statics) (p : ProcessInfo)
      → Timely t g p
      → Timely t (record g { nb_core = some n }) p
  with_nb_core t n g p s = record {
    past = s.past;
    olds = s.olds;
    read_rate = s.read_rate;
    write_rate = s.write_rate;
  }

  measure-Timely :
      (l : Locals) (os : Os) (t n : ℕ) (g : Statics) (p : ProcessInfo)
      → Timely t g p
      → Timely t (measure l os g p n).0 (measure l os g p n).1
  unfolding utime stime
  measure-Timely l os t n g p s =
      let q = update_stat os (update_stat os p) in
      let s2 = update_stat-Timely t g os (update_stat os p) (update_stat-Timely t g os p s) in
      cpu_delta-Timely n _ _ t (find_oldstate (pid q) g.map_pid_oldstate)
        (record g { nb_core = some n }) q (with_nb_core t n g q s2)
        (find_oldstate-Before q.io.last_read (pid q) g.map_pid_oldstate s2.olds)

  update_cpu_usage-Timely :
      (l : Locals) (os : Os) (t : ℕ) (g : Statics) (p : ProcessInfo)
      → Timely t g p
      → TimelyReply t (reply_cpu (update_cpu_usage boost l os g p))
  unfolding update_cpu_usage
  update_cpu_usage-Timely l os t g p s = elim (Result-cases (nb_core_of boost os g.nb_core)) [
    | inl (n, e) ↦
        let m = measure-Timely l os t n g p s in
        rw (e, update_cpu_usage)
          (record {
            past = m.past;
            olds = m.olds;
            read_rate = m.read_rate;
            write_rate = m.write_rate;
          })
    | inr (x, e) ↦ rw (e, update_cpu_usage) s
  ]

  pub cpu_usage-Timely :
      (l : Locals) (os : Os) (t : ℕ) (g : Statics) (p : ProcessInfo)
      → Timely t g p
      → TimelyReply t (cpu_usage boost l os g p)
  unfolding cpu_usage
  cpu_usage-Timely l os t g p s =
      either_branch (TimelyReply t) p.need_update.cpu_usage
        (reply_cpu (update_cpu_usage boost l os g p)) (ok p.cpu_usage, g, p)
        (update_cpu_usage-Timely l os t g p s) s
