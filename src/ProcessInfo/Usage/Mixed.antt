-- ===== src/ProcessInfo/Usage/Mixed.antt =====
-- cpuUsage behind ioReadUsage: both keep their old values in one state for each pid.
use mathlib.Core.Path.{subst}
use libsysinfo.Boost.{Boost}
use libsysinfo.Prelude.{ℕ, ◌≡◌, refl, sym, ap, ◌∙◌, true, Option, none, some, ℤ, ok}
use libsysinfo.ProcessInfo.Getters.{pid}
use libsysinfo.ProcessInfo.Io.{read_bytes}
use libsysinfo.ProcessInfo.Life.{need_update}
use libsysinfo.ProcessInfo.State.{Os, ProcessInfo, Usage}
use libsysinfo.ProcessInfo.Usage.Cpu.Rate.{
  sampled, process_time, system_time, second_measure, cpu_usage-after_measure,
}
use libsysinfo.ProcessInfo.Usage.Cpu.{Locals, cpu_rate, nb_core_of, cpu_usage}
use libsysinfo.ProcessInfo.Usage.OldState.{find_oldstate_self, io_getter-read}
use libsysinfo.ProcessInfo.Usage.Total.{io_read_usage-after_read}
use libsysinfo.ProcessInfo.Usage.{
  Statics, find_oldstate, Reply, reply_read, io_read_delta, sub_u64, io_read_usage,
}

-- what ioReadUsage leaves for a pid that had no state: the object as it was copied
record Copied (g : Statics) (p : ProcessInfo) (r : Reply Usage) : Type 0 where
  copy : ProcessInfo
  found : find_oldstate (pid p) r.1.map_pid_oldstate ≡ some copy
  same_cpu : copy.last_cpu_total_time ≡ p.last_cpu_total_time
  same_process : copy.last_process_total_time ≡ p.last_process_total_time
  same_cores : r.1.nb_core ≡ g.nb_core
  same_flag : r.2.need_update.cpu_usage ≡ true

none-Copied :
    (n : ℕ) (g : Statics) (p q : ProcessInfo)
    → pid q ≡ pid p
    → q.last_cpu_total_time ≡ p.last_cpu_total_time
    → q.last_process_total_time ≡ p.last_process_total_time
    → q.need_update.cpu_usage ≡ true
    → Copied g p (reply_read (ok tt, (io_read_delta n none g q).0, (io_read_delta n none g q).1))
unfolding io_read_delta
none-Copied n g p q same_pid cpu proc flag = record {
  copy = q;
  found =
      ap (λ k. find_oldstate k (io_read_delta n none g q).0.map_pid_oldstate) (sym same_pid)
      ∙ find_oldstate_self (pid q) q g.map_pid_oldstate;
  same_cpu = cpu;
  same_process = proc;
  same_cores = refl;
  same_flag = flag;
}

io_read_usage-Copied :
    (boost : Boost) (os : Os) (g : Statics) (p : ProcessInfo) {n : ℕ} {q : ProcessInfo}
    → read_bytes boost os (need_update p) ≡ (ok n, q)
    → find_oldstate (pid p) g.map_pid_oldstate ≡ none
    → Copied g p (io_read_usage boost os g (need_update p))
unfolding read_bytes need_update pid
io_read_usage-Copied boost os g p {n} {q} h fresh =
    let (io, same, value, time) =
      io_getter-read (λ io. io.read_bytes) boost os (need_update p) refl h in
    subst (Copied g p)
      (sym (
        io_read_usage-after_read boost os g p h
        ∙ ap
            (λ (o : Option ProcessInfo).
              reply_read (ok tt, (io_read_delta n o g q).0, (io_read_delta n o g q).1))
            (ap (λ (x : ProcessInfo). find_oldstate (pid x) g.map_pid_oldstate) same ∙ fresh)))
      (none-Copied n g p q (ap pid same) (ap (λ (x : ProcessInfo). x.last_cpu_total_time) same)
        (ap (λ (x : ProcessInfo). x.last_process_total_time) same)
        (ap (λ (x : ProcessInfo). x.need_update.cpu_usage) same))

-- cpuUsage behind a refreshed ioReadUsage of the same process that could read the counters, where
-- no state was kept for the pid and the number of cores is known: the copy that ioReadUsage kept
-- is found, and the rate is taken over the two times that the object held before, though no usage
-- of the processor was computed.
pub cpu_usage_behind_io :
    (boost : Boost) (l : Locals) (os1 os2 : Os) (g : Statics) (p : ProcessInfo) {nb n : ℕ}
    {q : ProcessInfo}
    → read_bytes boost os1 (need_update p) ≡ (ok n, q)
    → find_oldstate (pid p) g.map_pid_oldstate ≡ none
    → nb_core_of boost os2 g.nb_core ≡ ok nb
    → pid (sampled os2 (io_read_usage boost os1 g (need_update p)).2) ≡ pid p
    → (cpu_usage boost l os2
        (io_read_usage boost os1 g (need_update p)).1
        (io_read_usage boost os1 g (need_update p)).2).0
      ≡ ok (
          cpu_rate nb
            (sub_u64
              (process_time os2 (io_read_usage boost os1 g (need_update p)).2)
              p.last_process_total_time)
            (sub_u64 (system_time l os2) p.last_cpu_total_time))
cpu_usage_behind_io boost l os1 os2 g p {nb} h fresh cores same_pid =
    let r = io_read_usage boost os1 g (need_update p) in
    let c = io_read_usage-Copied boost os1 g p h fresh in
    let proc = process_time os2 r.2 in
    let cpu = system_time l os2 in
    ap (λ (x : Reply ℤ). x.0)
      (cpu_usage-after_measure boost l os2 r.1 r.2 c.same_flag
        (ap (nb_core_of boost os2) c.same_cores ∙ cores))
    ∙ second_measure nb cpu proc r.1 (sampled os2 r.2) _
        (ap (λ k. find_oldstate k r.1.map_pid_oldstate) same_pid ∙ c.found)
    ∙ ap (λ t. ok (cpu_rate nb (sub_u64 proc t) (sub_u64 cpu c.copy.last_cpu_total_time)))
        c.same_process
    ∙ ap (λ t. ok (cpu_rate nb (sub_u64 proc p.last_process_total_time) (sub_u64 cpu t))) c.same_cpu
