-- ===== src/ProcessInfo/Usage/Cpu/Rate.antt =====
-- What cpuUsage returns: its bounds, two calls in a row, and a first call behind ioReadUsage.
use mathlib.Core.Path.{subst}
use native.Mathlib.Nat.{mod-eq_of_lt}
use libsysinfo.Boost.{Boost}
use libsysinfo.Prelude.{
  ℕ, ◌+◌, ◌*◌, ◌/◌, ◌%◌, ◌^◌, ◌≤◌, ◌<◌, ◌≡◌, refl, sym, ap, ◌∙◌, true, false, Option, none, some,
  arith, if◌then◌else◌, ◌==◌, ℤ, pos, to_u64, to_int, Result, ok, throw,
}
use libsysinfo.ProcessInfo.Getters.{pid, utime, stime}
use libsysinfo.ProcessInfo.Life.{need_update}
use libsysinfo.ProcessInfo.Stat.{stream_of}
use libsysinfo.ProcessInfo.State.{Os, ProcessInfo}
use libsysinfo.ProcessInfo.Usage.Cpu.{
  Locals, cpu_total_time, cpu_rate, cpu_delta, nb_core_of, measure, update_cpu_usage, reply_cpu,
  cpu_usage,
}
use libsysinfo.ProcessInfo.Usage.OldState.{find_oldstate_self}
use libsysinfo.ProcessInfo.Usage.{Statics, find_oldstate, Outcome, Reply, sub_u64}
use libsysinfo.Text.{codes}

to_int-small : (n : ℕ) → n < 2 ^ 31 → to_int n ≡ pos n
unfolding to_int
to_int-small n h = ground arith

quotient_bound : (c dp dc : ℕ) → 0 < dc → dp ≤ dc → (c * dp) / dc ≤ c
quotient_bound c dp dc h k = grind arith

positive : (n : ℕ) → 0 < n → (n == 0) ≡ false
positive n h = ground arith

-- If some time has passed, the process has not run for longer than all processors together, and
-- neither 100 for each core nor the product overflows, the usage is the rounded percentage over
-- all cores, at most 100 for each core.
pub cpu_rate_bounds :
    (nb dp dc : ℕ)
    → 0 < dc
    → dp ≤ dc
    → 100 * nb < 2 ^ 31
    → 100 * nb * dp < 2 ^ 64
    → (cpu_rate nb dp dc ≡ pos (100 * nb * dp / dc)) × (100 * nb * dp / dc ≤ 100 * nb)
unfolding cpu_rate
cpu_rate_bounds nb dp dc h k fits nowrap =
    let bound = quotient_bound (100 * nb) dp dc h k in
    (
      ap (λ b. if b then pos 0 else to_int ((100 * nb * dp) % 2 ^ 64 / dc)) (positive dc h)
          ∙ ap (λ x. to_int (x / dc)) (mod-eq_of_lt nowrap)
          ∙ to_int-small (100 * nb * dp / dc) (omega arith),
      bound,
    )

-- The object with the times of the process read.
abbrev pub sampled : Os → ProcessInfo → ProcessInfo
sampled os p = (stime os (utime os p).1).1

-- utime() + stime()
abbrev pub process_time : Os → ProcessInfo → ℕ
process_time os p = (to_u64 (utime os p).0 + to_u64 (stime os (utime os p).1).0) % 2 ^ 64

abbrev pub system_time : Locals → Os → ℕ
system_time l os = cpu_total_time l (stream_of (os.open_file (codes "/proc/stat")))

abbrev pub after_measure : ℕ → ℕ → ℕ → Statics → ProcessInfo → Option ProcessInfo → Reply ℤ
after_measure nb cpu proc g q o =
    let d = cpu_delta nb cpu proc o (record g { nb_core = some nb }) q in
    reply_cpu (ok tt, d.0, d.1)

pub cpu_usage-after_measure :
    (boost : Boost) (l : Locals) (os : Os) (g : Statics) (p : ProcessInfo) {nb : ℕ}
    → p.need_update.cpu_usage ≡ true
    → nb_core_of boost os g.nb_core ≡ ok nb
    → cpu_usage boost l os g p
      ≡ after_measure nb
          (system_time l os)
          (process_time os p)
          g
          (sampled os p)
          (find_oldstate (pid (sampled os p)) g.map_pid_oldstate)
unfolding cpu_usage update_cpu_usage
cpu_usage-after_measure boost l os g p {nb} flag h =
    ap (λ b. if b then reply_cpu (update_cpu_usage boost l os g p) else (ok p.cpu_usage, g, p)) flag
    ∙ ap
        (λ (r : Result ℕ). reply_cpu (elim r as (λ _. Outcome) [
          | ok n ↦ let (g', p') = measure l os g p n in (ok tt, g', p')
          | throw e ↦ (throw e, g, p)
        ]))
        h

-- what the map holds behind a measurement
record Measured (nb cpu proc : ℕ) (q : ProcessInfo) (r : Reply ℤ) : Type 0 where
  old : ProcessInfo
  found : find_oldstate (pid q) r.1.map_pid_oldstate ≡ some old
  same_cpu : old.last_cpu_total_time ≡ cpu
  same_process : old.last_process_total_time ≡ proc
  same_cores : r.1.nb_core ≡ some nb

after_measure-Measured :
    (nb cpu proc : ℕ) (g : Statics) (q : ProcessInfo) (o : Option ProcessInfo)
    → Measured nb cpu proc q (after_measure nb cpu proc g q o)
unfolding cpu_delta pid
after_measure-Measured nb cpu proc g q none = record {
  old = record q { last_cpu_total_time = cpu; last_process_total_time = proc };
  found = find_oldstate_self _ _ g.map_pid_oldstate;
  same_cpu = refl;
  same_process = refl;
  same_cores = refl;
}
after_measure-Measured nb cpu proc g q (some old) = record {
  old = record old { last_cpu_total_time = cpu; last_process_total_time = proc };
  found = find_oldstate_self _ _ g.map_pid_oldstate;
  same_cpu = refl;
  same_process = refl;
  same_cores = refl;
}

pub second_measure :
    (nb cpu proc : ℕ) (g : Statics) (q : ProcessInfo) (o : Option ProcessInfo) {old : ProcessInfo}
    → o ≡ some old
    → (after_measure nb cpu proc g q o).0
      ≡ ok (
          cpu_rate nb
            (sub_u64 proc old.last_process_total_time)
            (sub_u64 cpu old.last_cpu_total_time))
unfolding cpu_delta
second_measure nb cpu proc g q o h = ap (λ x. (after_measure nb cpu proc g q x).0) h

-- Two refreshes in a row, for a known number of cores and with the same pid in both lines of
-- stat: the second call returns the rate of the processor time since the first over the system
-- time since the first, whatever was known of the pid before. The number of cores is the one of
-- the first call.
pub cpu_usage_twice :
    (boost : Boost) (l : Locals) (os1 os2 : Os) (g : Statics) (p : ProcessInfo) {nb : ℕ}
    → nb_core_of boost os1 g.nb_core ≡ ok nb
    → pid (sampled os2 (need_update (cpu_usage boost l os1 g (need_update p)).2))
      ≡ pid (sampled os1 (need_update p))
    → (cpu_usage boost l os2
        (cpu_usage boost l os1 g (need_update p)).1
        (need_update (cpu_usage boost l os1 g (need_update p)).2)).0
      ≡ ok (
          cpu_rate nb
            (sub_u64
              (process_time os2 (need_update (cpu_usage boost l os1 g (need_update p)).2))
              (process_time os1 (need_update p)))
            (sub_u64 (system_time l os2) (system_time l os1)))
unfolding need_update
cpu_usage_twice boost l os1 os2 g p {nb} cores same_pid =
    let q1 = sampled os1 (need_update p) in
    let first = cpu_usage boost l os1 g (need_update p) in
    let m : Measured nb (system_time l os1) (process_time os1 (need_update p)) q1 first =
      subst (Measured nb (system_time l os1) (process_time os1 (need_update p)) q1)
        (sym (cpu_usage-after_measure boost l os1 g (need_update p) refl cores))
        (after_measure-Measured nb _ _ g q1 (find_oldstate (pid q1) g.map_pid_oldstate)) in
    let p2 = need_update first.2 in
    ap (λ (r : Reply ℤ). r.0)
      (cpu_usage-after_measure boost l os2 first.1 p2 refl (ap (nb_core_of boost os2) m.same_cores))
    ∙ second_measure nb (system_time l os2) (process_time os2 p2) first.1 (sampled os2 p2) _
        (ap (λ k. find_oldstate k first.1.map_pid_oldstate) same_pid ∙ m.found)
    ∙ ap
        (λ t. ok (
          cpu_rate nb (sub_u64 (process_time os2 p2) t)
            (sub_u64 (system_time l os2) m.old.last_cpu_total_time)))
        m.same_process
    ∙ ap
        (λ t. ok (
          cpu_rate nb (sub_u64 (process_time os2 p2) (process_time os1 (need_update p)))
            (sub_u64 (system_time l os2) t)))
        m.same_cpu
