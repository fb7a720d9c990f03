-- ===== src/ProcessInfo/Usage/Total.antt =====
-- What the getters of usages return after needUpdate.
use mathlib.Core.Path.{subst}
use libsysinfo.Boost.{Boost}
use libsysinfo.Prelude.{
  ℕ, ◌-◌, ◌^◌, ◌≤◌, ◌<◌, ◌==◌, arith, pos, Bool-cases, inl, inr, ◌≡◌, refl, sym, ap, ◌∙◌, true,
  false, Option, none, some, if◌then◌else◌, ok, throw, throw-ne-ok, ok-injective,
}
use libsysinfo.ProcessInfo.Getters.{pid}
use libsysinfo.ProcessInfo.Io.{read_bytes, write_bytes}
use libsysinfo.ProcessInfo.Life.{need_update}
use libsysinfo.ProcessInfo.State.{Os, ProcessInfo, IoStat, Usage, zero_usage, per_second, sum}
use libsysinfo.ProcessInfo.Usage.OldState.{
  find_oldstate_self, Synced, io_getter-read, update_io_done, io_rate_zero,
}
use libsysinfo.ProcessInfo.Usage.{
  Statics, find_oldstate, Reply, minus, sub_u64, io_rate, io_read_delta, io_write_delta,
  behind_read, update_io_read_usage, update_io_write_usage, reply_read, reply_write, io_read_usage,
  io_write_usage, io_total_usage, then_write, add_usage,
}

-- the write side, in a synced state
write-Synced :
    (boost : Boost) (os : Os) (g : Statics) (p : ProcessInfo)
    → (s : Synced g p) → p.need_update.io_write_usage ≡ true
    → (io_write_usage boost os g p).0 ≡ ok zero_usage
unfolding io_write_usage update_io_write_usage write_bytes io_write_delta
write-Synced boost os g p s flag =
    ap
      (λ b.
        (if b
          then reply_write (update_io_write_usage boost os g p)
          else (ok p.io_write_usage, g, p)).0)
      flag
    ∙ ap (λ r. (reply_write (behind_read io_write_delta g r)).0)
        (update_io_done (λ io. io.write_bytes) boost os p s.io_read)
    ∙ ap (λ (o : Option ProcessInfo). ok (io_write_delta p.io.write_bytes o g p).1.io_write_usage)
        s.found
    ∙ ap
        (λ (io : IoStat).
          ok (io_rate p.io.write_bytes io.write_bytes (minus p.io.last_read io.last_read)))
        s.same_io
    ∙ ap ok (io_rate_zero p.io.write_bytes p.io.write_bytes p.io.last_read)

-- what the read side leaves
abbrev pub after_read : ℕ → Statics → ProcessInfo → Reply Usage
after_read n g q = reply_read (behind_read io_read_delta g (ok n, q))

pub io_read_usage-after_read :
    (boost : Boost) (os : Os) (g : Statics) (p : ProcessInfo) {n : ℕ} {q : ProcessInfo}
    → read_bytes boost os (need_update p) ≡ (ok n, q)
    → io_read_usage boost os g (need_update p) ≡ after_read n g q
unfolding io_read_usage update_io_read_usage need_update
io_read_usage-after_read boost os g p h = ap (λ r. reply_read (behind_read io_read_delta g r)) h

-- the read side leaves the flags but its own, the pid and the counters
record Leaves (q : ProcessInfo) (r : Reply Usage) : Type 0 where
  same_pid : pid r.2 ≡ pid q
  same_io : r.2.io ≡ q.io
  write_flag : r.2.need_update.io_write_usage ≡ q.need_update.io_write_usage
  returns : r.0 ≡ ok r.2.io_read_usage
  synced : Synced r.1 r.2

after_read-Leaves :
    (n : ℕ) (g : Statics) (q : ProcessInfo) (o : Option ProcessInfo)
    → q.need_update.io ≡ false
    → Leaves q (reply_read (ok tt, (io_read_delta n o g q).0, (io_read_delta n o g q).1))
unfolding io_read_delta pid
after_read-Leaves n g q none flag = record {
  same_pid = refl;
  same_io = refl;
  write_flag = refl;
  returns = refl;
  synced = record {
    old = q;
    found = find_oldstate_self _ q g.map_pid_oldstate;
    same_io = refl;
    io_read = flag;
  };
}
after_read-Leaves n g q (some old) flag = record {
  same_pid = refl;
  same_io = refl;
  write_flag = refl;
  returns = refl;
  synced = record {
    old = record old { io = q.io };
    found = find_oldstate_self _ (record old { io = q.io }) g.map_pid_oldstate;
    same_io = refl;
    io_read = flag;
  };
}

add_usage-ok :
    (u : Usage) (r : Reply Usage) (v : Usage) → r.0 ≡ ok v → (add_usage u r).0 ≡ ok (sum u v)
add_usage-ok u (ok w, g, p) v h = ap (λ x. ok (sum u x)) (ok-injective h)
add_usage-ok u (throw e, g, p) v h = absurd (throw-ne-ok h)

after_read_lem :
    (n : ℕ) (g : Statics) (q : ProcessInfo) → q.need_update.io ≡ false → Leaves q (after_read n g q)
after_read_lem n g q flag = after_read-Leaves n g q (find_oldstate (pid q) g.map_pid_oldstate) flag

total-Leaves :
    (boost : Boost) (os : Os) (q : ProcessInfo) (r : Reply Usage)
    → Leaves q r
    → q.need_update.io_write_usage ≡ true
    → (then_write boost os r).0 ≡ ok (sum r.2.io_read_usage zero_usage)
total-Leaves boost os q (r, g, p) l flag =
    ap (λ t. (then_write boost os (t, g, p)).0) l.returns
    ∙ add_usage-ok p.io_read_usage (io_write_usage boost os g p) zero_usage
        (write-Synced boost os g p l.synced (l.write_flag ∙ flag))

-- Right after needUpdate, and if the counters can be read, ioTotalUsage is what ioReadUsage returns
-- plus 0, whatever the old states are: the bytes that the process writes do not count.
pub io_total_usage-eq :
    (boost : Boost) (os : Os) (g : Statics) (p : ProcessInfo) {n : ℕ} {q : ProcessInfo}
    → read_bytes boost os (need_update p) ≡ (ok n, q)
    → (u : Usage) × ((io_read_usage boost os g (need_update p)).0 ≡ ok u)
      × ((io_total_usage boost os g (need_update p)).0 ≡ ok (sum u zero_usage))
unfolding io_total_usage read_bytes need_update
io_total_usage-eq boost os g p {n} {q} h =
    let (io, same, value, time) =
      io_getter-read (λ io. io.read_bytes) boost os (need_update p) refl h in
    let l = after_read_lem n g q (ap (λ (x : ProcessInfo). x.need_update.io) same) in
    let first = io_read_usage-after_read boost os g p h in
    (
      (after_read n g q).2.io_read_usage,
      ap (λ (r : Reply Usage). r.0) first ∙ l.returns,
      ap (λ (r : Reply Usage). (then_write boost os r).0) first
          ∙ total-Leaves boost os q (after_read n g q) l
              (ap (λ (x : ProcessInfo). x.need_update.io_write_usage) same),
    )

-- what the second read finds
second_read :
    (n : ℕ) (g : Statics) (q : ProcessInfo) (o : Option ProcessInfo) {old : ProcessInfo}
    → o ≡ some old
    → (reply_read (ok tt, (io_read_delta n o g q).0, (io_read_delta n o g q).1)).0
      ≡ ok (io_rate n old.io.read_bytes (minus q.io.last_read old.io.last_read))
unfolding io_read_delta
second_read n g q o {old} h =
    ap (λ x. (reply_read (ok tt, (io_read_delta n x g q).0, (io_read_delta n x g q).1)).0) h

-- the read usage in a synced state
second_usage :
    (boost : Boost) (os : Os) (g : Statics) (p : ProcessInfo) {n : ℕ} {q : ProcessInfo}
    → Synced g p
    → read_bytes boost os (need_update p) ≡ (ok n, q)
    → (io_read_usage boost os g (need_update p)).0
      ≡ ok (io_rate n p.io.read_bytes (minus os.now p.io.last_read))
unfolding read_bytes need_update pid
second_usage boost os g p {n} {q} s h =
    let (io, same, value, time) =
      io_getter-read (λ io. io.read_bytes) boost os (need_update p) refl h in
    ap (λ (r : Reply Usage). r.0) (io_read_usage-after_read boost os g p h)
    ∙ second_read n g q (find_oldstate (pid q) g.map_pid_oldstate)
        (ap (λ (x : ProcessInfo). find_oldstate (pid x) g.map_pid_oldstate) same ∙ s.found)
    ∙ ap (λ (x : IoStat). ok (io_rate n x.read_bytes (minus q.io.last_read x.last_read))) s.same_io
    ∙ ap (λ t. ok (io_rate n p.io.read_bytes (minus t p.io.last_read)))
        (ap (λ (x : ProcessInfo). x.io.last_read) same ∙ time)

-- the second usage in terms of the two reads
usage_between :
    (boost : Boost) (os1 os2 : Os) (g : Statics) (p : ProcessInfo) {n1 n2 : ℕ} {q1 q2 : ProcessInfo}
    → read_bytes boost os1 (need_update p) ≡ (ok n1, q1)
    → read_bytes boost os2 (need_update (io_read_usage boost os1 g (need_update p)).2) ≡ (ok n2, q2)
    → (io_read_usage boost os2
        (io_read_usage boost os1 g (need_update p)).1
        (need_update (io_read_usage boost os1 g (need_update p)).2)).0
      ≡ ok (io_rate n2 n1 (minus os2.now os1.now))
unfolding read_bytes need_update
usage_between boost os1 os2 g p {n1} {n2} {q1} {q2} h1 h2 =
    let (io, same, value, time) =
      io_getter-read (λ io. io.read_bytes) boost os1 (need_update p) refl h1 in
    let l : Leaves q1 (io_read_usage boost os1 g (need_update p)) =
      subst (Leaves q1) (sym (io_read_usage-after_read boost os1 g p h1))
        (after_read_lem n1 g q1 (ap (λ (x : ProcessInfo). x.need_update.io) same)) in
    let counters : (io_read_usage boost os1 g (need_update p)).2.io ≡ io =
      l.same_io ∙ ap (λ (x : ProcessInfo). x.io) same in
    second_usage boost os2 (io_read_usage boost os1 g (need_update p)).1
      (io_read_usage boost os1 g (need_update p)).2 l.synced h2
    ∙ ap (λ (x : IoStat). ok (io_rate n2 x.read_bytes (minus os2.now x.last_read))) counters
    ∙ ap (λ b. ok (io_rate n2 b (minus os2.now io.last_read))) (sym value)
    ∙ ap (λ t. ok (io_rate n2 n1 (minus os2.now t))) time

-- the bytes over a time that has passed
io_rate-forward :
    (n1 n2 t1 t2 : ℕ)
    → n1 ≤ n2
    → n2 < 2 ^ 64
    → t1 ≤ t2
    → io_rate n2 n1 (minus t2 t1)
      ≡ (if t2 == t1 then zero_usage else per_second (n2 - n1) (pos (t2 - t1)))
io_rate-forward n1 n2 t1 t2 h k le =
    let time : minus t2 t1 ≡ pos (t2 - t1) = ground arith in
    let bytes : sub_u64 n2 n1 ≡ n2 - n1 = omega (arith, h, k) in
    elim (Bool-cases (t2 == t1)) [
      | inl e ↦ rw (e, time) (ground (arith, e))
      | inr e ↦ rw (e, time) (rw bytes (ground (arith, e)))
    ]

-- Two refreshes in a row that can both read the counters, with no other usage computed between
-- them, on a clock and counters that do not run backwards: if some time has passed between the two
-- reads, the second returns the bytes read since the first over that time, and else 0, whatever
-- was known of the pid before.
pub io_read_usage_twice :
    (boost : Boost) (os1 os2 : Os) (g : Statics) (p : ProcessInfo) {n1 n2 : ℕ} {q1 q2 : ProcessInfo}
    → read_bytes boost os1 (need_update p) ≡ (ok n1, q1)
    → read_bytes boost os2 (need_update (io_read_usage boost os1 g (need_update p)).2) ≡ (ok n2, q2)
    → n1 ≤ n2
    → n2 < 2 ^ 64
    → os1.now ≤ os2.now
    → (io_read_usage boost os2
        (io_read_usage boost os1 g (need_update p)).1
        (need_update (io_read_usage boost os1 g (need_update p)).2)).0
      ≡ ok (
          if os2.now == os1.now then zero_usage else per_second (n2 - n1) (pos (os2.now - os1.now)))
io_read_usage_twice boost os1 os2 g p {n1} {n2} h1 h2 more small le =
    usage_between boost os1 os2 g p h1 h2
    ∙ ap ok (io_rate-forward n1 n2 os1.now os2.now more small le)
