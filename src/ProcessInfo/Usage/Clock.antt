-- ===== src/ProcessInfo/Usage/Clock.antt =====
-- What the getters of the usages keep on a clock that does not run backwards.
pub mod Session
pub mod Cpu
pub mod Others
use libsysinfo.Boost.{Boost}
use libsysinfo.Prelude.{
  ℕ, ◌-◌, ◌≤◌, ◌<◌, ◌≡◌, refl, sym, ap, ◌∙◌, ◌⊎◌, inl, inr, Bool, true, false, Bool-cases, List, [],
  ◌∷◌, ◌++◌, All, Option, none, some, arith, leb, if◌then◌else◌, ℤ, pos, negsuc, eqb_ℤ, Result, ok,
  throw, Result-cases,
}
use libsysinfo.ProcessInfo.Getters.{pid, update_stat}
use libsysinfo.ProcessInfo.Io.{
  Effect, read_io_lines, read_io, update_io, clear_io, value_of, lines_of, read_bytes, write_bytes,
}
use libsysinfo.ProcessInfo.Life.{need_update, process_info}
use libsysinfo.ProcessInfo.State.{Os, ProcessInfo, IoStat, Usage, zero_usage, per_second, sum}
use libsysinfo.ProcessInfo.Usage.OldState.{
  Bounded, Before, Bounded-mono, find_oldstate-Before, set_oldstate-Bounded,
  read_io_lines-last_read,
}
use libsysinfo.ProcessInfo.Usage.{
  Statics, find_oldstate, set_oldstate, Outcome, minus, io_rate, io_read_delta, io_write_delta,
  behind_read, update_io_read_usage, update_io_write_usage, Reply, reply_read, reply_write,
  io_read_usage, io_write_usage, add_usage, then_write, io_total_usage,
}
use libsysinfo.Text.{codes}

-- Each rate is over a positive time.
abbrev pub IsRate : Usage → Type 0
IsRate zero_usage = Unit
IsRate (per_second b t) = (n : ℕ) × (t ≡ pos n) × (0 < n)
IsRate (sum u v) = IsRate u × IsRate v

io_rate-IsRate : (a b now old : ℕ) → old ≤ now → IsRate (io_rate a b (minus now old))
io_rate-IsRate a b now old h =
    let later : minus now old ≡ pos (now - old) = ground arith in
    elim (Bool-cases (eqb_ℤ (minus now old) (pos 0))) [
      | inl e ↦ rw e tt
      | inr e ↦ rw e (now - old, later, ground (arith, e))
    ]

-- A usage that is not due is a rate.
abbrev pub Rated : Bool → Usage → Type 0
Rated due u = (due ≡ true) ⊎ IsRate u

-- No old state is younger than the counters of the object, and these were not read in the future.
pub record Timely (t : ℕ) (g : Statics) (p : ProcessInfo) : Type 0 where
  pub past : p.io.last_read ≤ t
  pub olds : Bounded p.io.last_read g.map_pid_oldstate
  pub read_rate : Rated p.need_update.io_read_usage p.io_read_usage
  pub write_rate : Rated p.need_update.io_write_usage p.io_write_usage

pub Timely-mono : (t u : ℕ) (g : Statics) (p : ProcessInfo) → t ≤ u → Timely t g p → Timely u g p
Timely-mono t u g p h s = record {
  past = omega (arith, s.past);
  olds = s.olds;
  read_rate = s.read_rate;
  write_rate = s.write_rate;
}

-- a read of the counters
clear_io-Timely :
    (view : IoStat → ℕ) (t : ℕ) (g : Statics) (p : ProcessInfo) (r : Result (Unit {0}))
    (io : IoStat) (now : ℕ)
    → t ≤ now
    → Timely t g p
    → io.last_read ≡ now
    → Timely now g (value_of view (clear_io (r, record p { io = io }))).1
clear_io-Timely view t g p (ok x) io now h s e = record {
  past = omega (arith, e);
  olds =
      Bounded-mono p.io.last_read io.last_read g.map_pid_oldstate (omega (arith, s.past, e)) s.olds;
  read_rate = s.read_rate;
  write_rate = s.write_rate;
}
clear_io-Timely view t g p (throw x) io now h s e = record {
  past = omega (arith, e);
  olds =
      Bounded-mono p.io.last_read io.last_read g.map_pid_oldstate (omega (arith, s.past, e)) s.olds;
  read_rate = s.read_rate;
  write_rate = s.write_rate;
}

pub either_branch :
    {A : Type 0} (P : A → Type 0) (b : Bool) (x y : A) → P x → P y → P (if b then x else y)
either_branch P true x y h k = h
either_branch P false x y h k = k

pub counter-Timely :
    (view : IoStat → ℕ) (boost : Boost) (os : Os) (t : ℕ) (g : Statics) (p : ProcessInfo)
    → t ≤ os.now
    → Timely t g p
    → Timely os.now g (value_of view (update_io boost os p)).1
unfolding update_io read_io
counter-Timely view boost os t g p h s =
    let text = lines_of (os.open_file (p.proc_path ++ codes "io")) in
    let start = record p.io { last_read = os.now } in
    either_branch (λ e. Timely os.now g (value_of view e).1) p.need_update.io
      (clear_io (read_io boost os p)) (ok tt, p)
      (clear_io-Timely view t g p (read_io_lines boost text start).0
        (read_io_lines boost text start).1 os.now h s (read_io_lines-last_read boost text start))
      (Timely-mono t os.now g p h s)

-- What a computation of a usage leaves, with the usage that `view` takes from the object.
abbrev Left : (ProcessInfo → Usage) → ℕ → Outcome → Type 0
Left view t (ok x, g, p) = Timely t g p × IsRate (view p)
Left view t (throw e, g, p) = Timely t g p

abbrev Delta : Type 0
Delta = ℕ → Option ProcessInfo → Statics → ProcessInfo → Statics × ProcessInfo

-- What the part behind a read does.
abbrev IsSound : (ProcessInfo → Usage) → Delta → Type 0
IsSound view delta =
    (bytes t : ℕ) (o : Option ProcessInfo) (g : Statics) (p : ProcessInfo)
    → Timely t g p
    → Before p.io.last_read o
    → Timely t (delta bytes o g p).0 (delta bytes o g p).1 × IsRate (view (delta bytes o g p).1)

io_read_delta-IsSound : IsSound (λ p. p.io_read_usage) io_read_delta
unfolding io_read_delta
io_read_delta-IsSound bytes t none g p s h = (
  record {
    past = s.past;
    olds = set_oldstate-Bounded p.io.last_read (pid p) p g.map_pid_oldstate (omega arith) s.olds;
    read_rate = inr tt;
    write_rate = s.write_rate;
  },
  tt,
)
io_read_delta-IsSound bytes t (some old) g p s h =
    let rate = io_rate-IsRate bytes old.io.read_bytes p.io.last_read old.io.last_read h in
    (
      record {
        past = s.past;
        olds =
            set_oldstate-Bounded p.io.last_read (pid p) (record old { io = p.io })
              g.map_pid_oldstate (omega arith) s.olds;
        read_rate = inr rate;
        write_rate = s.write_rate;
      },
      rate,
    )

io_write_delta-IsSound : IsSound (λ p. p.io_write_usage) io_write_delta
unfolding io_write_delta
io_write_delta-IsSound bytes t none g p s h = (
  record {
    past = s.past;
    olds = set_oldstate-Bounded p.io.last_read (pid p) p g.map_pid_oldstate (omega arith) s.olds;
    read_rate = s.read_rate;
    write_rate = inr tt;
  },
  tt,
)
io_write_delta-IsSound bytes t (some old) g p s h =
    let rate = io_rate-IsRate bytes old.io.write_bytes p.io.last_read old.io.last_read h in
    (
      record {
        past = s.past;
        olds =
            set_oldstate-Bounded p.io.last_read (pid p) (record old { io = p.io })
              g.map_pid_oldstate (omega arith) s.olds;
        read_rate = s.read_rate;
        write_rate = inr rate;
      },
      rate,
    )

behind_read-Left :
    (view : ProcessInfo → Usage) (delta : Delta) (t : ℕ) (g : Statics) (r : Effect ℕ)
    → IsSound view delta
    → Timely t g r.1
    → Left view t (behind_read delta g r)
behind_read-Left view delta t g (throw e, p) sound s = s
behind_read-Left view delta t g (ok bytes, p) sound s =
    sound bytes t (find_oldstate (pid p) g.map_pid_oldstate) g p s
      (find_oldstate-Before p.io.last_read (pid p) g.map_pid_oldstate s.olds)

-- What a getter leaves: a usage that it returns is a rate.
abbrev pub Answered : ℕ → Reply Usage → Type 0
Answered t (ok u, g, p) = Timely t g p × IsRate u
Answered t (throw e, g, p) = Timely t g p

reply_read-Answered :
    (t : ℕ) (o : Outcome) → Left (λ p. p.io_read_usage) t o → Answered t (reply_read o)
reply_read-Answered t (throw e, g, p) s = s
reply_read-Answered t (ok x, g, p) (s, rate) =
    (record { past = s.past; olds = s.olds; read_rate = inr rate; write_rate = s.write_rate }, rate)

reply_write-Answered :
    (t : ℕ) (o : Outcome) → Left (λ p. p.io_write_usage) t o → Answered t (reply_write o)
reply_write-Answered t (throw e, g, p) s = s
reply_write-Answered t (ok x, g, p) (s, rate) =
    (record { past = s.past; olds = s.olds; read_rate = s.read_rate; write_rate = inr rate }, rate)

-- a usage that is not due is returned as it is
kept_or :
    (t : ℕ) (due : Bool) (u : Usage) (g : Statics) (p : ProcessInfo) (r : Reply Usage)
    → Rated due u
    → Timely t g p
    → Answered t r
    → Answered t (if due then r else (ok u, g, p))
kept_or t true u g p r h s k = k
kept_or t false u g p r (inl h) s k = absurd (cc)
kept_or t false u g p r (inr h) s k = (s, h)

pub io_read_usage-Answered :
    (boost : Boost) (os : Os) (t : ℕ) (g : Statics) (p : ProcessInfo)
    → t ≤ os.now
    → Timely t g p
    → Answered os.now (io_read_usage boost os g p)
unfolding io_read_usage update_io_read_usage read_bytes
io_read_usage-Answered boost os t g p h s =
    kept_or os.now p.need_update.io_read_usage p.io_read_usage g p
      (reply_read (update_io_read_usage boost os g p)) s.read_rate (Timely-mono t os.now g p h s)
      (reply_read-Answered os.now (update_io_read_usage boost os g p) (
        behind_read-Left (λ p. p.io_read_usage) io_read_delta os.now g (read_bytes boost os p)
          io_read_delta-IsSound (counter-Timely (λ io. io.read_bytes) boost os t g p h s)))

pub io_write_usage-Answered :
    (boost : Boost) (os : Os) (t : ℕ) (g : Statics) (p : ProcessInfo)
    → t ≤ os.now
    → Timely t g p
    → Answered os.now (io_write_usage boost os g p)
unfolding io_write_usage update_io_write_usage write_bytes
io_write_usage-Answered boost os t g p h s =
    kept_or os.now p.need_update.io_write_usage p.io_write_usage g p
      (reply_write (update_io_write_usage boost os g p)) s.write_rate (Timely-mono t os.now g p h s)
      (reply_write-Answered os.now (update_io_write_usage boost os g p) (
        behind_read-Left (λ p. p.io_write_usage) io_write_delta os.now g (write_bytes boost os p)
          io_write_delta-IsSound (counter-Timely (λ io. io.write_bytes) boost os t g p h s)))

add_usage-Answered :
    (t : ℕ) (u : Usage) (r : Reply Usage) → IsRate u → Answered t r → Answered t (add_usage u r)
add_usage-Answered t u (ok v, g, p) h (s, k) = (s, (h, k))
add_usage-Answered t u (throw e, g, p) h s = s

then_write-Answered :
    (boost : Boost) (os : Os) (r : Reply Usage)
    → Answered os.now r
    → Answered os.now (then_write boost os r)
then_write-Answered boost os (ok u, g, p) (s, h) =
    add_usage-Answered os.now u (io_write_usage boost os g p) h
      (io_write_usage-Answered boost os os.now g p (omega arith) s)
then_write-Answered boost os (throw e, g, p) s = s

pub io_total_usage-Answered :
    (boost : Boost) (os : Os) (t : ℕ) (g : Statics) (p : ProcessInfo)
    → t ≤ os.now
    → Timely t g p
    → Answered os.now (io_total_usage boost os g p)
unfolding io_total_usage
io_total_usage-Answered boost os t g p h s =
    then_write-Answered boost os (io_read_usage boost os g p)
      (io_read_usage-Answered boost os t g p h s)
