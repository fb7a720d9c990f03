-- ===== src/ProcessInfo/Usage/OldState.antt =====
-- map_pid_oldstate as a map, and what the usage of files leaves in it.
use libsysinfo.Boost.{Boost}
use libsysinfo.Prelude.{
  ◌≤◌, All, Bool-cases, Option, none, ℕ, ◌≡◌, ◌↔◌, refl, sym, ap, ◌∙◌, true, false, List, [], ◌∷◌,
  ◌++◌, some, arith, if◌then◌else◌, inl, inr, ℤ, pos, negsuc, eqb_ℤ, Result, ok, throw,
  Result-cases, throw-ne-ok, ok-injective,
}
use libsysinfo.ProcessInfo.Getters.{pid}
use libsysinfo.ProcessInfo.Io.{
  set_io, read_io_line, read_io_lines, read_io, update_io, clear_io, value_of, lines_of,
}
use libsysinfo.ProcessInfo.State.{Os, ProcessInfo, IoStat, zero_usage}
use libsysinfo.ProcessInfo.Usage.{Statics, find_oldstate, set_oldstate, minus, io_rate}
use libsysinfo.Text.{Bytes, codes}

pub eqb_ℤ_iff : (a b : ℤ) → (eqb_ℤ a b ≡ true) ↔ (a ≡ b)
eqb_ℤ_iff (pos a) (pos b) = ground arith
eqb_ℤ_iff (pos a) (negsuc b) = ground arith
eqb_ℤ_iff (negsuc a) (pos b) = ground arith
eqb_ℤ_iff (negsuc a) (negsuc b) = ground arith

-- The map holds one state for each pid: the last that was set.
pub find_oldstate-set_oldstate :
    (j k : ℤ) (p : ProcessInfo) (m : List (ℤ × ProcessInfo))
    → find_oldstate j (set_oldstate k p m) ≡ (if eqb_ℤ k j then some p else find_oldstate j m)
unfolding find_oldstate set_oldstate
find_oldstate-set_oldstate j k p [] = refl
find_oldstate-set_oldstate j k p ((i, old) ∷ m) =
    ground (arith, eqb_ℤ_iff i k, eqb_ℤ_iff i j, eqb_ℤ_iff k j, find_oldstate-set_oldstate j k p m)

pub find_oldstate_self :
    (k : ℤ) (p : ProcessInfo) (m : List (ℤ × ProcessInfo))
    → find_oldstate k (set_oldstate k p m) ≡ some p
find_oldstate_self k p m = find_oldstate-set_oldstate k k p m ∙ rw ((eqb_ℤ_iff k k).1 refl)

set_io-last_read :
    (key v : Bytes) (io next : IoStat) → set_io key v io ≡ ok next → next.last_read ≡ io.last_read
unfolding set_io
set_io-last_read key v io next h = ground arith

pub read_io_lines-last_read :
    (boost : Boost) (ls : List Bytes) (io : IoStat)
    → (read_io_lines boost ls io).1.last_read ≡ io.last_read
unfolding read_io_lines read_io_line
read_io_lines-last_read boost [] io = refl
read_io_lines-last_read boost (l ∷ ls) io = elim (Result-cases (read_io_line boost l io)) [
  | inl (next, e) ↦
      rw (e, read_io_lines) (read_io_lines-last_read boost ls next ∙ set_io-last_read _ _ io next e)
  | inr (x, e) ↦ rw (e, read_io_lines) refl
]

abbrev pub with_io : ProcessInfo → IoStat → ProcessInfo
with_io p io = record p { io = io; need_update = record p.need_update { io = false } }

clear_io-read :
    (view : IoStat → ℕ) (p : ProcessInfo) (r : Result (Unit {0})) (io : IoStat) {n : ℕ}
    {q : ProcessInfo}
    → value_of view (clear_io (r, record p { io = io })) ≡ (ok n, q)
    → (q ≡ with_io p io) × (n ≡ view io)
clear_io-read view p (ok t) io h = (sym (ap (λ x. x.1) h), sym (ok-injective (ap (λ x. x.0) h)))
clear_io-read view p (throw e) io h = absurd (throw-ne-ok (ap (λ x. x.0) h))

update_io_due :
    (boost : Boost) (os : Os) (p : ProcessInfo)
    → p.need_update.io ≡ true
    → update_io boost os p ≡ clear_io (read_io boost os p)
unfolding update_io
update_io_due boost os p flag =
    ap (λ b. if b then clear_io (read_io boost os p) else (ok tt, p)) flag

-- What a getter of a counter leaves when it reads the file.
pub io_getter-read :
    (view : IoStat → ℕ) (boost : Boost) (os : Os) (p : ProcessInfo) {n : ℕ} {q : ProcessInfo}
    → p.need_update.io ≡ true
    → value_of view (update_io boost os p) ≡ (ok n, q)
    → (io : IoStat) × (q ≡ with_io p io) × (n ≡ view io) × (io.last_read ≡ os.now)
unfolding read_io
io_getter-read view boost os p flag h =
    let text = lines_of (os.open_file (p.proc_path ++ codes "io")) in
    let old = record p.io { last_read = os.now } in
    let (same, value) =
      clear_io-read view p _ _ (sym (ap (value_of view) (update_io_due boost os p flag)) ∙ h) in
    (_, same, value, read_io_lines-last_read boost text old)

pub update_io_done :
    (view : IoStat → ℕ) (boost : Boost) (os : Os) (p : ProcessInfo)
    → p.need_update.io ≡ false
    → value_of view (update_io boost os p) ≡ (ok (view p.io), p)
unfolding update_io
update_io_done view boost os p flag =
    ap (λ b. value_of view (if b then clear_io (read_io boost os p) else (ok tt, p))) flag

-- What the object and the map have in common right after a usage was computed: the state that is
-- kept for the process has its counters and their time, and they are not read again.
pub record Synced (g : Statics) (p : ProcessInfo) : Type 0 where
  pub old : ProcessInfo
  pub found : find_oldstate (pid p) g.map_pid_oldstate ≡ some old
  pub same_io : old.io ≡ p.io
  pub io_read : p.need_update.io ≡ false

-- no time has passed between two reads that are one
pub io_rate_zero : (a b t : ℕ) → io_rate a b (minus t t) ≡ zero_usage
io_rate_zero a b t = ground arith

-- The old states of the map were read at `t` or before.
abbrev pub Bounded : ℕ → List (ℤ × ProcessInfo) → Type 0
Bounded t = All (λ (e : ℤ × ProcessInfo). e.1.io.last_read ≤ t)

abbrev pub Before : ℕ → Option ProcessInfo → Type 0
Before t none = Unit
Before t (some old) = old.io.last_read ≤ t

pub Bounded-mono : (t u : ℕ) (m : List (ℤ × ProcessInfo)) → t ≤ u → Bounded t m → Bounded u m
Bounded-mono t u [] h b = tt
Bounded-mono t u (e ∷ m) h b = (omega (arith, b.0), Bounded-mono t u m h b.1)

pub find_oldstate-Before :
    (t : ℕ) (k : ℤ) (m : List (ℤ × ProcessInfo)) → Bounded t m → Before t (find_oldstate k m)
unfolding find_oldstate
find_oldstate-Before t k [] b = tt
find_oldstate-Before t k ((j, old) ∷ m) b = elim (Bool-cases (eqb_ℤ j k)) [
  | inl e ↦ rw e b.0
  | inr e ↦ rw e (find_oldstate-Before t k m b.1)
]

pub set_oldstate-Bounded :
    (t : ℕ) (k : ℤ) (p : ProcessInfo) (m : List (ℤ × ProcessInfo))
    → p.io.last_read ≤ t
    → Bounded t m
    → Bounded t (set_oldstate k p m)
unfolding set_oldstate
set_oldstate-Bounded t k p [] h b = (h, tt)
set_oldstate-Bounded t k p ((j, old) ∷ m) h b = elim (Bool-cases (eqb_ℤ j k)) [
  | inl e ↦ rw e (h, b.1)
  | inr e ↦ rw e (b.0, set_oldstate-Bounded t k p m h b.1)
]
