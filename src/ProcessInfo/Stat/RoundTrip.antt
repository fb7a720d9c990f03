-- ===== src/ProcessInfo/Stat/RoundTrip.antt =====
-- readStat on the line that the kernel writes to /proc/<pid>/stat.
use mathlib.Core.Path.{fun_ext}
use libsysinfo.Prelude.{
  ℕ, ◌≡◌, ◌≢◌, refl, sym, ap, ◌∙◌, Bool, true, false, not, ◌||◌, List, [], ◌∷◌, ◌++◌, append_assoc,
  append-nil, arith, ◌==◌, ==_iff, if◌then◌else◌, Bool-cases, inl, inr, ℤ, All, All-append,
}
use libsysinfo.ProcessInfo.Stat.Fields.{stat_index-injective, is_listed, all_listed}
use libsysinfo.ProcessInfo.Stat.Line.{kernel_numbers}
use libsysinfo.ProcessInfo.State.{Stat, StatField, m_pid, stat_index, assign}
use libsysinfo.ProcessInfo.Stat.{
  int, remove_all, describe_state, numbers_behind_state, extract_numbers, read_stat_from,
}
use libsysinfo.Text.Stream.Laws.{
  InRange, extract_number-show, extract_number-space, extract_word-run, extract_word-space,
}
use libsysinfo.Text.Stream.{Stream, Kind, extract_number, extract_word, is_graph, good}
use libsysinfo.Text.Decimal.{show_ℤ}
use libsysinfo.Text.{Bytes, is_digit, is_space, AllOf, Stops}

-- The integers of the line behind the state, each behind a blank.
abbrev pub numbers_text : List (StatField × Kind) → (StatField → ℤ) → Bytes
numbers_text [] v = b'\n' ∷ []
numbers_text ((f, k) ∷ fs) v = b' ' ∷ (show_ℤ (v f) ++ numbers_text fs v)

-- The line, as proc(5) describes it: pid (name) state ppid pgrp ...
abbrev pub stat_text : Stat → Bytes
stat_text s =
    show_ℤ (s.number m_pid)
    ++ (b' ' ∷ b'(' ∷ (s.name ++ (b')' ∷ b' ' ∷ (s.state ++ numbers_text kernel_numbers s.number))))

abbrev pub AllInRange : List (StatField × Kind) → (StatField → ℤ) → Type 0
AllInRange [] v = Unit
AllInRange ((f, k) ∷ fs) v = InRange k (v f) × AllInRange fs v

-- No blank and no parenthesis.
abbrev pub is_plain : ℕ → Bool
is_plain c = not (is_space c || c == b'(' || c == b')')

pub remove_all-AllOf : (b : ℕ) (s : Bytes) → All (λ c. (c == b) ≡ false) s → remove_all b s ≡ s
unfolding remove_all
remove_all-AllOf b [] h = refl
remove_all-AllOf b (c ∷ s) h = ground (arith, remove_all-AllOf b s h.1)

pub remove_all-append :
    (b : ℕ) (s t : Bytes) → remove_all b (s ++ t) ≡ remove_all b s ++ remove_all b t
unfolding remove_all
remove_all-append b [] t = refl
remove_all-append b (c ∷ s) t = ground (arith, remove_all-append b s t)

pub plain-graph : (s : Bytes) → AllOf is_plain s → AllOf is_graph s
plain-graph [] h = tt
plain-graph (c ∷ s) h = (ground arith, plain-graph s h.1)

pub plain-ne :
    (b : ℕ) (s : Bytes) → is_plain b ≡ false → AllOf is_plain s → All (λ c. (c == b) ≡ false) s
plain-ne b [] e h = tt
plain-ne b (c ∷ s) e h = (
  elim (Bool-cases (c == b)) [ inl y ↦ ground (arith, (==_iff c b).0 y) | inr n ↦ n ],
  plain-ne b s e h.1,
)

numbers_text-Stops :
    (fs : List (StatField × Kind)) (v : StatField → ℤ) → Stops is_digit (numbers_text fs v)
numbers_text-Stops [] v = refl
numbers_text-Stops (f ∷ fs) v = refl

pub extract_number-text :
    (k : Kind) (old z : ℤ) (fs : List (StatField × Kind)) (v : StatField → ℤ)
    → InRange k z
    → extract_number k old (good (b' ' ∷ (show_ℤ z ++ numbers_text fs v)))
      ≡ (z, good (numbers_text fs v))
extract_number-text k old z fs v h =
    extract_number-space k old _ ∙ extract_number-show k old z _ h (numbers_text-Stops fs v)

-- an assignment to a member is read back, and leaves the others
assign-listed :
    (fs : List (StatField × Kind)) (f : StatField) (k : Kind) (v store : StatField → ℤ)
    (j : StatField)
    → (if is_listed j fs then v j else assign stat_index store f (v f) j)
      ≡ (if is_listed j ((f, k) ∷ fs) then v j else store j)
unfolding assign
assign-listed fs f k v store j = elim (Bool-cases (stat_index j == stat_index f)) [
  | inl same ↦
      ground
        (arith, ap v (stat_index-injective j f ((==_iff (stat_index j) (stat_index f)).0 same)))
  | inr other ↦ ground arith
]

-- What the statements leave in the members: what the line holds for those that it lists.
extract_numbers-text :
    (fs : List (StatField × Kind)) (v store : StatField → ℤ) (j : StatField)
    → AllInRange fs v
    → (extract_numbers fs store (good (numbers_text fs v))).0 j
      ≡ (if is_listed j fs then v j else store j)
unfolding extract_numbers
extract_numbers-text [] v store j h = refl
extract_numbers-text ((f, k) ∷ fs) v store j h =
    ap (λ (r : ℤ × Stream). (extract_numbers fs (assign stat_index store f r.0) r.1).0 j)
      (extract_number-text k (store f) (v f) fs v h.0)
    ∙ extract_numbers-text fs v (assign stat_index store f (v f)) j h.1
    ∙ assign-listed fs f k v store j

-- The three extractions before the integers.
pub read_pid :
    (old z : ℤ) (rest : Bytes)
    → InRange int z
    → extract_number int old (good (show_ℤ z ++ (b' ' ∷ rest))) ≡ (z, good (b' ' ∷ rest))
read_pid old z rest h = extract_number-show int old z _ h refl

pub read_word :
    (old w rest : Bytes)
    → w ≢ []
    → AllOf is_graph w
    → Stops is_graph rest
    → extract_word old (good (b' ' ∷ (w ++ rest))) ≡ (w, good rest)
read_word old w rest ne a st = extract_word-space old _ ∙ extract_word-run old w rest ne a st

abbrev pub IsPrintable : Stat → Type 0
IsPrintable s =
    AllOf is_plain s.name
    × (s.name ≢ [])
    × AllOf is_graph s.state
    × (s.state ≢ [])
    × InRange int (s.number m_pid)
    × AllInRange kernel_numbers s.number

pub read_stat_from-steps :
    (old : Stat) (st0 : Stream) (pid : ℤ) (name state : Bytes) (st1 st2 st3 : Stream)
    → extract_number int (old.number m_pid) st0 ≡ (pid, st1)
    → extract_word old.name st1 ≡ (name, st2)
    → extract_word [] st2 ≡ (state, st3)
    → read_stat_from st0 old ≡ record {
      name = remove_all b')' (remove_all b'(' name);
      state = describe_state state;
      number =
          (extract_numbers numbers_behind_state (assign stat_index old.number m_pid pid) st3).0;
    }
unfolding read_stat_from
read_stat_from-steps old st0 pid name state st1 st2 st3 e1 e2 e3 = rw (e1, e2, e3)

listed-or-pid :
    (fs : List (StatField × Kind)) (v store : StatField → ℤ) (j : StatField)
    → stat_index j == 0 || is_listed j fs ≡ true
    → (if is_listed j fs then v j else assign stat_index store m_pid (v m_pid) j) ≡ v j
unfolding assign
listed-or-pid fs v store j h = elim (Bool-cases (stat_index j == 0)) [
  | inl e ↦ ground (arith, ap v (stat_index-injective j m_pid ((==_iff (stat_index j) 0).0 e)))
  | inr e ↦ ground arith
]

numbers-eq :
    (v store : StatField → ℤ)
    → AllInRange numbers_behind_state v
    → (extract_numbers numbers_behind_state
        (assign stat_index store m_pid (v m_pid))
        (good (numbers_text numbers_behind_state v))).0
      ≡ v
numbers-eq v store h = fun_ext λ j.
    extract_numbers-text numbers_behind_state v (assign stat_index store m_pid (v m_pid)) j h
    ∙ listed-or-pid numbers_behind_state v store j (all_listed j)

plain_name :
    (s : Bytes) → AllOf is_plain s → remove_all b')' (remove_all b'(' (b'(' ∷ (s ++ b')' ∷ []))) ≡ s
unfolding remove_all
plain_name s h =
    ap (remove_all b')') (
      remove_all-append b'(' s (b')' ∷ [])
      ∙ ap (λ t. t ++ b')' ∷ []) (remove_all-AllOf b'(' s (plain-ne b'(' s refl h)))
    ∙ remove_all-append b')' s (b')' ∷ [])
    ∙ append-nil _
    ∙ remove_all-AllOf b')' s (plain-ne b')' s refl h)

word-AllOf : (s : Bytes) → AllOf is_plain s → AllOf is_graph (b'(' ∷ (s ++ b')' ∷ []))
word-AllOf s h = (refl, All-append _ s (b')' ∷ []) (plain-graph s h) (refl, tt))

-- The line that the kernel writes for a process is read back, if the name has no blanks and
-- parentheses and the integers fit the types of their members: every integer member gets the value
-- of its field by proc(5), the name loses its parentheses and the state is spelled out.
pub read_stat_from-stat_text :
    (s old : Stat)
    → IsPrintable s
    → read_stat_from (good (stat_text s)) old
      ≡ record { name = s.name; state = describe_state s.state; number = s.number }
read_stat_from-stat_text s old (plain, ne, graph, state_ne, pid, numbers) =
    read_stat_from-steps old _ (s.number m_pid) (b'(' ∷ (s.name ++ b')' ∷ [])) s.state _ _ _
      (read_pid _ (s.number m_pid) _ pid)
      (ap (λ (t : Bytes). extract_word old.name (good (b' ' ∷ b'(' ∷ t)))
          (sym (append_assoc s.name (b')' ∷ []) _))
        ∙ read_word old.name (b'(' ∷ (s.name ++ b')' ∷ [])) _ (cc) (word-AllOf s.name plain) refl)
      (read_word [] s.state _ state_ne graph refl)
    ∙ λ i. record {
      name = plain_name s.name plain i;
      state = describe_state s.state;
      number = numbers-eq s.number old.number numbers i;
    }
