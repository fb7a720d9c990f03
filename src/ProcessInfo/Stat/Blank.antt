-- ===== src/ProcessInfo/Stat/Blank.antt =====
-- readStat on a command name with a blank in it, such as "tmux: server".
use libsysinfo.Prelude.{
  ℕ, ◌≡◌, ◌≢◌, refl, sym, ap, ◌∙◌, true, false, List, [], ◌∷◌, ◌++◌, append_assoc, arith, ◌==◌,
  ==_iff, Bool-cases, inl, inr, ℤ, pos, All-append,
}
use libsysinfo.ProcessInfo.Stat.Fields.{stat_index-injective}
use libsysinfo.ProcessInfo.Stat.RoundTrip.{
  numbers_text, stat_text, is_plain, remove_all-AllOf, plain-graph, plain-ne, read_pid, read_word,
  read_stat_from-steps,
}
use libsysinfo.ProcessInfo.Stat.{
  int, remove_all, describe_state, numbers_behind_state, extract_numbers, read_stat_from,
}
use libsysinfo.ProcessInfo.State.{Stat, StatField, m_pid, m_ppid, stat_index, assign}
use libsysinfo.Text.Stream.Laws.{
  InRange, extract_number-space, extract_number-letter, extract_number-failed,
}
use libsysinfo.Text.Stream.{Stream, Kind, extract_word, good, failed}
use libsysinfo.Text.{Bytes, is_digit, is_space, is_alpha, AllOf}

-- assigning a member its own value changes nothing
assign_self :
    (store : StatField → ℤ) (f j : StatField) → assign stat_index store f (store f) j ≡ store j
unfolding assign
assign_self store f j = elim (Bool-cases (stat_index j == stat_index f)) [
  | inl e ↦
      ground
        (arith, ap store (stat_index-injective j f ((==_iff (stat_index j) (stat_index f)).0 e)))
  | inr e ↦ ground arith
]

-- Once the stream has failed no member changes.
pub extract_numbers-failed :
    (fs : List (StatField × Kind)) (store : StatField → ℤ) (s : Bytes) (j : StatField)
    → (extract_numbers fs store (failed s)).0 j ≡ store j
unfolding extract_numbers
extract_numbers-failed [] store s j = refl
extract_numbers-failed ((f, k) ∷ fs) store s j =
    ap (λ (r : ℤ × Stream). (extract_numbers fs (assign stat_index store f r.0) r.1).0 j)
      (extract_number-failed k (store f) s)
    ∙ extract_numbers-failed fs (assign stat_index store f (store f)) s j
    ∙ assign_self store f j

-- A letter in the place of the first integer.
extract_numbers-letter :
    (f : StatField) (k : Kind) (fs : List (StatField × Kind)) (store : StatField → ℤ) (c : ℕ)
    (s : Bytes) (j : StatField)
    → is_space c ≡ false
    → is_digit c ≡ false
    → (c == b'-') ≡ false
    → (c == b'+') ≡ false
    → (extract_numbers ((f, k) ∷ fs) store (good (b' ' ∷ c ∷ s))).0 j
      ≡ assign stat_index store f (pos 0) j
unfolding extract_numbers
extract_numbers-letter f k fs store c s j h1 h2 h3 h4 =
    ap (λ (r : ℤ × Stream). (extract_numbers fs (assign stat_index store f r.0) r.1).0 j)
      (extract_number-space k (store f) (c ∷ s) ∙ extract_number-letter k (store f) c s h1 h2 h3 h4)
    ∙ extract_numbers-failed fs (assign stat_index store f (pos 0)) (c ∷ s) j

describe_state_long : (c d : ℕ) (s : Bytes) → describe_state (c ∷ d ∷ s) ≡ c ∷ d ∷ s
unfolding describe_state
describe_state_long c d s = ground arith

describe_state-append : (b : Bytes) → b ≢ [] → describe_state (b ++ b')' ∷ []) ≡ b ++ b')' ∷ []
describe_state-append [] ne = absurd (ne refl)
describe_state-append (c ∷ []) ne = describe_state_long c b')' []
describe_state-append (c ∷ d ∷ s) ne = describe_state_long c d (s ++ b')' ∷ [])

remove_parentheses :
    (a : Bytes) → AllOf is_plain a → remove_all b')' (remove_all b'(' (b'(' ∷ a)) ≡ a
unfolding remove_all
remove_parentheses a h =
    ap (remove_all b')') (remove_all-AllOf b'(' a (plain-ne b'(' a refl h))
    ∙ remove_all-AllOf b')' a (plain-ne b')' a refl h)

-- What readStat makes of a line whose command name is `a`, a blank and `b`.
pub record Shifted (a b : Bytes) (pid : ℤ) (old r : Stat) : Type 0 where
  pub name : r.name ≡ a
  pub state : r.state ≡ b ++ b')' ∷ []
  pub ppid : r.number m_ppid ≡ pos 0
  pub others : (j : StatField) → j ≢ m_pid → j ≢ m_ppid → r.number j ≡ old.number j

abbrev pub read_as : Bytes → Bytes → ℤ → Stat → Stream → Stat
read_as a b pid old st = record {
  name = remove_all b')' (remove_all b'(' (b'(' ∷ a));
  state = describe_state (b ++ b')' ∷ []);
  number = (extract_numbers numbers_behind_state (assign stat_index old.number m_pid pid) st).0;
}

abbrev pub blank_line : Bytes → Bytes → ℕ → Stat → Bytes
blank_line a b c s = stat_text (record s { name = a ++ (b' ' ∷ b); state = c ∷ [] })

read_stat_from-read_as :
    (a b : Bytes) (c : ℕ) (s old : Stat)
    → AllOf is_plain a
    → AllOf is_plain b
    → InRange int (s.number m_pid)
    → read_stat_from (good (blank_line a b c s)) old
      ≡ read_as a b
          (s.number m_pid)
          old
          (good (b' ' ∷ c ∷ numbers_text numbers_behind_state s.number))
read_stat_from-read_as a b c s old pa pb pid =
    read_stat_from-steps old _ (s.number m_pid) (b'(' ∷ a) (b ++ b')' ∷ []) _ _ _
      (read_pid _ (s.number m_pid) _ pid)
      (ap (λ (t : Bytes). extract_word old.name (good (b' ' ∷ b'(' ∷ t)))
          (append_assoc a (b' ' ∷ b) _)
        ∙ read_word old.name (b'(' ∷ a) _ (cc) (refl, plain-graph a pa) refl)
      (ap (λ (t : Bytes). extract_word [] (good (b' ' ∷ t))) (sym (append_assoc b (b')' ∷ []) _))
        ∙ read_word [] (b ++ b')' ∷ []) _ (ne-nil b)
            (All-append _ b (b')' ∷ []) (plain-graph b pb) (refl, tt)) refl)
  where
    ne-nil : (t : Bytes) → t ++ b')' ∷ [] ≢ []
    ne-nil [] = cc
    ne-nil (x ∷ t) = cc

letter-facts :
    (c : ℕ)
    → is_alpha c ≡ true
    → (is_space c ≡ false) × (is_digit c ≡ false) × ((c == b'-') ≡ false) × ((c == b'+') ≡ false)
letter-facts c h = ground arith

numbers_behind_letter :
    (store : StatField → ℤ) (c : ℕ) (t : Bytes) (j : StatField)
    → is_alpha c ≡ true
    → (extract_numbers numbers_behind_state store (good (b' ' ∷ c ∷ t))).0 j
      ≡ assign stat_index store m_ppid (pos 0) j
numbers_behind_letter store c t j h =
    let (h1, h2, h3, h4) = letter-facts c h in
    extract_numbers-letter m_ppid int _ store c t j h1 h2 h3 h4

assign_ne :
    (store : StatField → ℤ) (f j : StatField) (z : ℤ)
    → j ≢ f
    → assign stat_index store f z j ≡ store j
unfolding assign
assign_ne store f j z ne = elim (Bool-cases (stat_index j == stat_index f)) [
  | inl e ↦ absurd (ne (stat_index-injective j f ((==_iff (stat_index j) (stat_index f)).0 e)))
  | inr e ↦ rw e
]

assign_same : (store : StatField → ℤ) (z : ℤ) → assign stat_index store m_ppid z m_ppid ≡ z
unfolding assign
assign_same store z = refl

-- The line of a process whose name has one blank and whose state is a letter: the blank ends the
-- name, the rest of the name is taken for the state, the parent becomes 0, and no other integer
-- than the pid is read.
pub read_stat_from-Shifted :
    (a b : Bytes) (c : ℕ) (s old : Stat)
    → AllOf is_plain a
    → AllOf is_plain b
    → b ≢ []
    → is_alpha c ≡ true
    → InRange int (s.number m_pid)
    → Shifted a b (s.number m_pid) old (read_stat_from (good (blank_line a b c s)) old)
read_stat_from-Shifted a b c s old pa pb ne letter pid =
    rw (read_stat_from-read_as a b c s old pa pb pid) (record {
      name = remove_parentheses a pa;
      state = describe_state-append b ne;
      ppid = numbers_behind_letter _ c _ m_ppid letter ∙ assign_same _ (pos 0);
      others = λ j h1 h2.
          numbers_behind_letter _ c _ j letter
          ∙ assign_ne _ m_ppid j (pos 0) h2
          ∙ assign_ne old.number m_pid j (s.number m_pid) h1;
    })
