-- ===== src/Text/Stream/Laws.antt =====
-- Extraction of a printed integer, and of a word, with any text behind it.
use libsysinfo.Prelude.{
  ℕ, suc, ◌^◌, ◌<◌, ◌≡◌, ◌≢◌, refl, Bool, true, false, [], ◌∷◌, ◌++◌, arith, ◌==◌, ℤ, pos, negsuc,
  ◌∙◌,
}
use libsysinfo.Text.{
  Bytes, is_digit, is_space, AllOf, Stops, drop_while, take_while-run, drop_while-run,
}
use libsysinfo.Text.Decimal.{show_ℤ, to_string, to_string-AllOf, to_string-ne-nil, value-to_string}
use libsysinfo.Text.Number.{ten, value}
use libsysinfo.Text.Stream.{
  Kind, signed, unsigned, store_number, store_digits, number_at, extract_number, is_graph,
  extract_word, good, failed,
}

-- The values that an integer type holds.
abbrev pub InRange : Kind → ℤ → Type 0
InRange (signed w) (pos n) = n < 2 ^ w
InRange (signed w) (negsuc n) = n < 2 ^ w
InRange (unsigned w) (pos n) = n < 2 ^ w
InRange (unsigned w) (negsuc n) = ⊥

abbrev sign : ℤ → Bool
sign (pos n) = false
sign (negsuc n) = true

abbrev magnitude : ℤ → ℕ
magnitude (pos n) = n
magnitude (negsuc n) = suc n

store_number-InRange :
    (k : Kind) (z : ℤ) → InRange k z → store_number k (sign z) (magnitude z) ≡ (z, false)
unfolding store_number
store_number-InRange (signed w) (pos n) h = ground arith
store_number-InRange (signed w) (negsuc n) h = ground arith
store_number-InRange (unsigned w) (pos n) h = ground arith
store_number-InRange (unsigned w) (negsuc n) h = absurd h

store_digits-value :
    (k : Kind) (minus : Bool) (s : Bytes)
    → s ≢ []
    → store_digits k minus s ≡ store_number k minus (value ten 0 s)
unfolding store_digits
store_digits-value k minus [] h = absurd (h refl)
store_digits-value k minus (c ∷ s) h = refl

pub digit-facts :
    (c : ℕ)
    → is_digit c ≡ true
    → (is_space c ≡ false) × ((c == b'-') ≡ false) × ((c == b'+') ≡ false)
digit-facts c h = ground arith

-- digits behind the sign
number_at-digits :
    (k : Kind) (old : ℤ) (s rest : Bytes)
    → s ≢ []
    → AllOf is_digit s
    → Stops is_digit rest
    → number_at k old (s ++ rest) ≡ (
      (store_number k false (value ten 0 s)).0,
      record { rest = rest; fail = (store_number k false (value ten 0 s)).1 },
    )
unfolding number_at
number_at-digits k old [] rest ne a st = absurd (ne refl)
number_at-digits k old (c ∷ s) rest ne a st = ground (
  arith,
  digit-facts c a.0,
  take_while-run is_digit (c ∷ s) rest a st,
  drop_while-run is_digit (c ∷ s) rest a st,
  store_digits-value k false (c ∷ s) ne,
)

number_at-minus :
    (k : Kind) (old : ℤ) (s rest : Bytes)
    → s ≢ []
    → AllOf is_digit s
    → Stops is_digit rest
    → number_at k old (b'-' ∷ (s ++ rest)) ≡ (
      (store_number k true (value ten 0 s)).0,
      record { rest = rest; fail = (store_number k true (value ten 0 s)).1 },
    )
unfolding number_at
number_at-minus k old s rest ne a st = ground (
  arith,
  take_while-run is_digit s rest a st,
  drop_while-run is_digit s rest a st,
  store_digits-value k true s ne,
)

number_at-show :
    (k : Kind) (old : ℤ) (z : ℤ) (rest : Bytes)
    → InRange k z
    → Stops is_digit rest
    → number_at k old (show_ℤ z ++ rest) ≡ (z, good rest)
number_at-show k old (pos n) rest h st =
    number_at-digits k old (to_string n) rest (to_string-ne-nil n) (to_string-AllOf n) st
    ∙ rw value-to_string (rw (store_number-InRange k (pos n) h))
number_at-show k old (negsuc n) rest h st =
    number_at-minus k old (to_string (suc n)) rest (to_string-ne-nil (suc n))
      (to_string-AllOf (suc n)) st
    ∙ rw value-to_string (rw (store_number-InRange k (negsuc n) h))

-- what a printed integer does not begin with
show_ℤ-Stops : (z : ℤ) (rest : Bytes) → Stops is_space (show_ℤ z ++ rest)
show_ℤ-Stops (negsuc n) rest = refl
show_ℤ-Stops (pos n) rest = go (to_string n) (to_string-ne-nil n) (to_string-AllOf n)
  where
    go : (s : Bytes) → s ≢ [] → AllOf is_digit s → Stops is_space (s ++ rest)
    go [] ne a = absurd (ne refl)
    go (c ∷ s) ne a = (digit-facts c a.0).0

pub drop_while-Stops : (p : ℕ → Bool) (s : Bytes) → Stops p s → drop_while p s ≡ s
unfolding drop_while
drop_while-Stops p [] h = refl
drop_while-Stops p (c ∷ s) h = ground arith

-- A printed integer that the type holds is extracted, at the start or behind a blank.
pub extract_number-show :
    (k : Kind) (old z : ℤ) (rest : Bytes)
    → InRange k z
    → Stops is_digit rest
    → extract_number k old (good (show_ℤ z ++ rest)) ≡ (z, good rest)
unfolding extract_number
extract_number-show k old z rest h st =
    rw (drop_while-Stops is_space (show_ℤ z ++ rest) (show_ℤ-Stops z rest))
      (number_at-show k old z rest h st)

pub extract_number-space :
    (k : Kind) (old : ℤ) (s : Bytes)
    → extract_number k old (good (b' ' ∷ s)) ≡ extract_number k old (good s)
unfolding extract_number drop_while
extract_number-space k old s = refl

-- A letter where a number should stand: 0 is stored, and the stream fails.
pub extract_number-letter :
    (k : Kind) (old : ℤ) (c : ℕ) (s : Bytes)
    → is_space c ≡ false
    → is_digit c ≡ false
    → (c == b'-') ≡ false
    → (c == b'+') ≡ false
    → extract_number k old (good (c ∷ s)) ≡ (pos 0, failed (c ∷ s))
unfolding extract_number
extract_number-letter k old c s h1 h2 h3 h4 = ground arith

pub extract_number-failed :
    (k : Kind) (old : ℤ) (s : Bytes) → extract_number k old (failed s) ≡ (old, failed s)
unfolding extract_number
extract_number-failed k old s = refl

pub extract_word-run :
    (old w rest : Bytes)
    → w ≢ []
    → AllOf is_graph w
    → Stops is_graph rest
    → extract_word old (good (w ++ rest)) ≡ (w, good rest)
unfolding extract_word
extract_word-run old [] rest ne a st = absurd (ne refl)
extract_word-run old (c ∷ w) rest ne a st =
    ground
      (arith, take_while-run is_graph (c ∷ w) rest a st, drop_while-run is_graph (c ∷ w) rest a st)

pub extract_word-space :
    (old s : Bytes) → extract_word old (good (b' ' ∷ s)) ≡ extract_word old (good s)
unfolding extract_word
extract_word-space old s = refl
