-- ===== src/Text/Stream.antt =====
-- Formatted extraction from a std::istream, `in >> x`, for words and integers.
-- An extraction from a stream that has failed leaves its target as it was.
pub mod Laws
use libsysinfo.Prelude.{
  ℕ, ◌-◌, ◌%◌, ◌^◌, ◌<◌, ◌≤◌, ◌≡◌, ◌≢◌, refl, Bool, true, false, not, [], ◌∷◌, ◌++◌, arith, ltb,
  leb, ◌==◌, if◌then◌else◌, ℤ, pos, negsuc, neg_ℕ, ◌∙◌, ap,
}
use libsysinfo.Text.Basic.{
  Bytes, is_digit, is_space, AllOf, Stops, take_while, drop_while, take_while-run, drop_while-run,
}
use libsysinfo.Text.Number.{ten, value, sign_of}

pub record Stream : Type 0 where
  pub rest : Bytes
  pub fail : Bool

-- An integer type: `signed 31` is int, `signed 63` long, `unsigned 32` and `unsigned 64` the others.
pub data Kind : Type 0 where
  signed unsigned : ℕ → Kind

-- The value stored for a number, and whether the extraction fails: a number out of range is
-- clamped, and a minus sign before an unsigned number wraps around.
unfoldable pub store_number : Kind → Bool → ℕ → ℤ × Bool
store_number (signed w) false n = if ltb n (2 ^ w) then (pos n, false) else (pos (2 ^ w - 1), true)
store_number (signed w) true n = if leb n (2 ^ w) then (neg_ℕ n, false) else (neg_ℕ (2 ^ w), true)
store_number (unsigned w) minus n =
    if ltb n (2 ^ w)
    then (pos (if minus then (2 ^ w - n) % 2 ^ w else n), false)
    else (pos (2 ^ w - 1), true)

-- No digit where a number should stand: the extraction stores 0 and fails.
unfoldable pub store_digits : Kind → Bool → Bytes → ℤ × Bool
unfolding store_number value
store_digits k minus [] = (pos 0, true)
store_digits k minus (d ∷ ds) = store_number k minus (value ten 0 (d ∷ ds))

-- behind the blanks
unfoldable pub number_at : Kind → ℤ → Bytes → ℤ × Stream
unfolding store_digits take_while drop_while
number_at k old [] = (old, record { rest = []; fail = true })
number_at k old (c ∷ s) =
    let (minus, t) = sign_of (c ∷ s) in
    let (z, bad) = store_digits k minus (take_while is_digit t) in
    (z, record { rest = drop_while is_digit t; fail = bad })

-- in >> number
unfoldable pub extract_number : Kind → ℤ → Stream → ℤ × Stream
unfolding number_at drop_while
extract_number k old st =
    if st.fail then (old, st) else number_at k old (drop_while is_space st.rest)

abbrev pub is_graph : ℕ → Bool
is_graph c = not (is_space c)

unfoldable pub word_at : Bytes → Bytes → Bytes × Stream
unfolding take_while drop_while
word_at old [] = (old, record { rest = []; fail = true })
word_at old (c ∷ s) =
    (take_while is_graph (c ∷ s), record { rest = drop_while is_graph (c ∷ s); fail = false })

-- in >> word
unfoldable pub extract_word : Bytes → Stream → Bytes × Stream
unfolding word_at drop_while
extract_word old st = if st.fail then (old, st) else word_at old (drop_while is_space st.rest)

abbrev pub good : Bytes → Stream
good s = record { rest = s; fail = false }

abbrev pub failed : Bytes → Stream
failed s = record { rest = s; fail = true }
