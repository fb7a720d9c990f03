-- ===== src/Text/Number.antt =====
-- std::stoi and std::stol: the text of an integer, after std::strtol.
use libsysinfo.Prelude.{
  ℕ, ◌+◌, ◌-◌, ◌*◌, ◌^◌, Bool, true, false, ◌&&◌, ◌||◌, [], ◌∷◌, ltb, leb, ◌==◌, if◌then◌else◌, ℤ,
  pos, negsuc, neg_ℕ, Result, ok, throw, invalid_argument, out_of_range,
}
use libsysinfo.Text.Basic.{Bytes, is_digit, is_space, is_xdigit, take_while, drop_while}

-- The base of the digits: ten, or sixteen where the call passes 16.
pub data Base : Type 0 where
  ten sixteen : Base

abbrev pub radix : Base → ℕ
radix ten = 10
radix sixteen = 16

abbrev pub is_digit_of : Base → ℕ → Bool
is_digit_of ten c = is_digit c
is_digit_of sixteen c = is_xdigit c

abbrev pub digit_value : ℕ → ℕ
digit_value c = if is_digit c then c - b'0' else if leb b'a' c then c - b'a' + 10 else c - b'A' + 10

-- The number that digits spell behind `n`.
unfoldable pub value : Base → ℕ → Bytes → ℕ
value b n [] = n
value b n (c ∷ s) = value b (n * radix b + digit_value c) s

-- A sign and what follows it.
abbrev pub sign_of : Bytes → Bool × Bytes
sign_of [] = (false, [])
sign_of (c ∷ s) = if c == b'-' then (true, s) else if c == b'+' then (false, s) else (false, c ∷ s)

-- With base 16, strtol skips a 0x that a digit follows.
abbrev pub skip_prefix : Base → Bytes → Bytes
skip_prefix sixteen (z ∷ x ∷ h ∷ s) =
    if z == b'0' && (x == b'x' || x == b'X') && is_xdigit h then h ∷ s else z ∷ x ∷ h ∷ s
skip_prefix _ s = s

abbrev pub signed : Bool → ℕ → ℤ
signed true n = neg_ℕ n
signed false n = pos n

-- lo ≤ z ≤ hi, with lo = -(2 ^ k) and hi = 2 ^ k - 1
unfoldable pub in_signed_range : ℕ → ℤ → Bool
in_signed_range k (pos n) = ltb n (2 ^ k)
in_signed_range k (negsuc n) = ltb n (2 ^ k)

-- No digits: invalid_argument. A number that the result type cannot hold: out_of_range.
unfoldable pub convert : ℕ → Bool → Bytes → Base → Result ℤ
unfolding value in_signed_range
convert k minus [] b = throw invalid_argument
convert k minus (c ∷ ds) b =
    let z = signed minus (value b 0 (c ∷ ds)) in
    if in_signed_range k z then ok z else throw out_of_range

unfoldable pub strtol : ℕ → Bytes → Base → Result ℤ
unfolding convert take_while drop_while
strtol k s b =
    let (minus, t) = sign_of (drop_while is_space s) in
    convert k minus (take_while (is_digit_of b) (skip_prefix b t)) b

-- int is 32 bits and long 64 bits wide.
unfoldable pub stoi : Bytes → Base → Result ℤ
unfolding strtol
stoi = strtol 31

unfoldable pub stol : Bytes → Base → Result ℤ
unfolding strtol
stol = strtol 63
