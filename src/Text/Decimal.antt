-- ===== src/Text/Decimal.antt =====
-- std::to_string of a number, and std::stoi on its text.
use libsysinfo.Prelude.{
  ℕ, zero, suc, ◌+◌, ◌/◌, ◌%◌, ◌^◌, ◌≤◌, ◌<◌, ◌≡◌, refl, ◌≢◌, true, false, [], ◌∷◌, arith, ltb,
  if◌then◌else◌, ℤ, pos, negsuc, ok, throw, out_of_range, ◌∙◌, ap, ◌==◌,
}
use libsysinfo.Text.Basic.{Bytes, is_digit, is_space, AllOf, take_while-AllOf}
use libsysinfo.Text.Number.{ten, value, convert, strtol, stoi}

-- Fuel `n + 1` is enough: each round divides `n` by ten.
digits : ℕ → ℕ → Bytes → Bytes
digits zero n out = out
digits (suc f) n out =
    let rest = digits f (n / 10) ((b'0' + n % 10) ∷ out) in
    if ltb n 10 then (b'0' + n) ∷ out else rest

unfoldable pub to_string : ℕ → Bytes
unfolding digits
to_string n = digits (suc n) n []

value-digits : (f n : ℕ) (out : Bytes) → n < f → value ten 0 (digits f n out) ≡ value ten n out
unfolding digits value
value-digits zero n out h = elim h [ ]
value-digits (suc f) n out h = ground (arith, value-digits f (n / 10) ((b'0' + n % 10) ∷ out))

digits-AllOf :
    (f n : ℕ) (out : Bytes) → n < f → AllOf is_digit out → AllOf is_digit (digits f n out)
unfolding digits
digits-AllOf zero n out h a = elim h [ ]
digits-AllOf (suc f) n out h a = ground (arith, digits-AllOf f (n / 10) ((b'0' + n % 10) ∷ out))

digits-ne-nil : (f n : ℕ) (out : Bytes) → n < f → digits f n out ≢ []
unfolding digits
digits-ne-nil zero n out h = elim h [ ]
digits-ne-nil (suc f) n out h = ground (arith, digits-ne-nil f (n / 10) ((b'0' + n % 10) ∷ out))

pub value-to_string : (n : ℕ) → value ten 0 (to_string n) ≡ n
unfolding to_string value
value-to_string n = unfold value in value-digits (suc n) n [] (omega arith)

pub to_string-AllOf : (n : ℕ) → AllOf is_digit (to_string n)
unfolding to_string
to_string-AllOf n = digits-AllOf (suc n) n [] (omega arith) tt

pub to_string-ne-nil : (n : ℕ) → to_string n ≢ []
unfolding to_string
to_string-ne-nil n = digits-ne-nil (suc n) n [] (omega arith)

-- digits begin with no blank and no sign
digit_plain :
    (c : ℕ)
    → is_digit c ≡ true
    → (is_space c ≡ false) × ((c == b'-') ≡ false) × ((c == b'+') ≡ false)
digit_plain c h = ground arith

strtol-AllOf : (k : ℕ) (s : Bytes) → AllOf is_digit s → strtol k s ten ≡ convert k false s ten
unfolding strtol
strtol-AllOf k [] h = refl
strtol-AllOf k (c ∷ s) h = ground (arith, digit_plain c h.0, take_while-AllOf is_digit s h.1)

convert-value :
    (k : ℕ) (s : Bytes)
    → s ≢ []
    → value ten 0 s < 2 ^ k
    → convert k false s ten ≡ ok (pos (value ten 0 s))
unfolding convert
convert-value k [] ne h = absurd (ne refl)
convert-value k (c ∷ s) ne h = ground arith

-- A run of digits is read as the number that it spells, if that fits.
pub strtol-value :
    (k : ℕ) (s : Bytes)
    → s ≢ []
    → AllOf is_digit s
    → value ten 0 s < 2 ^ k
    → strtol k s ten ≡ ok (pos (value ten 0 s))
strtol-value k s ne a h = strtol-AllOf k s a ∙ convert-value k s ne h

-- A number too large for the type is refused.
pub strtol_overflow :
    (k : ℕ) (s : Bytes)
    → s ≢ []
    → AllOf is_digit s
    → 2 ^ k ≤ value ten 0 s
    → strtol k s ten ≡ throw out_of_range
unfolding convert
strtol_overflow k [] ne a h = absurd (ne refl)
strtol_overflow k (c ∷ s) ne a h = strtol-AllOf k (c ∷ s) a ∙ ground arith

-- Reading back the text of a number that fits in an int.
pub stoi-to_string : (n : ℕ) → n < 2 ^ 31 → stoi (to_string n) ten ≡ ok (pos n)
unfolding stoi
stoi-to_string n h =
    strtol-value 31 (to_string n) (to_string-ne-nil n) (to_string-AllOf n) (rw value-to_string h)
    ∙ ap (λ m. ok (pos m)) (value-to_string n)

-- The text of an integer, as std::to_string and the kernel's %d print it.
abbrev pub show_ℤ : ℤ → Bytes
show_ℤ (pos n) = to_string n
show_ℤ (negsuc n) = b'-' ∷ to_string (suc n)
