-- ===== src/Network/Hex.antt =====
-- Numbers in hexadecimal, as the kernel prints them, and what stoi and stol read.
use libsysinfo.Prelude.{
  ℕ, ◌+◌, ◌-◌, ◌*◌, ◌/◌, ◌%◌, ◌^◌, ◌<◌, ◌≡◌, ◌≢◌, refl, ap, ◌∙◌, true, false, [], ◌∷◌, ◌++◌, arith,
  ltb, ◌==◌, if◌then◌else◌, pos, ok,
}
use libsysinfo.Text.Number.{sixteen, value, digit_value, convert, strtol, skip_prefix}
use libsysinfo.Text.{Bytes, is_space, is_xdigit, AllOf, take_while-AllOf}

abbrev pub hex_digit : ℕ → ℕ
hex_digit n = if ltb n 10 then b'0' + n else b'A' + (n - 10)

-- %02X
abbrev pub hex_byte : ℕ → Bytes
hex_byte n = hex_digit (n / 16) ∷ hex_digit (n % 16) ∷ []

pub hex_digit-is_xdigit : (n : ℕ) → n < 16 → is_xdigit (hex_digit n) ≡ true
hex_digit-is_xdigit n h = ground arith

digit_value-hex_digit : (n : ℕ) → n < 16 → digit_value (hex_digit n) ≡ n
digit_value-hex_digit n h = ground arith

pub hex_byte-AllOf :
    (n : ℕ) (s : Bytes) → n < 256 → AllOf is_xdigit s → AllOf is_xdigit (hex_byte n ++ s)
hex_byte-AllOf n s h a =
    (hex_digit-is_xdigit (n / 16) (omega arith), (hex_digit-is_xdigit (n % 16) (omega arith), a))

-- what a byte in front adds
pub value-hex_byte :
    (n acc : ℕ) (s : Bytes)
    → n < 256
    → value sixteen acc (hex_byte n ++ s) ≡ value sixteen (acc * 256 + n) s
unfolding value
value-hex_byte n acc s h =
    ap (λ v. value sixteen v s)
      (omega (
        arith,
        digit_value-hex_digit (n / 16) (omega arith),
        digit_value-hex_digit (n % 16) (omega arith),
      ))

xdigit_plain :
    (c : ℕ)
    → is_xdigit c ≡ true
    → (is_space c ≡ false)
      × ((c == b'-') ≡ false)
      × ((c == b'+') ≡ false)
      × ((c == b'x') ≡ false)
      × ((c == b'X') ≡ false)
xdigit_plain c h = ground arith

-- there is no 0x to skip
skip_prefix-AllOf : (s : Bytes) → AllOf is_xdigit s → skip_prefix sixteen s ≡ s
skip_prefix-AllOf [] h = refl
skip_prefix-AllOf (a ∷ []) h = refl
skip_prefix-AllOf (a ∷ b ∷ []) h = refl
skip_prefix-AllOf (a ∷ b ∷ c ∷ s) h = ground (arith, xdigit_plain b h.1.0)

strtol-xdigits :
    (k : ℕ) (s : Bytes) → AllOf is_xdigit s → strtol k s sixteen ≡ convert k false s sixteen
unfolding strtol
strtol-xdigits k [] h = refl
strtol-xdigits k (c ∷ s) h =
    rw ((xdigit_plain c h.0).0, (xdigit_plain c h.0).1, (xdigit_plain c h.0).2)
      (rw (skip_prefix-AllOf (c ∷ s) h) (rw (take_while-AllOf is_xdigit (c ∷ s) h)))

convert-hex :
    (k : ℕ) (s : Bytes)
    → s ≢ []
    → value sixteen 0 s < 2 ^ k
    → convert k false s sixteen ≡ ok (pos (value sixteen 0 s))
unfolding convert
convert-hex k [] ne h = absurd (ne refl)
convert-hex k (c ∷ s) ne h = ground arith

pub strtol-hex :
    (k : ℕ) (s : Bytes)
    → s ≢ []
    → AllOf is_xdigit s
    → value sixteen 0 s < 2 ^ k
    → strtol k s sixteen ≡ ok (pos (value sixteen 0 s))
strtol-hex k s ne a h = strtol-xdigits k s a ∙ convert-hex k s ne h
