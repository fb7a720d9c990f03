-- ===== src/Network/Address.antt =====
-- The addresses and ports that getSocketTCP takes from a line of /proc/net/tcp.
pub mod Reversed
use libsysinfo.Boost.Pattern.{Matches, any}
use libsysinfo.Boost.{Boost, IsBoost}
use libsysinfo.Boost.Groups.{Run}
use libsysinfo.Network.Groups.{tcp_text, regex_tcp-groups}
use libsysinfo.Network.Hex.{hex_byte, hex_byte-AllOf, value-hex_byte, strtol-hex}
use libsysinfo.Network.State.{TcpSocket, Inet}
use libsysinfo.Network.{regex_tcp, tcp_socket, matched_tcp, tcp_line, with_number}
use libsysinfo.Prelude.{
  ℕ, ◌+◌, ◌*◌, ◌/◌, ◌%◌, ◌^◌, ◌≤◌, ◌<◌, ◌≡◌, ◌≢◌, refl, sym, ap, ◌∙◌, Bool, true, false, List, [],
  ◌∷◌, ◌++◌, length, arith, Option, none, some, Option-cases, inl, inr, ℤ, pos, to_u64, Result, ok,
  throw, append-nil, ◌==◌,
}
use libsysinfo.Text.Decimal.{to_string, to_string-AllOf, to_string-ne-nil, stoi-to_string}
use libsysinfo.Text.Number.{ten, sixteen, value, stoi, stol, digit_value}
use libsysinfo.Text.{Bytes, codes, is_space, is_digit, is_xdigit, AllOf, Stops}

-- The 32 bits with these bytes, the lowest first.
abbrev pub bits : (a b c d : ℕ) → ℕ
bits a b c d = a + 256 * b + 65536 * c + 16777216 * d

-- a.b.c.d
abbrev pub dotted : (a b c d : ℕ) → Bytes
dotted a b c d = to_string a ++ b'.' ∷ (to_string b ++ b'.' ∷ (to_string c ++ b'.' ∷ to_string d))

abbrev pub AreBytes : (a b c d : ℕ) → Type 0
AreBytes a b c d = (a < 256) × (b < 256) × (c < 256) × (d < 256)

-- The two functions on a machine that stores the lowest byte first.
pub record IsLittleEndian (inet : Inet) : Type 0 where
  -- network order is the other order of the bytes
  pub htonl_swaps : (a b c d : ℕ) → AreBytes a b c d → inet.htonl (bits a b c d) ≡ bits d c b a
  -- the bytes are shown in the order in which they are stored
  pub inet_ntoa_dotted :
      (a b c d : ℕ) → AreBytes a b c d → inet.inet_ntoa (bits a b c d) ≡ dotted a b c d

-- %08X of the address a.b.c.d, which the kernel reads from memory as a number
abbrev pub hex_address : (a b c d : ℕ) → Bytes
hex_address a b c d = hex_byte d ++ (hex_byte c ++ (hex_byte b ++ hex_byte a))

-- %04X
abbrev pub hex_port : ℕ → Bytes
hex_port n = hex_byte (n / 256) ++ hex_byte (n % 256)

pub hex_address-AllOf : (a b c d : ℕ) → AreBytes a b c d → AllOf is_xdigit (hex_address a b c d)
hex_address-AllOf a b c d (ha, hb, hc, hd) =
    hex_byte-AllOf d (hex_byte c ++ (hex_byte b ++ hex_byte a)) hd (
      hex_byte-AllOf c (hex_byte b ++ hex_byte a) hc
        (hex_byte-AllOf b (hex_byte a) hb (hex_byte-AllOf a [] ha tt)))

pub hex_port-AllOf : (n : ℕ) → n < 65536 → AllOf is_xdigit (hex_port n)
hex_port-AllOf n h =
    hex_byte-AllOf (n / 256) (hex_byte (n % 256)) (omega arith)
      (hex_byte-AllOf (n % 256) [] (omega arith) tt)

value-hex_byte_end : (n acc : ℕ) → n < 256 → value sixteen acc (hex_byte n) ≡ acc * 256 + n
unfolding value
value-hex_byte_end n acc h = value-hex_byte n acc [] h

value-hex_address :
    (a b c d : ℕ) → AreBytes a b c d → value sixteen 0 (hex_address a b c d) ≡ bits a b c d
value-hex_address a b c d (ha, hb, hc, hd) =
    value-hex_byte d 0 (hex_byte c ++ (hex_byte b ++ hex_byte a)) hd
    ∙ value-hex_byte c (0 * 256 + d) (hex_byte b ++ hex_byte a) hc
    ∙ value-hex_byte b ((0 * 256 + d) * 256 + c) (hex_byte a) hb
    ∙ value-hex_byte_end a (((0 * 256 + d) * 256 + c) * 256 + b) ha
    ∙ omega arith

value-hex_port : (n : ℕ) → n < 65536 → value sixteen 0 (hex_port n) ≡ n
value-hex_port n h =
    value-hex_byte (n / 256) 0 (hex_byte (n % 256)) (omega arith)
    ∙ value-hex_byte_end (n % 256) (0 * 256 + n / 256) (omega arith)
    ∙ omega arith

pub stol-hex_address :
    (a b c d : ℕ) → AreBytes a b c d → stol (hex_address a b c d) sixteen ≡ ok (pos (bits a b c d))
unfolding stol
stol-hex_address a b c d h =
    let v = value-hex_address a b c d h in
    strtol-hex 63 (hex_address a b c d) (cc) (hex_address-AllOf a b c d h) (omega (arith, v, h))
    ∙ ap (λ n. ok (pos n)) v

pub stoi-hex_port : (n : ℕ) → n < 65536 → stoi (hex_port n) sixteen ≡ ok (pos n)
unfolding stoi
stoi-hex_port n h =
    let v = value-hex_port n h in
    strtol-hex 31 (hex_port n) (cc) (hex_port-AllOf n h) (omega (arith, v, h))
    ∙ ap (λ m. ok (pos m)) v

digit_value-lt : (c : ℕ) → is_xdigit c ≡ true → digit_value c < 16
digit_value-lt c h = ground arith

false-ne-true : false ≡ true → ⊥
false-ne-true h = cc

-- a first part of a port is short, and stoi reads it
pub stoi-short :
    (s rest : Bytes) (n : ℕ) (text : Bytes)
    → Run is_xdigit s
    → Stops is_xdigit text
    → hex_port n ++ text ≡ s ++ rest
    → (z : ℤ) × (stoi s sixteen ≡ ok z)
unfolding stoi value
stoi-short [] rest n text (ne, h) st e = absurd (ne refl)
stoi-short (a ∷ []) rest n text (ne, h) st e =
    (_, strtol-hex 31 (a ∷ []) ne h (omega (arith, digit_value-lt a h.0)))
stoi-short (a ∷ b ∷ []) rest n text (ne, h) st e = (
  _,
  strtol-hex 31 (a ∷ b ∷ []) ne h (omega (arith, digit_value-lt a h.0, digit_value-lt b h.1.0)),
)
stoi-short (a ∷ b ∷ c ∷ []) rest n text (ne, h) st e = (
  _,
  strtol-hex 31 (a ∷ b ∷ c ∷ []) ne h
      (omega (arith, digit_value-lt a h.0, digit_value-lt b h.1.0, digit_value-lt c h.1.1.0)),
)
stoi-short (a ∷ b ∷ c ∷ d ∷ []) rest n text (ne, h) st e = (
  _,
  strtol-hex 31 (a ∷ b ∷ c ∷ d ∷ []) ne h (
      omega (
        arith,
        digit_value-lt a h.0,
        digit_value-lt b h.1.0,
        digit_value-lt c h.1.1.0,
        digit_value-lt d h.1.1.1.0,
      )),
)
stoi-short (a ∷ b ∷ c ∷ d ∷ f ∷ s) rest n [] (ne, h) st e = absurd (cc)
stoi-short (a ∷ b ∷ c ∷ d ∷ f ∷ s) rest n (g ∷ text) (ne, h) st e =
    let same : g ≡ f = cc in absurd (false-ne-true (sym st ∙ ap is_xdigit same ∙ h.1.1.1.1.0))
