-- ===== src/MMap/Offset.antt =====
-- The offset of a mapping, which the kernel writes in hexadecimal and the constructor reads with
-- std::stol in base ten.
use libsysinfo.Boost.Groups.{Matches-Groups}
use libsysinfo.Boost.{Boost, IsBoost}
use libsysinfo.MMap.Permissions.{stored_offset, read_all-shown}
use libsysinfo.MMap.State.{MMap, MappingType}
use libsysinfo.MMap.{
  regex_declare_mapping, and_then, set_numbers, declare, declare_matched, read_attributes, read_all,
}
use libsysinfo.Prelude.{
  ℕ, ◌≡◌, ◌≢◌, refl, sym, ap, ◌∙◌, true, false, List, [], ◌∷◌, some, arith, Bool-cases, inl, inr,
  ltb, ◌^◌, ◌==◌, ℤ, pos, to_int, to_u64, ok, Result-cases, ok-injective, throw-ne-ok,
}
use libsysinfo.Text.Number.{ten, value, convert, strtol, stol}
use libsysinfo.Text.{Bytes, is_space, is_digit, is_xdigit, AllOf, take_while}

xdigit_plain :
    (c : ℕ)
    → is_xdigit c ≡ true
    → (is_space c ≡ false) × ((c == b'-') ≡ false) × ((c == b'+') ≡ false)
xdigit_plain c h = ground arith

-- in base ten, hexadecimal digits are read up to the first letter
strtol_digits :
    (k : ℕ) (s : Bytes)
    → AllOf is_xdigit s
    → strtol k s ten ≡ convert k false (take_while is_digit s) ten
unfolding strtol
strtol_digits k [] h = refl
strtol_digits k (c ∷ s) h =
    let (space, minus, plus) = xdigit_plain c h.0 in rw (space, minus, plus) refl

convert-ok :
    (k : ℕ) (s : Bytes) {z : ℤ}
    → convert k false s ten ≡ ok z
    → (s ≢ []) × (z ≡ pos (value ten 0 s))
unfolding convert
convert-ok k [] h = absurd (throw-ne-ok h)
convert-ok k (c ∷ s) h = elim (Bool-cases (ltb (value ten 0 (c ∷ s)) (2 ^ k))) [
  | inl e ↦ ((cc), sym (ok-injective (rw e at h)))
  | inr e ↦ absurd (throw-ne-ok (rw e at h))
]

-- If the offset is refused, the constructor throws.
read_all_throws :
    (boost : Boost) (l : Bytes) (ls : List Bytes)
    (from to r w x t offset major minor inode path : Bytes) (m : MMap) {n : MMap}
    → boost.regex_match regex_declare_mapping l
      ≡ some (from ∷ to ∷ r ∷ w ∷ x ∷ t ∷ offset ∷ major ∷ minor ∷ inode ∷ path ∷ [])
    → read_all boost (l ∷ ls) m ≡ ok n
    → (z : ℤ) × (stol offset ten ≡ ok z)
unfolding read_all declare set_numbers
read_all_throws boost l ls from to r w x t offset major minor inode path m h k =
    let caps = from ∷ to ∷ r ∷ w ∷ x ∷ t ∷ offset ∷ major ∷ minor ∷ inode ∷ path ∷ [] in
    let declared =
      sym (ap (λ o. and_then (declare_matched o m) (read_attributes boost ls)) h) ∙ k in
    elim (Result-cases (stol offset ten)) [
      | inl (z, e) ↦ (z, e)
      | inr (x, e) ↦ absurd (throw-ne-ok (rw e at declared))
    ]

-- A mapping whose first line matches gets, if no number is refused, the offset that the digits in
-- front of the first letter spell in base ten, converted to int, and there is at least one such
-- digit; the hexadecimal digits behind it are dropped.
pub read_all-offset :
    (boost : Boost) (b : IsBoost boost) (l : Bytes) (ls : List Bytes)
    (from to r w x t offset major minor inode path : Bytes) (m : MMap) {n : MMap}
    → boost.regex_match regex_declare_mapping l
      ≡ some (from ∷ to ∷ r ∷ w ∷ x ∷ t ∷ offset ∷ major ∷ minor ∷ inode ∷ path ∷ [])
    → read_all boost (l ∷ ls) m ≡ ok n
    → (take_while is_digit offset ≢ [])
      × (n.offset ≡ to_int (to_u64 (pos (value ten 0 (take_while is_digit offset)))))
unfolding stol
read_all-offset boost b l ls from to r w x t offset major minor inode path m h k =
    let caps = from ∷ to ∷ r ∷ w ∷ x ∷ t ∷ offset ∷ major ∷ minor ∷ inode ∷ path ∷ [] in
    let (_, (_, (_, (_, (_, (_, (digits, _))))))) =
      Matches-Groups regex_declare_mapping l caps (b.match_sound regex_declare_mapping l caps h) in
    let (z, number) =
      read_all_throws boost l ls from to r w x t offset major minor inode path m h k in
    let (some_digit, same) =
      convert-ok 63 (take_while is_digit offset)
        (sym (strtol_digits 63 offset digits.1) ∙ number) in
    (
      some_digit,
      ap (λ (q : Bytes × MappingType × ℤ). q.2)
            (read_all-shown boost b l ls from to r w x t offset major minor inode path m h k)
          ∙ ap stored_offset (number ∙ ap ok same),
    )
