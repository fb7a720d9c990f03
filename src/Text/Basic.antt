-- ===== src/Text/Basic.antt =====
-- std::string as a list of bytes; the character classes of the "C" locale.
use Prim.Native.Char.{code}
use Prim.Native.String.{String}
use libsysinfo.Prelude.{
  ℕ, ◌≡◌, refl, Bool, true, false, ◌&&◌, ◌||◌, List, [], ◌∷◌, ◌++◌, arith, leb, ◌==◌, ◌↔◌,
  if◌then◌else◌, All,
}

abbrev pub Bytes : Type 0
Bytes = List ℕ

-- The bytes of an ASCII literal.
abbrev pub codes : String → Bytes
codes String.[] = []
codes (String.◌∷◌ c s) = code c ∷ codes s

-- std::string::empty
abbrev pub is_empty : Bytes → Bool
is_empty [] = true
is_empty (c ∷ s) = false

-- operator== on std::string
unfoldable pub same_text : Bytes → Bytes → Bool
same_text [] t = is_empty t
same_text (c ∷ s) [] = false
same_text (c ∷ s) (d ∷ t) = c == d && same_text s t

pub same_text_iff : (s t : Bytes) → (same_text s t ≡ true) ↔ (s ≡ t)
unfolding same_text
same_text_iff [] [] = ground arith
same_text_iff [] (d ∷ t) = ground arith
same_text_iff (c ∷ s) [] = ground arith
same_text_iff (c ∷ s) (d ∷ t) = ground (arith, same_text_iff s t)

abbrev pub is_digit : ℕ → Bool
is_digit c = leb b'0' c && leb c b'9'

-- isspace: a blank, or one of \t \n \v \f \r
abbrev pub is_space : ℕ → Bool
is_space c = c == 32 || (leb 9 c && leb c 13)

abbrev pub is_xdigit : ℕ → Bool
is_xdigit c = is_digit c || (leb b'a' c && leb c b'f') || (leb b'A' c && leb c b'F')

abbrev pub is_alpha : ℕ → Bool
is_alpha c = (leb b'a' c && leb c b'z') || (leb b'A' c && leb c b'Z')

-- All bytes of `s` are of the class `p`.
abbrev pub AllOf : (ℕ → Bool) → Bytes → Type 0
AllOf p = All (λ c. p c ≡ true)

-- The text `s` does not begin with a byte of the class `p`.
abbrev pub Stops : (ℕ → Bool) → Bytes → Type 0
Stops p [] = Unit
Stops p (c ∷ s) = p c ≡ false

-- The longest prefix of bytes of a class, and the rest.
unfoldable pub take_while : (ℕ → Bool) → Bytes → Bytes
take_while p [] = []
take_while p (c ∷ s) = if p c then c ∷ take_while p s else []

unfoldable pub drop_while : (ℕ → Bool) → Bytes → Bytes
drop_while p [] = []
drop_while p (c ∷ s) = if p c then drop_while p s else c ∷ s

pub take_while-run :
    (p : ℕ → Bool) (run rest : Bytes)
    → AllOf p run
    → Stops p rest
    → take_while p (run ++ rest) ≡ run
unfolding take_while
take_while-run p [] [] h s = refl
take_while-run p [] (c ∷ rest) h s = ground arith
take_while-run p (c ∷ run) rest h s = ground (arith, take_while-run p run rest h.1 s)

pub take_while-AllOf : (p : ℕ → Bool) (s : Bytes) → AllOf p s → take_while p s ≡ s
unfolding take_while
take_while-AllOf p [] h = refl
take_while-AllOf p (c ∷ s) h = ground (arith, take_while-AllOf p s h.1)

pub drop_while-run :
    (p : ℕ → Bool) (run rest : Bytes)
    → AllOf p run
    → Stops p rest
    → drop_while p (run ++ rest) ≡ rest
unfolding drop_while
drop_while-run p [] [] h s = refl
drop_while-run p [] (c ∷ rest) h s = ground arith
drop_while-run p (c ∷ run) rest h s = ground (arith, drop_while-run p run rest h.1 s)

-- std::string::find(c) != npos
unfoldable pub contains : ℕ → Bytes → Bool
contains b [] = false
contains b (c ∷ s) = c == b || contains b s

-- s.find(w) == 0
unfoldable pub starts_with : Bytes → Bytes → Bool
starts_with [] s = true
starts_with (a ∷ w) [] = false
starts_with (a ∷ w) (c ∷ s) = c == a && starts_with w s

-- s.find(w) != std::string::npos
unfoldable pub has_substring : Bytes → Bytes → Bool
unfolding starts_with
has_substring w [] = starts_with w []
has_substring w (c ∷ s) = starts_with w (c ∷ s) || has_substring w s
