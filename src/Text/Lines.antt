-- ===== src/Text/Lines.antt =====
-- std::getline: one call, and the loop `while (std::getline(in, line, d))` over a whole stream.
use libsysinfo.Prelude.{
  ℕ, ◌≡◌, refl, false, List, [], ◌∷◌, ◌++◌, arith, ◌==◌, if◌then◌else◌, All, ap, ◌∙◌,
}
use libsysinfo.Text.Basic.{Bytes}

-- What getline stores: the bytes before the first `d`, or all.
unfoldable pub before : ℕ → Bytes → Bytes
before d [] = []
before d (c ∷ s) = if c == d then [] else c ∷ before d s

-- What getline leaves in the stream: the bytes behind the first `d`, or none.
unfoldable pub after : ℕ → Bytes → Bytes
after d [] = []
after d (c ∷ s) = if c == d then s else after d s

abbrev pub on_head : ℕ → List Bytes → List Bytes
on_head c [] = (c ∷ []) ∷ []
on_head c (l ∷ ls) = (c ∷ l) ∷ ls

-- The lines that the loop sees. There is no last line behind a final `d`.
unfoldable pub lines : ℕ → Bytes → List Bytes
lines d [] = []
lines d (c ∷ s) = let rest = lines d s in if c == d then [] ∷ rest else on_head c rest

abbrev pub Lacks : ℕ → Bytes → Type 0
Lacks d = All (λ c. (c == d) ≡ false)

-- Every line behind its delimiter, as the kernel writes them.
unfoldable pub unlines : ℕ → List Bytes → Bytes
unlines d [] = []
unlines d (l ∷ ls) = l ++ d ∷ unlines d ls

lines-append : (d : ℕ) (l rest : Bytes) → Lacks d l → lines d (l ++ d ∷ rest) ≡ l ∷ lines d rest
unfolding lines
lines-append d [] rest h = ground arith
lines-append d (c ∷ l) rest h = ground (arith, lines-append d l rest h.1)

-- The loop reads back what was written line by line.
pub lines-unlines : (d : ℕ) (ls : List Bytes) → All (Lacks d) ls → lines d (unlines d ls) ≡ ls
unfolding lines unlines
lines-unlines d [] h = refl
lines-unlines d (l ∷ ls) (hl, hs) =
    unfold unlines in (lines-append d l (unlines d ls) hl ∙ ap (◌∷◌ l) (lines-unlines d ls hs))

pub before-append : (d : ℕ) (l rest : Bytes) → Lacks d l → before d (l ++ d ∷ rest) ≡ l
unfolding before
before-append d [] rest h = ground arith
before-append d (c ∷ l) rest h = ground (arith, before-append d l rest h.1)

pub after-append : (d : ℕ) (l rest : Bytes) → Lacks d l → after d (l ++ d ∷ rest) ≡ rest
unfolding after
after-append d [] rest h = ground arith
after-append d (c ∷ l) rest h = ground (arith, after-append d l rest h.1)

pub before-Lacks : (d : ℕ) (s : Bytes) → Lacks d s → before d s ≡ s
unfolding before
before-Lacks d [] h = refl
before-Lacks d (c ∷ s) h = ground (arith, before-Lacks d s h.1)
