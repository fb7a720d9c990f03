-- ===== src/Boost/Pattern.antt =====
-- The regular expressions of the program, all of them sequences of pieces: a piece is one byte
-- of a class, a run of such bytes, or a run of digits or a given word; it may be a group.
use libsysinfo.Prelude.{ℕ, ◌≡◌, ◌≢◌, ◌⊎◌, Bool, true, List, [], ◌∷◌, ◌++◌, ◌==◌}
use libsysinfo.Text.{Bytes, AllOf}

pub data Piece : Type 0 where
  -- [[:digit:]]
  one : (ℕ → Bool) → Piece
  -- [[:digit:]]*
  many : (ℕ → Bool) → Piece
  -- [[:digit:]]+
  some_of : (ℕ → Bool) → Piece
  -- word|[[:digit:]]+
  word_or : Bytes → (ℕ → Bool) → Piece

pub data Part : Type 0 where
  plain : Piece → Part
  -- ( ... )
  group : Piece → Part

abbrev pub Regex : Type 0
Regex = List Part

-- The byte `c` itself.
abbrev pub lit : ℕ → Part
lit c = plain (one (λ d. d == c))

-- The class of the dot.
abbrev pub any : ℕ → Bool
any c = true

-- The texts of a piece.
abbrev pub Fits : Piece → Bytes → Type 0
Fits (one p) s = (c : ℕ) × (s ≡ c ∷ []) × (p c ≡ true)
Fits (many p) s = AllOf p s
Fits (some_of p) s = (s ≢ []) × AllOf p s
Fits (word_or w p) s = (s ≡ w) ⊎ ((s ≢ []) × AllOf p s)

-- The whole text `s` matches, and the groups hold `caps`.
abbrev pub Matches : Regex → Bytes → List Bytes → Type 0
Matches [] s caps = (s ≡ []) × (caps ≡ [])
Matches (plain x ∷ r) s caps =
    (run : Bytes) × (rest : Bytes) × (s ≡ run ++ rest) × Fits x run × Matches r rest caps
Matches (group x ∷ r) s caps =
    (run : Bytes) × (rest : Bytes) × (later : List Bytes) × (s ≡ run ++ rest)
    × Fits x run
    × (caps ≡ run ∷ later)
    × Matches r rest later
