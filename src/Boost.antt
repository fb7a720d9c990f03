-- ===== src/Boost.antt =====
-- What the program takes from Boost: regex_match, trim and split. They are parameters; the laws
-- that their documentation states are the hypotheses of `IsBoost`.
pub mod Pattern
pub mod Groups
pub mod Reference
pub mod Instance
use libsysinfo.Boost.Pattern.{Regex, Matches}
use libsysinfo.Prelude.{ℕ, Bool, false, ◌≡◌, ◌≢◌, List, [], ◌∷◌, ◌++◌, Option, none, some, All}
use libsysinfo.Text.Lines.{Lacks}
use libsysinfo.Text.{Bytes, is_space, AllOf, Stops}

pub record Boost : Type 0 where
  -- boost::regex_match(s, match, regex): match[1], match[2], ... where it matches
  pub regex_match : Regex → Bytes → Option (List Bytes)
  -- boost::algorithm::trim
  pub trim : Bytes → Bytes
  -- boost::split(parts, s, boost::is_any_of(sep)), for a single separator
  pub split : Bytes → ℕ → List Bytes

-- The last byte of the text is not of the class.
abbrev pub StopsAtEnd : (ℕ → Bool) → Bytes → Type 0
StopsAtEnd p [] = Unit
StopsAtEnd p (c ∷ []) = p c ≡ false
StopsAtEnd p (c ∷ d ∷ s) = StopsAtEnd p (d ∷ s)

-- Parts behind separators.
abbrev pub join : List Bytes → ℕ → Bytes
join [] sep = []
join (s ∷ []) sep = s
join (s ∷ t ∷ ss) sep = s ++ sep ∷ join (t ∷ ss) sep

pub record IsBoost (b : Boost) : Type 0 where
  -- what is reported as a match is one
  pub match_sound :
      (r : Regex) (s : Bytes) (caps : List Bytes) → b.regex_match r s ≡ some caps → Matches r s caps
  -- and a text that matches is found
  pub match_complete :
      (r : Regex) (s : Bytes) (caps : List Bytes) → Matches r s caps → b.regex_match r s ≢ none
  -- trim takes off the blanks at both ends
  pub trim_blanks :
      (l s r : Bytes)
      → AllOf is_space l
      → Stops is_space s
      → StopsAtEnd is_space s
      → AllOf is_space r
      → b.trim (l ++ (s ++ r)) ≡ s
  -- split finds the parts between the separators
  pub split_join :
      (s : Bytes) (ss : List Bytes) (sep : ℕ)
      → All (Lacks sep) (s ∷ ss)
      → b.split (join (s ∷ ss) sep) sep ≡ s ∷ ss
