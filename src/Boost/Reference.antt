-- ===== src/Boost/Reference.antt =====
-- A concrete Boost that obeys the laws: a regex_match that tries every split, longest runs first,
-- a trim and a split.
pub mod Match
pub mod Trim
pub mod Split
use libsysinfo.Boost.Pattern.{
  Piece, one, many, some_of, word_or, Part, plain, group, Regex, Fits, Matches,
}
use libsysinfo.Prelude.{
  ℕ, ◌≡◌, ◌≢◌, refl, sym, ap, ◌∙◌, ◌⊎◌, inl, inr, Bool, true, false, ◌&&◌, ◌||◌, not, List, [], ◌∷◌,
  ◌++◌, append_assoc, append-nil, Option, none, some, arith, ◌==◌, if◌then◌else◌, Bool-cases,
  Option-cases, All,
}
use libsysinfo.Text.{Bytes, AllOf, same_text, same_text_iff, is_empty}

unfoldable pub all_of : (ℕ → Bool) → Bytes → Bool
all_of p [] = true
all_of p (c ∷ s) = p c && all_of p s

abbrev is_one : (ℕ → Bool) → Bytes → Bool
is_one p [] = false
is_one p (c ∷ []) = p c
is_one p (c ∷ d ∷ s) = false

unfoldable pub fits : Piece → Bytes → Bool
unfolding all_of
fits (one p) s = is_one p s
fits (many p) s = all_of p s
fits (some_of p) s = not (is_empty s) && all_of p s
fits (word_or w p) s = same_text s w || (not (is_empty s) && all_of p s)

module _ {ℓ} {X : Type ℓ} where
  -- The splits of a text, the longest first part first.
  unfoldable pub find_split : (Bytes → Bytes → Option X) → Bytes → Bytes → Option X
  find_split f run [] = f run []
  find_split f run (c ∷ s) = elim (find_split f (run ++ c ∷ []) s) [
    | some x ↦ some x
    | none ↦ f run (c ∷ s)
  ]

  pub find_split_sound :
      (f : Bytes → Bytes → Option X) (run s : Bytes) (x : X)
      → find_split f run s ≡ some x
      → (a : Bytes) × (b : Bytes) × (run ++ s ≡ a ++ b) × (f a b ≡ some x)
  unfolding find_split
  find_split_sound f run [] x h = (run, [], refl, h)
  find_split_sound f run (c ∷ s) x h = elim (Option-cases (find_split f (run ++ c ∷ []) s)) [
    | inl e ↦ (run, c ∷ s, refl, rw e at h)
    | inr (y, e) ↦
        let (a, b, p, q) = find_split_sound f (run ++ c ∷ []) s x (e ∙ (rw e at h)) in
        (a, b, sym (append_assoc run (c ∷ []) s) ∙ p, q)
  ]

  pub find_split_complete :
      (f : Bytes → Bytes → Option X) (run a b : Bytes)
      → f (run ++ a) b ≢ none
      → find_split f run (a ++ b) ≢ none
  unfolding find_split
  find_split_complete f run [] [] h = λ e. h (rw append-nil e)
  find_split_complete f run [] (c ∷ b) h = elim (Option-cases (find_split f (run ++ c ∷ []) b)) [
    | inl e ↦ rw e (λ e'. h (rw append-nil e'))
    | inr (y, e) ↦ rw e (cc)
  ]
  find_split_complete f run (c ∷ a) b h =
      elim (Option-cases (find_split f (run ++ c ∷ []) (a ++ b))) [
        | inl e ↦ absurd (find_split_complete f (run ++ c ∷ []) a b (rw append_assoc h) e)
        | inr (y, e) ↦ rw e (cc)
      ]
