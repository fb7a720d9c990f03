-- ===== src/Boost/Reference/Match.antt =====
-- The concrete regex_match finds matches, and finds one where there is one.
use libsysinfo.Boost.Pattern.{
  Piece, one, many, some_of, word_or, plain, group, Regex, Fits, Matches,
}
use libsysinfo.Boost.Reference.{all_of, fits, find_split, find_split_sound, find_split_complete}
use libsysinfo.Prelude.{
  ℕ, ◌≡◌, ◌≢◌, refl, inl, inr, Bool, true, false, List, [], ◌∷◌, Option, none, some, arith,
  if◌then◌else◌, Bool-cases,
}
use libsysinfo.Text.{Bytes, AllOf, same_text, same_text_iff, is_empty}

all_of-AllOf : (p : ℕ → Bool) (s : Bytes) → all_of p s ≡ true → AllOf p s
unfolding all_of
all_of-AllOf p [] h = tt
all_of-AllOf p (c ∷ s) h = ground (arith, all_of-AllOf p s)

AllOf-all_of : (p : ℕ → Bool) (s : Bytes) → AllOf p s → all_of p s ≡ true
unfolding all_of
AllOf-all_of p [] h = refl
AllOf-all_of p (c ∷ s) h = ground (arith, AllOf-all_of p s h.1)

some_of-Fits : (p : ℕ → Bool) (s : Bytes) → fits (some_of p) s ≡ true → Fits (some_of p) s
unfolding fits
some_of-Fits p [] h = absurd (cc)
some_of-Fits p (c ∷ s) h = (cc, all_of-AllOf p (c ∷ s) h)

fits-Fits : (x : Piece) (s : Bytes) → fits x s ≡ true → Fits x s
unfolding fits
fits-Fits (one p) [] h = absurd (cc)
fits-Fits (one p) (c ∷ []) h = (c, refl, h)
fits-Fits (one p) (c ∷ d ∷ s) h = absurd (cc)
fits-Fits (many p) s h = all_of-AllOf p s h
fits-Fits (some_of p) s h = some_of-Fits p s h
fits-Fits (word_or w p) s h = elim (Bool-cases (same_text s w)) [
  | inl e ↦ inl ((same_text_iff s w).0 e)
  | inr e ↦ inr (some_of-Fits p s (rw e at h))
]

Fits-fits : (x : Piece) (s : Bytes) → Fits x s → fits x s ≡ true
unfolding fits
Fits-fits (one p) s (c, e, h) = rw e h
Fits-fits (many p) s h = AllOf-all_of p s h
Fits-fits (some_of p) [] h = absurd (h.0 refl)
Fits-fits (some_of p) (c ∷ s) h = AllOf-all_of p (c ∷ s) h.1
Fits-fits (word_or w p) s (inl e) = ground (arith, same_text_iff s w)
Fits-fits (word_or w p) [] (inr h) = absurd (h.0 refl)
Fits-fits (word_or w p) (c ∷ s) (inr h) = ground (arith, AllOf-all_of p (c ∷ s) h.1)

abbrev with_group : Bytes → Option (List Bytes) → Option (List Bytes)
with_group run none = none
with_group run (some caps) = some (run ∷ caps)

-- one try of a split
abbrev attempt : Piece → (Bytes → Option (List Bytes)) → Bytes → Bytes → Option (List Bytes)
attempt x k run rest = if fits x run then k rest else none

abbrev attempt_group : Piece → (Bytes → Option (List Bytes)) → Bytes → Bytes → Option (List Bytes)
attempt_group x k run rest = if fits x run then with_group run (k rest) else none

unfoldable pub regex_match : Regex → Bytes → Option (List Bytes)
unfolding find_split fits
regex_match [] s = if is_empty s then some [] else none
regex_match (plain x ∷ r) s = find_split (attempt x (regex_match r)) [] s
regex_match (group x ∷ r) s = find_split (attempt_group x (regex_match r)) [] s

if-some :
    {X : Type 0} (b : Bool) (o : Option X) (x : X)
    → (if b then o else none) ≡ some x
    → (b ≡ true) × (o ≡ some x)
if-some true o x h = (refl, h)
if-some false o x h = absurd (cc)

with_group-some :
    (run : Bytes) (o : Option (List Bytes)) (caps : List Bytes)
    → with_group run o ≡ some caps
    → (later : List Bytes) × (o ≡ some later) × (caps ≡ run ∷ later)
with_group-some run none caps h = absurd (cc)
with_group-some run (some later) caps h = (later, refl, cc)

pub regex_match_sound :
    (r : Regex) (s : Bytes) (caps : List Bytes) → regex_match r s ≡ some caps → Matches r s caps
unfolding regex_match
regex_match_sound [] [] caps h = (refl, cc)
regex_match_sound [] (c ∷ s) caps h = absurd (cc)
regex_match_sound (plain x ∷ r) s caps h =
    let (a, b, e, q) = find_split_sound (attempt x (regex_match r)) [] s caps h in
    let (t, m) = if-some (fits x a) (regex_match r b) caps q in
    (a, b, e, fits-Fits x a t, regex_match_sound r b caps m)
regex_match_sound (group x ∷ r) s caps h =
    let (a, b, e, q) = find_split_sound (attempt_group x (regex_match r)) [] s caps h in
    let (t, m) = if-some (fits x a) (with_group a (regex_match r b)) caps q in
    let (later, n, k) = with_group-some a (regex_match r b) caps m in
    (a, b, later, e, fits-Fits x a t, k, regex_match_sound r b later n)

with_group-none : (run : Bytes) (o : Option (List Bytes)) → o ≢ none → with_group run o ≢ none
with_group-none run none h = absurd (h refl)
with_group-none run (some later) h = cc

pub regex_match_complete :
    (r : Regex) (s : Bytes) (caps : List Bytes) → Matches r s caps → regex_match r s ≢ none
unfolding regex_match
regex_match_complete [] s caps (e, _) = rw e (cc)
regex_match_complete (plain x ∷ r) s caps (a, b, e, f, m) = rw e (
    find_split_complete (attempt x (regex_match r)) [] a b
      (rw (Fits-fits x a f) (regex_match_complete r b caps m)))
regex_match_complete (group x ∷ r) s caps (a, b, later, e, f, k, m) = rw e (
    find_split_complete (attempt_group x (regex_match r)) [] a b (
      rw (Fits-fits x a f)
        (with_group-none a (regex_match r b) (regex_match_complete r b later m))))
