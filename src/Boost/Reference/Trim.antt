-- ===== src/Boost/Reference/Trim.antt =====
-- A concrete trim.
use mathlib.Core.List.{reverse, reverse-append, reverse-reverse, concat-ne-nil}
use libsysinfo.Boost.{StopsAtEnd}
use libsysinfo.Prelude.{ℕ, ◌≡◌, ◌≢◌, refl, arith, ap, ◌∙◌, Bool, [], ◌∷◌, ◌++◌, All-append}
use libsysinfo.Text.{Bytes, is_space, AllOf, Stops, drop_while, drop_while-run}

-- off the end
unfoldable pub trim : Bytes → Bytes
unfolding drop_while
trim s = reverse (drop_while is_space (reverse (drop_while is_space s)))

reverse-AllOf : (p : ℕ → Bool) (s : Bytes) → AllOf p s → AllOf p (reverse s)
reverse-AllOf p [] h = tt
reverse-AllOf p (c ∷ s) h =
    rw (reverse-append (c ∷ []) s)
      (All-append _ (reverse s) (c ∷ []) (reverse-AllOf p s h.1) (h.0, tt))

Stops-append : (p : ℕ → Bool) (s r : Bytes) → s ≢ [] → Stops p s → Stops p (s ++ r)
Stops-append p [] r ne h = absurd (ne refl)
Stops-append p (c ∷ s) r ne h = h

reverse-ne-nil : (c : ℕ) (s : Bytes) → reverse (c ∷ s) ≢ []
reverse-ne-nil c s = rw (reverse-append (c ∷ []) s) (concat-ne-nil c (reverse s))

reverse-Stops : (p : ℕ → Bool) (s : Bytes) → StopsAtEnd p s → Stops p (reverse s)
reverse-Stops p [] h = tt
reverse-Stops p (c ∷ []) h = h
reverse-Stops p (c ∷ d ∷ s) h =
    rw (reverse-append (c ∷ []) (d ∷ s))
      (Stops-append p (reverse (d ∷ s)) (c ∷ []) (reverse-ne-nil d s) (reverse-Stops p (d ∷ s) h))

drop_while-AllOf : (p : ℕ → Bool) (s : Bytes) → AllOf p s → drop_while p s ≡ []
unfolding drop_while
drop_while-AllOf p [] h = refl
drop_while-AllOf p (c ∷ s) h = ground (arith, drop_while-AllOf p s h.1)

trim_end :
    (s r : Bytes)
    → StopsAtEnd is_space s
    → AllOf is_space r
    → reverse (drop_while is_space (reverse (s ++ r))) ≡ s
trim_end s r k hr =
    ap (λ t. reverse (drop_while is_space t)) (reverse-append s r)
    ∙ ap reverse (
        drop_while-run is_space (reverse r) (reverse s) (reverse-AllOf is_space r hr)
          (reverse-Stops is_space s k))
    ∙ reverse-reverse s

pub trim_blanks :
    (l s r : Bytes)
    → AllOf is_space l
    → Stops is_space s
    → StopsAtEnd is_space s
    → AllOf is_space r
    → trim (l ++ (s ++ r)) ≡ s
unfolding trim
trim_blanks l [] r hl h k hr =
    ap (λ t. reverse (drop_while is_space (reverse t)))
      (drop_while-AllOf is_space (l ++ r) (All-append _ l r hl hr))
trim_blanks l (c ∷ s) r hl h k hr =
    ap (λ t. reverse (drop_while is_space (reverse t)))
      (drop_while-run is_space l ((c ∷ s) ++ r) hl h)
    ∙ trim_end (c ∷ s) r k hr
