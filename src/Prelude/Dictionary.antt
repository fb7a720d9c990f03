-- ===== src/Prelude/Dictionary.antt =====
-- A dictionary as an association list, for keys with a Boolean test of equality.
use mathlib.Core.Bool.{Bool, true}
use mathlib.Core.List.{List, [], ◌∷◌}
use mathlib.Core.Logic.{◌↔◌}
use mathlib.Core.Option.{Option, none, some}
use mathlib.Core.Path.{◌≡◌, refl, ap, ◌∙◌}
use native.Mathlib.Omega.{arith}
use libsysinfo.Prelude.Tests.{if◌then◌else◌}

module _ {K V : Type 0} (eq : K → K → Bool) where
  unfoldable pub find : K → List (K × V) → Option V
  find key [] = none
  find key ((k, v) ∷ m) = if eq k key then some v else find key m

  -- m[key] = value
  unfoldable pub assign : K → V → List (K × V) → List (K × V)
  assign key value [] = (key, value) ∷ []
  assign key value ((k, v) ∷ m) = if eq k key then (key, value) ∷ m else (k, v) ∷ assign key value m

  -- one assignment after the other
  unfoldable pub assign_all : List (K × V) → List (K × V) → List (K × V)
  assign_all [] m = m
  assign_all ((k, v) ∷ ws) m = assign_all ws (assign k v m)

  -- the value of the last assignment to the key; `old` if there is none
  abbrev pub last_value : K → List (K × V) → Option V → Option V
  last_value key [] old = old
  last_value key ((k, v) ∷ ws) old = last_value key ws (if eq k key then some v else old)

  module _ (eq_iff : (a b : K) → (eq a b ≡ true) ↔ (a ≡ b)) where
    pub find-assign :
        (j k : K) (v : V) (m : List (K × V))
        → find j (assign k v m) ≡ (if eq k j then some v else find j m)
    unfolding find assign
    find-assign j k v [] = refl
    find-assign j k v ((i, w) ∷ m) =
        ground (arith, eq_iff i k, eq_iff i j, eq_iff k j, find-assign j k v m)

    pub find-assign_all :
        (key : K) (ws m : List (K × V))
        → find key (assign_all ws m) ≡ last_value key ws (find key m)
    unfolding assign_all
    find-assign_all key [] m = refl
    find-assign_all key ((k, v) ∷ ws) m =
        find-assign_all key ws (assign k v m) ∙ ap (last_value key ws) (find-assign key k v m)
