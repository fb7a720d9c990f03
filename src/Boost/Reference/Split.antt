-- ===== src/Boost/Reference/Split.antt =====
-- A concrete split.
use libsysinfo.Boost.{join}
use libsysinfo.Prelude.{ℕ, ◌≡◌, refl, ap, ◌∙◌, List, [], ◌∷◌, ◌++◌, arith, if◌then◌else◌, ◌==◌, All}
use libsysinfo.Text.Lines.{on_head, Lacks}
use libsysinfo.Text.{Bytes}

unfoldable pub split : Bytes → ℕ → List Bytes
split [] sep = [] ∷ []
split (c ∷ s) sep = let rest = split s sep in if c == sep then [] ∷ rest else on_head c rest

split_end : (s : Bytes) (sep : ℕ) → Lacks sep s → split s sep ≡ s ∷ []
unfolding split
split_end [] sep h = refl
split_end (c ∷ s) sep h = ground (arith, split_end s sep h.1)

split-append : (s t : Bytes) (sep : ℕ) → Lacks sep s → split (s ++ sep ∷ t) sep ≡ s ∷ split t sep
unfolding split
split-append [] t sep h = ground arith
split-append (c ∷ s) t sep h = ground (arith, split-append s t sep h.1)

pub split_join :
    (s : Bytes) (ss : List Bytes) (sep : ℕ)
    → All (Lacks sep) (s ∷ ss)
    → split (join (s ∷ ss) sep) sep ≡ s ∷ ss
split_join s [] sep (h, _) = split_end s sep h
split_join s (t ∷ ss) sep (h, hs) = split-append s _ sep h ∙ ap (◌∷◌ s) (split_join t ss sep hs)
