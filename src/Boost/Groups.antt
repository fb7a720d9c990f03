-- ===== src/Boost/Groups.antt =====
-- What a match says of its groups, and where a run of bytes ends.
use libsysinfo.Boost.Pattern.{plain, group, Regex, Fits, Matches, any}
use libsysinfo.Prelude.{ℕ, ◌≡◌, ◌≢◌, refl, sym, ap, ◌∙◌, Bool, true, false, List, [], ◌∷◌, ◌++◌}
use libsysinfo.Text.{Bytes, AllOf, Stops, take_while, drop_while, take_while-run, drop_while-run}

-- Each group fits its part of the pattern.
abbrev pub Groups : Regex → List Bytes → Type 0
Groups [] caps = Unit
Groups (plain x ∷ r) caps = Groups r caps
Groups (group x ∷ r) [] = ⊥
Groups (group x ∷ r) (c ∷ cs) = Fits x c × Groups r cs

pub Matches-Groups : (r : Regex) (s : Bytes) (caps : List Bytes) → Matches r s caps → Groups r caps
Matches-Groups [] s caps h = tt
Matches-Groups (plain x ∷ r) s caps (run, rest, _, _, m) = Matches-Groups r rest caps m
Matches-Groups (group x ∷ r) s caps (run, rest, later, _, f, e, m) =
    rw e (f, Matches-Groups r rest later m)

-- A run of a class: not empty.
abbrev pub Run : (ℕ → Bool) → Bytes → Type 0
Run p s = (s ≢ []) × AllOf p s

-- Two runs in front of texts that stop the class are the same.
pub run_unique :
    (p : ℕ → Bool) (run rest known text : Bytes)
    → AllOf p run
    → AllOf p known
    → Stops p rest
    → Stops p text
    → known ++ text ≡ run ++ rest
    → (run ≡ known) × (rest ≡ text)
run_unique p run rest known text hr hk sr st e = (
  sym (take_while-run p run rest hr sr)
      ∙ ap (take_while p) (sym e)
      ∙ take_while-run p known text hk st,
  sym (drop_while-run p run rest hr sr)
      ∙ ap (drop_while p) (sym e)
      ∙ drop_while-run p known text hk st,
)

-- what follows begins with a run of another class, or with one byte that is not of the class
pub Run-Stops :
    (p q : ℕ → Bool) (s run rest : Bytes)
    → ((c : ℕ) → q c ≡ true → p c ≡ false)
    → Run q run
    → s ≡ run ++ rest
    → Stops p s
Run-Stops p q s [] rest h (ne, a) e = absurd (ne refl)
Run-Stops p q s (c ∷ run) rest h (ne, a) e = rw e (h c a.0)

pub one-Stops :
    (p q : ℕ → Bool) (s run rest : Bytes) (c : ℕ)
    → ((d : ℕ) → q d ≡ true → p d ≡ false)
    → run ≡ c ∷ []
    → q c ≡ true
    → s ≡ run ++ rest
    → Stops p s
one-Stops p q s run rest c h k x e = rw (e, k) (h c x)

-- one byte taken off
pub one_rest :
    (s run rest t : Bytes) (c d : ℕ) → s ≡ d ∷ t → s ≡ run ++ rest → run ≡ c ∷ [] → rest ≡ t
one_rest s run rest t c d h e k =
    let all : c ∷ rest ≡ d ∷ t = ap (λ (x : Bytes). x ++ rest) (sym k) ∙ sym e ∙ h in cc

pub Run-append-Stops :
    (p q : ℕ → Bool) (run rest : Bytes)
    → ((c : ℕ) → q c ≡ true → p c ≡ false)
    → Run q run
    → Stops p (run ++ rest)
Run-append-Stops p q run rest h r = Run-Stops p q (run ++ rest) run rest h r refl

pub AllOf-any : (s : Bytes) → AllOf any s
AllOf-any [] = tt
AllOf-any (c ∷ s) = (refl, AllOf-any s)
