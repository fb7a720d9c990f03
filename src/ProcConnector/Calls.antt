-- ===== src/ProcConnector/Calls.antt =====
-- Callbacks that note their calls: what one event leaves in the log.
use libsysinfo.Prelude.{
  ℕ, suc, ◌≤◌, ◌≡◌, refl, sym, ap, ◌∙◌, List, [], ◌∷◌, ◌++◌, map, append_assoc, append-nil, ◌==◌,
  if◌then◌else◌, inl, inr, Result, ok, throw, Result-cases, throw-ne-ok, arith,
}
use libsysinfo.ProcConnector.State.{Callback}
use libsysinfo.ProcConnector.{call_all}

-- which callback was called with which event
abbrev pub Log : Type 0 → Type 0
Log E = List (ℕ × E)

-- What the callback with a number does with an event: it returns, or it throws.
abbrev pub Behaviour : Type 0 → Type 0
Behaviour E = ℕ → E → Result (Unit {0})

-- how often a callback is subscribed
abbrev pub count : ℕ → List ℕ → ℕ
count i [] = 0
count i (j ∷ ids) = if j == i then suc (count i ids) else count i ids

pub count-append : (i j : ℕ) (ids : List ℕ) → count i ids ≤ count i (ids ++ j ∷ [])
count-append i j [] = ground arith
count-append i j (x ∷ ids) = ground (arith, count-append i j ids)

module _ {E : Type 0} where
  abbrev pub tagged : List ℕ → E → Log E
  tagged ids e = map (λ i. (i, e)) ids

  -- the events with which a callback was called, in the order of the calls
  abbrev pub calls_of : ℕ → Log E → List E
  calls_of i [] = []
  calls_of i ((j, e) ∷ log) = if j == i then e ∷ calls_of i log else calls_of i log

  pub calls_of-append : (i : ℕ) (a b : Log E) → calls_of i (a ++ b) ≡ calls_of i a ++ calls_of i b
  calls_of-append i [] b = refl
  calls_of-append i ((j, e) ∷ a) b = ground (arith, calls_of-append i a b)

  pub calls_of-none :
      (i : ℕ) (ids : List ℕ) (e : E) → count i ids ≡ 0 → calls_of i (tagged ids e) ≡ []
  calls_of-none i [] e h = refl
  calls_of-none i (j ∷ ids) e h = ground (arith, calls_of-none i ids e)

  pub calls_of-tagged :
      (i : ℕ) (ids : List ℕ) (e : E) → count i ids ≡ 1 → calls_of i (tagged ids e) ≡ e ∷ []
  calls_of-tagged i [] e h = absurd (omega arith)
  calls_of-tagged i (j ∷ ids) e h = ground (arith, calls_of-none i ids e, calls_of-tagged i ids e)

  module _ (does : Behaviour E) where
    -- The callback with this number, which notes its call.
    abbrev pub noting : ℕ → Callback E (Log E)
    noting i e log = (does i e, log ++ (i, e) ∷ [])

    -- The callbacks that an event reaches: up to the first that throws, and this one.
    unfoldable pub reached : List ℕ → E → List ℕ
    reached [] e = []
    reached (i ∷ ids) e = elim (does i e) [ ok t ↦ i ∷ reached ids e | throw x ↦ i ∷ [] ]

    -- The first exception, if one of the callbacks throws.
    unfoldable pub outcome : List ℕ → E → Result (Unit {0})
    outcome [] e = ok tt
    outcome (i ∷ ids) e = elim (does i e) [ ok t ↦ outcome ids e | throw x ↦ throw x ]

    pub call_all-noting :
        (ids : List ℕ) (e : E) (log : Log E)
        → call_all (map noting ids) e log ≡ (outcome ids e, log ++ tagged (reached ids e) e)
    unfolding call_all reached outcome
    call_all-noting [] e log = ap (λ l. (ok tt, l)) (sym (append-nil log))
    call_all-noting (i ∷ ids) e log = elim (Result-cases (does i e)) [
      | inl (t, h) ↦
          rw (h, call_all, reached, outcome)
            (call_all-noting ids e (log ++ (i, e) ∷ [])
              ∙ ap (λ l. (outcome ids e, l))
                  (append_assoc log ((i, e) ∷ []) (tagged (reached ids e) e)))
      | inr (x, h) ↦ rw (h, call_all, reached, outcome) refl
    ]

    -- Where no callback throws, the event reaches all.
    pub reached-all : (ids : List ℕ) (e : E) → outcome ids e ≡ ok tt → reached ids e ≡ ids
    unfolding reached outcome
    reached-all [] e h = refl
    reached-all (i ∷ ids) e h = elim (Result-cases (does i e)) [
      | inl (t, k) ↦ rw (k, reached) (ap (λ l. i ∷ l) (reached-all ids e (rw (k, outcome) at h)))
      | inr (x, k) ↦ absurd (throw-ne-ok (rw (k, outcome) at h))
    ]

    pub count-reached : (i : ℕ) (ids : List ℕ) (e : E) → count i (reached ids e) ≤ count i ids
    unfolding reached
    count-reached i [] e = omega arith
    count-reached i (j ∷ ids) e = elim (Result-cases (does j e)) [
      | inl (t, k) ↦ rw (k, reached) (ground (arith, count-reached i ids e))
      | inr (x, k) ↦ rw (k, reached) (ground arith)
    ]
