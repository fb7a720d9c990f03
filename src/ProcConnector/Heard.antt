-- ===== src/ProcConnector/Heard.antt =====
-- What the loop of listenBlock delivers.
use libsysinfo.Prelude.{
  ℕ, ◌≡◌, refl, sym, ap, ◌∙◌, List, [], ◌∷◌, ◌++◌, map, append_assoc, append-nil, ◌==◌, ==_iff,
  if◌then◌else◌, Bool-cases, inl, inr, Result, ok, throw, message, Result-cases, Bool, true, false,
  arith,
}
use libsysinfo.ProcConnector.Calls.{
  Log, Behaviour, noting, reached, outcome, tagged, call_all-noting, reached-all, count-reached,
  calls_of, calls_of-append, calls_of-none, calls_of-tagged, count,
}
use libsysinfo.ProcConnector.State.{Kernel, ProcConnector, Received, event, error}
use libsysinfo.ProcConnector.{process_event, listen_block, call_all}

module _ {E : Type 0} (does : Behaviour E) where
  -- the first where nothing is thrown, the second where something is
  abbrev on_outcome : {A : Type 0} → Result (Unit {0}) → A → A → A
  on_outcome (ok t) a b = a
  on_outcome (throw x) a b = b

  -- The events of which the callback `i` is told: those in front of the first error that is no
  -- interruption and of the first event for which a callback throws, and of that event if `i`
  -- is reached before.
  abbrev pub heard : Kernel → ℕ → List ℕ → List (Received E) → List E
  heard k i ids [] = []
  heard k i ids (event e ∷ ms) =
      on_outcome (outcome does ids e) (e ∷ heard k i ids ms)
        (if count i (reached does ids e) == 1 then e ∷ [] else [])
  heard k i ids (error n ∷ ms) = if n == k.headers.eintr then heard k i ids ms else []

  -- What is thrown: that error, or the exception of that callback; none if there is no such.
  abbrev pub ended : Kernel → List ℕ → List (Received E) → Result (Unit {0})
  ended k ids [] = ok tt
  ended k ids (event e ∷ ms) = on_outcome (outcome does ids e) (ended k ids ms) (outcome does ids e)
  ended k ids (error n ∷ ms) =
      if n == k.headers.eintr then ended k ids ms else throw (message (k.strerror n))

  -- what is done with the outcome of one processEvent
  abbrev and_listen :
      Kernel
      → ProcConnector E (Log E)
      → List (Received E)
      → Result (Unit {0}) × Log E
      → Result (Unit {0}) × Log E
  and_listen k p ms (ok t, log) = listen_block k p ms log
  and_listen k p ms (throw x, log) = (throw x, log)

  and_listen-eq :
      (k : Kernel) (p : ProcConnector E (Log E)) (ms : List (Received E))
      (x : Result (Unit {0}) × Log E)
      → (elim x.0 as (λ _. Result (Unit {0}) × Log E) [
        | ok t ↦ listen_block k p ms x.1
        | throw y ↦ (throw y, x.1)
      ])
        ≡ and_listen k p ms x
  and_listen-eq k p ms (ok t, log) = refl
  and_listen-eq k p ms (throw x, log) = refl

  listen_block-event :
      (k : Kernel) (p : ProcConnector E (Log E)) (ids : List ℕ) (e : E) (ms : List (Received E))
      (log : Log E)
      → p.subscribers ≡ map (noting does) ids
      → listen_block k p (event e ∷ ms) log
        ≡ and_listen k p ms (outcome does ids e, log ++ tagged (reached does ids e) e)
  unfolding listen_block process_event
  listen_block-event k p ids e ms log h =
      and_listen-eq k p ms (call_all p.subscribers e log)
      ∙ ap (and_listen k p ms) (ap (λ cs. call_all cs e log) h ∙ call_all-noting does ids e log)

  if-outcome :
      (b : Bool) (x y : Result (Unit {0}) × Log E)
      (f : Result (Unit {0}) × Log E → Result (Unit {0}) × Log E)
      → f (if b then x else y) ≡ (if b then f x else f y)
  if-outcome true x y f = refl
  if-outcome false x y f = refl

  listen_block-error :
      (k : Kernel) (p : ProcConnector E (Log E)) (n : ℕ) (ms : List (Received E)) (log : Log E)
      → listen_block k p (error n ∷ ms) log ≡ (
          if n == k.headers.eintr
          then listen_block k p ms log
          else (throw (message (k.strerror n)), log))
  unfolding listen_block process_event
  listen_block-error k p n ms log =
      if-outcome (n == k.headers.eintr) (ok tt, log) (throw (message (k.strerror n)), log)
        (λ x. elim x.0 as (λ _. Result (Unit {0}) × Log E) [
          | ok t ↦ listen_block k p ms x.1
          | throw y ↦ (throw y, x.1)
        ])

  -- the call of a callback that is subscribed once, for the event at which another throws
  calls_of-reached :
      (i : ℕ) (ids : List ℕ) (e : E)
      → count i ids ≡ 1
      → calls_of i (tagged (reached does ids e) e)
        ≡ (if count i (reached does ids e) == 1 then e ∷ [] else [])
  calls_of-reached i ids e once = elim (Bool-cases (count i (reached does ids e) == 1)) [
    | inl h ↦
        rw h
          (calls_of-tagged i (reached does ids e) e ((==_iff (count i (reached does ids e)) 1).0 h))
    | inr h ↦
        rw h (calls_of-none i (reached does ids e) e (ground (arith, count-reached does i ids e)))
  ]

  -- Whichever callbacks throw at whichever events: a callback that is subscribed once is called once with every event that
  -- the kernel sends in front of the first error other than an interruption and of the first event
  -- for which a callback throws, in their order, and with that event if no callback in front of it
  -- throws. The loop is left by throwing the text of that error or that exception, and by nothing
  -- else.
  pub listen_block-heard :
      (k : Kernel) (p : ProcConnector E (Log E)) (ids : List ℕ) (i : ℕ) (ms : List (Received E))
      (log : Log E)
      → p.subscribers ≡ map (noting does) ids
      → count i ids ≡ 1
      → ((listen_block k p ms log).0 ≡ ended k ids ms)
        × (calls_of i (listen_block k p ms log).1 ≡ calls_of i log ++ heard k i ids ms)
  unfolding listen_block
  listen_block-heard k p ids i [] log h once = (refl, sym (append-nil (calls_of i log)))
  listen_block-heard k p ids i (event e ∷ ms) log h once =
      let step = listen_block-event k p ids e ms log h in
      let next = log ++ tagged (reached does ids e) e in
      let rest = heard k i ids ms in
      let last = if count i (reached does ids e) == 1 then e ∷ [] else [] in
      elim (Result-cases (outcome does ids e)) [
        | inl (t, fine) ↦
            let (result, calls) = listen_block-heard k p ids i ms next h once in
            let same : listen_block k p (event e ∷ ms) log ≡ listen_block k p ms next =
              step ∙ ap (λ r. and_listen k p ms (r, next)) fine in
            (
              ap (λ x. x.0) same
                  ∙ result
                  ∙ sym (ap (λ o. on_outcome o (ended k ids ms) (outcome does ids e)) fine),
              ap (λ x. calls_of i x.1) same
                  ∙ calls
                  ∙ ap (λ l. l ++ rest)
                      (calls_of-append i log (tagged (reached does ids e) e)
                        ∙ ap (λ l. calls_of i log ++ calls_of i (tagged l e))
                            (reached-all does ids e fine)
                        ∙ ap (λ l. calls_of i log ++ l) (calls_of-tagged i ids e once))
                  ∙ append_assoc (calls_of i log) (e ∷ []) rest
                  ∙ ap (λ l. calls_of i log ++ l)
                      (sym (ap (λ o. on_outcome o (e ∷ rest) last) fine)),
            )
        | inr (x, thrown) ↦
            let same : listen_block k p (event e ∷ ms) log ≡ (throw x, next) =
              step ∙ ap (λ r. and_listen k p ms (r, next)) thrown in
            (
              ap (λ y. y.0) same
                  ∙ sym thrown
                  ∙ sym (ap (λ o. on_outcome o (ended k ids ms) (outcome does ids e)) thrown),
              ap (λ y. calls_of i y.1) same
                  ∙ calls_of-append i log (tagged (reached does ids e) e)
                  ∙ ap (λ l. calls_of i log ++ l)
                      (calls_of-reached i ids e once
                        ∙ sym (ap (λ o. on_outcome o (e ∷ rest) last) thrown)),
            )
      ]
  listen_block-heard k p ids i (error n ∷ ms) log h once =
      elim (Bool-cases (n == k.headers.eintr)) [
        | inl e ↦
            rw (listen_block-error k p n ms log) (rw e (listen_block-heard k p ids i ms log h once))
        | inr e ↦
            rw (listen_block-error k p n ms log) (rw e (refl, sym (append-nil (calls_of i log))))
      ]
