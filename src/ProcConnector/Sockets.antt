-- ===== src/ProcConnector/Sockets.antt =====
-- The descriptors that the constructor leaves open, and what the destructor does.
use mathlib.Core.Path.{subst}
use libsysinfo.Prelude.{
  ◌≡◌, refl, sym, ap, ◌∙◌, Bool, true, false, not, ◌||◌, List, [], ◌∷◌, if◌then◌else◌, ℤ, eqb_ℤ,
  Result, ok, throw, All, arith,
}
use libsysinfo.ProcConnector.State.{Answer, done, fails, Kernel, Callback, ProcConnector}
use libsysinfo.ProcConnector.{
  Sockets, close, own_address, bound, opened, connect, listen_message, sent, subscribe, subscribed,
  connected, construct, add_callback, listen_thread, destroy,
}
use libsysinfo.ProcessInfo.Usage.OldState.{eqb_ℤ_iff}

abbrev pub failed : Answer → Bool
failed (done rc) = false
failed (fails n) = true

abbrev pub throws {ℓ} : {A : Type ℓ} → Result A → Bool
throws (ok a) = false
throws (throw e) = true

not-if : (b : Bool) → (if b then false else true) ≡ not b
not-if true = refl
not-if false = refl

-- The descriptor is not open.
abbrev pub Absent : ℤ → Sockets → Type 0
Absent s = All (λ t. eqb_ℤ t s ≡ false)

close-Absent :
    (s : ℤ) (open_sockets : Sockets) → Absent s open_sockets → close s open_sockets ≡ open_sockets
unfolding close
close-Absent s [] h = refl
close-Absent s (t ∷ ts) h = rw h.0 (ap (◌∷◌ t) (close-Absent s ts h.1))

close_new :
    (s : ℤ) (open_sockets : Sockets)
    → Absent s open_sockets
    → close s (s ∷ open_sockets) ≡ open_sockets
unfolding close
close_new s open_sockets h = rw ((eqb_ℤ_iff s s).1 refl) (close-Absent s open_sockets h)

module _ (E W : Type 0) where
  -- the three calls of the constructor
  abbrev Left :
      Kernel → ℤ → Answer → Answer → Sockets → Result (ProcConnector E W) × Sockets → Type 0
  Left k s b m open_sockets r =
      (r.1 ≡ (if failed b then open_sockets else s ∷ open_sockets))
      × (throws r.0 ≡ (failed b || failed m))

  connected-Left :
      (k : Kernel) (s : ℤ) (b m : Answer) (open_sockets : Sockets)
      → Absent s open_sockets
      → k.send s (listen_message k) ≡ m
      → Left k s b m open_sockets (connected k (bound k s b (s ∷ open_sockets)))
  unfolding subscribe
  connected-Left k s (fails n) m open_sockets h e = (close_new s open_sockets h, refl)
  connected-Left k s (done rc) (fails n) open_sockets h e =
      (refl, ap (λ a. throws (subscribed {E = E} {W = W} s (sent k a))) e)
  connected-Left k s (done rc) (done x) open_sockets h e =
      (refl, ap (λ a. throws (subscribed {E = E} {W = W} s (sent k a))) e)

  -- Once socket has returned a descriptor that was not open, the constructor throws exactly if bind or
  -- send fails. It closes the descriptor if bind fails, and leaves it open in all other cases, so
  -- also where it throws because send fails: no object is left then that could close it.
  pub construct_sockets :
      (k : Kernel) (s : ℤ) (open_sockets : Sockets)
      → k.socket ≡ done s
      → Absent s open_sockets
      → ((construct {E = E} {W = W} k open_sockets).1
          ≡ (if failed (k.bind s (own_address k)) then open_sockets else s ∷ open_sockets))
        × (throws (construct {E = E} {W = W} k open_sockets).0
            ≡ (failed (k.bind s (own_address k)) || failed (k.send s (listen_message k))))
  unfolding construct connect
  construct_sockets k s open_sockets e h =
      let b = k.bind s (own_address k) in
      let m = k.send s (listen_message k) in
      subst (λ a. Left k s b m open_sockets (connected k (opened k a open_sockets))) (sym e)
        (connected-Left k s b m open_sockets h refl)

  -- What the owner of an object calls.
  pub data Operation : Type 0 where
    adds : Callback E W → Operation
    listens : Operation

  abbrev pub run : List Operation → ProcConnector E W → ProcConnector E W
  run [] p = p
  run (adds c ∷ os) p = run os (add_callback c p)
  run (listens ∷ os) p = run os (listen_thread p)

  abbrev pub listened : List Operation → Bool
  listened [] = false
  listened (adds c ∷ os) = listened os
  listened (listens ∷ os) = true

  run-thread :
      (os : List Operation) (p : ProcConnector E W)
      → ((run os p).thread_listen ≡ (p.thread_listen || listened os))
        × ((run os p).nl_sock ≡ p.nl_sock)
  unfolding add_callback listen_thread
  run-thread [] p = ground arith
  run-thread (adds c ∷ os) p = run-thread os (add_callback c p)
  run-thread (listens ∷ os) p = ground (arith, run-thread os (listen_thread p))

  abbrev IsIdle : Result (ProcConnector E W) → Type 0
  IsIdle (ok p) = p.thread_listen ≡ false
  IsIdle (throw e) = Unit

  subscribed-IsIdle : (s : ℤ) (r : Result (Unit {0})) → IsIdle (subscribed s r)
  subscribed-IsIdle s (ok t) = refl
  subscribed-IsIdle s (throw e) = tt

  connected-IsIdle : (k : Kernel) (r : Result ℤ × Sockets) → IsIdle (connected k r).0
  connected-IsIdle k (ok s, o) = subscribed-IsIdle s (subscribe k s)
  connected-IsIdle k (throw e, o) = tt

  constructed_idle :
      (k : Kernel) (open_sockets : Sockets) {p : ProcConnector E W}
      → (construct k open_sockets).0 ≡ ok p
      → p.thread_listen ≡ false
  unfolding construct
  constructed_idle k open_sockets h = subst IsIdle h (connected-IsIdle k (connect k open_sockets))

  -- An object whose owner has called addCallback and listen(false) in any order is destroyed without
  -- the program being terminated only if listen(false) was never called: listenBlock does not
  -- return, and its thread is neither joined nor detached.
  pub destroy-run :
      (k : Kernel) (open_sockets rest : Sockets) (os : List Operation) {p : ProcConnector E W}
      → (construct k open_sockets).0 ≡ ok p
      → destroy (run os p) rest ≡ (not (listened os), close p.nl_sock rest)
  unfolding destroy
  destroy-run k open_sockets rest os {p} h =
      let (thread, socket) = run-thread os p in
      ap (λ b. (if b then false else true, close (run os p).nl_sock rest))
        (thread ∙ ap (λ b. b || listened os) (constructed_idle k open_sockets h))
      ∙ ap (λ s. (if listened os then false else true, close s rest)) socket
      ∙ ap (λ b. (b, close p.nl_sock rest)) (not-if (listened os))
