-- ===== src/ProcConnector/Threads.antt =====
-- The main thread adds callbacks while the thread of listenBlock delivers events. Each call of
-- addCallback and of processEvent is one step; the source takes no lock, so that two of them never
-- overlap is an assumption here.
use libsysinfo.Prelude.{
  ok, ℕ, ◌≤◌, ◌≡◌, refl, sym, ap, ◌∙◌, true, List, [], ◌∷◌, ◌++◌, map, append_assoc, append-nil,
  arith,
}
use libsysinfo.ProcConnector.Calls.{
  Log, Behaviour, noting, reached-all, tagged, call_all-noting, calls_of, calls_of-append,
  calls_of-tagged, count, count-append,
}
use libsysinfo.ProcConnector.State.{Kernel, ProcConnector, event, error}
use libsysinfo.ProcConnector.{add_callback, listen_thread, process_event, call_all}

-- The object, the numbers of its callbacks, the events received and the calls made.
pub record Machine (E : Type 0) : Type 0 where
  pub connector : ProcConnector E (Log E)
  pub ids : List ℕ
  pub received : List E
  pub log : Log E

module _ {E : Type 0} (k : Kernel) (does : Behaviour E) where
  -- What the two threads do. A callback that throws ends the program, as does an error of recv that is
  -- no interruption: nothing catches an exception in the thread of listenBlock, so that there is no
  -- step behind it.
  pub data Step (m : Machine E) : Machine E → Type 0 where
    adds :
        (i : ℕ)
        → Step m (record m {
          connector = add_callback (noting does i) m.connector;
          ids = m.ids ++ i ∷ [];
        })
    listens : Step m (record m { connector = listen_thread m.connector })
    hears :
        (e : E)
        → m.connector.thread_listen ≡ true
        → (process_event k m.connector (event e) m.log).0 ≡ ok tt
        → Step m (record m {
          received = m.received ++ e ∷ [];
          log = (process_event k m.connector (event e) m.log).1;
        })
    interrupted :
        m.connector.thread_listen ≡ true
        → Step m (record m { log = (process_event k m.connector (error k.headers.eintr) m.log).1 })

  pub data Reach (m : Machine E) : Machine E → Type 0 where
    here : Reach m m
    next : {t u : Machine E} → Reach m t → Step t u → Reach m u

  -- The numbers are those of the callbacks.
  abbrev pub Numbered : Machine E → Type 0
  Numbered m = m.connector.subscribers ≡ map (noting does) m.ids

  map-append :
      (xs ys : List ℕ) → map (noting does) (xs ++ ys) ≡ map (noting does) xs ++ map (noting does) ys
  map-append [] ys = refl
  map-append (x ∷ xs) ys = ap (◌∷◌ (noting does x)) (map-append xs ys)

  Step-Numbered : {m n : Machine E} → Step m n → Numbered m → Numbered n
  unfolding add_callback listen_thread
  Step-Numbered {m} (adds i) h =
      ap (λ cs. cs ++ noting does i ∷ []) h ∙ sym (map-append m.ids (i ∷ []))
  Step-Numbered listens h = h
  Step-Numbered (hears e l fine) h = h
  Step-Numbered (interrupted l) h = h

  Reach-Numbered : {m n : Machine E} → Reach m n → Numbered m → Numbered n
  Reach-Numbered here h = h
  Reach-Numbered (next r s) h = Step-Numbered s (Reach-Numbered r h)

  Step-count : (i : ℕ) {m n : Machine E} → Step m n → count i m.ids ≤ count i n.ids
  Step-count i {m} (adds j) = count-append i j m.ids
  Step-count i listens = omega arith
  Step-count i (hears e l fine) = omega arith
  Step-count i (interrupted l) = omega arith

  Reach-count : (i : ℕ) {m n : Machine E} → Reach m n → count i m.ids ≤ count i n.ids
  Reach-count i here = omega arith
  Reach-count i (next r s) = omega (arith, Reach-count i r, Step-count i s)

  -- The events received since `m` are the calls of `i` since `m`.
  abbrev pub Delivered : ℕ → Machine E → Machine E → Type 0
  Delivered i m n =
      (es : List E) × (n.received ≡ m.received ++ es) × (calls_of i n.log ≡ calls_of i m.log ++ es)

  Delivered-refl : (i : ℕ) (m : Machine E) → Delivered i m m
  Delivered-refl i m = ([], sym (append-nil m.received), sym (append-nil (calls_of i m.log)))

  log-hears :
      (m : Machine E) (e : E)
      → Numbered m
      → (process_event k m.connector (event e) m.log).0 ≡ ok tt
      → (process_event k m.connector (event e) m.log).1 ≡ m.log ++ tagged m.ids e
  unfolding process_event
  log-hears m e h fine =
      let called = ap (λ cs. call_all cs e m.log) h ∙ call_all-noting does m.ids e m.log in
      ap (λ x. x.1) called
      ∙ ap (λ ids. m.log ++ tagged ids e)
          (reached-all does m.ids e (sym (ap (λ x. x.0) called) ∙ fine))

  log-interrupted :
      (m : Machine E) → (process_event k m.connector (error k.headers.eintr) m.log).1 ≡ m.log
  unfolding process_event
  log-interrupted m = ground arith

  Step-Delivered :
      (i : ℕ) (m : Machine E) {t u : Machine E}
      → Step t u
      → Numbered t
      → count i t.ids ≡ 1
      → Delivered i m t
      → Delivered i m u
  Step-Delivered i m (adds j) h once d = d
  Step-Delivered i m listens h once d = d
  Step-Delivered i m {t} (interrupted l) h once (es, r, c) =
      (es, r, ap (calls_of i) (log-interrupted t) ∙ c)
  Step-Delivered i m {t} (hears e l fine) h once (es, r, c) = (
    es ++ e ∷ [],
    ap (λ x. x ++ e ∷ []) r ∙ append_assoc m.received es (e ∷ []),
    ap (calls_of i) (log-hears t e h fine)
        ∙ calls_of-append i t.log (tagged t.ids e)
        ∙ ap (λ x. calls_of i t.log ++ x) (calls_of-tagged i t.ids e once)
        ∙ ap (λ x. x ++ e ∷ []) c
        ∙ append_assoc (calls_of i m.log) es (e ∷ []),
  )

  -- However the two threads take turns, as long as no callback has thrown, a callback that is subscribed
  -- once, at the begin and at the end, is called with exactly the events received meanwhile, each
  -- once and in their order, whichever other callbacks are added and however often recv is
  -- interrupted. A callback that throws ends the program, as does an error of recv that is no
  -- interruption: there is no turn behind it.
  pub Reach-Delivered :
      (i : ℕ) {m n : Machine E}
      → Reach m n
      → Numbered m
      → count i m.ids ≡ 1
      → count i n.ids ≡ 1
      → Delivered i m n
  Reach-Delivered i {m} here h first last = Delivered-refl i m
  Reach-Delivered i {m} (next {t} r s) h first last =
      let once : count i t.ids ≡ 1 = omega (arith, Reach-count i r, Step-count i s) in
      Step-Delivered i m s (Reach-Numbered r h) once (Reach-Delivered i r h first once)
