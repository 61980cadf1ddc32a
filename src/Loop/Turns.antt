-- ===== src/Loop/Turns.antt =====
-- How the loop of taskmasterd/src/main.cpp ends, and what a throw or a signal does to it.
use task_master.Base.{
  ℕ, nat_beq, ◌++◌, ap, ◌∙◌, List, [], ◌∷◌, Option, some, none, Bool, true, false, ◌≡◌, refl,
}
use task_master.Base.Int.{ℤ, int_key}
use task_master.Base.Assoc.{lookup}
use task_master.Exec.{
  Exec, Outcome, Returns, returned, thrown, terminated, exited, replaced, handle, continue, ◌>>=◌,
  ◌>>◌, pure,
}
use task_master.Signal
use task_master.System.{System, Callback, CallbackMap}
use task_master.Loop
use task_master.Loop.{
  Event, Round, Waited, deliver, handle_event, handle_each, handle_events, turn, main_loop,
}

-- It returns or throws: no `std::terminate`, and no forked child.
abbrev pub Settles : {S A : Type 0} → Outcome A × S → Type 0
Settles (returned a, s) = Unit {0}
Settles (thrown e, s) = Unit {0}
Settles (terminated, s) = ⊥
Settles (exited n, s) = ⊥
Settles (replaced, s) = ⊥

module _ {S A : Type 0} where
  handled : (r : Outcome A × S) (a : A) → Settles r → Returns (handle r (λ x s. (returned a, s)))
  handled (returned b, s) a h = tt
  handled (thrown e, s) a h = tt
  handled (terminated, s) a h = h
  handled (exited n, s) a h = h
  handled (replaced, s) a h = h

module _ {S A B : Type 0} where
  bind-Settles :
      (m : Exec S A) (f : A → Exec S B) (s : S)
      → Settles (m s)
      → ((a : A) (t : S) → Settles (f a t))
      → Settles ((m >>= f) s)
  bind-Settles m f s h k = go (m s) h
    where
      go : (r : Outcome A × S) → Settles r → Settles (continue r f)
      go (returned a, t) h = k a t
      go (thrown e, t) h = tt
      go (terminated, t) h = h
      go (exited n, t) h = h
      go (replaced, t) h = h

  bind-Returns :
      (m : Exec S A) (f : A → Exec S B) (s : S)
      → Returns (m s)
      → ((a : A) (t : S) → Returns (f a t))
      → Returns ((m >>= f) s)
  bind-Returns m f s h k = go (m s) h
    where
      go : (r : Outcome A × S) → Returns r → Returns (continue r f)
      go (returned a, t) h = k a t
      go (thrown e, t) h = absurd h
      go (terminated, t) h = absurd h
      go (exited n, t) h = absurd h
      go (replaced, t) h = absurd h

module _ {D : Type 0} (system : D → System) (run : Callback → Exec (D × Signal.State) Unit) where
  call-Settles :
      ((cb : Callback) (s : D × Signal.State) → Settles (run cb s))
      → (o : Option (Option Callback)) (s : D × Signal.State) → Settles (Loop.call system run o s)
  unfolding Loop.call
  call-Settles h none s = tt
  call-Settles h (some none) s = tt
  call-Settles h (some (some cb)) s = h cb s

  call_if-Settles :
      ((cb : Callback) (s : D × Signal.State) → Settles (run cb s))
      → (b : Bool) (callbacks : System → CallbackMap) (fd : ℤ) (s : D × Signal.State)
      → Settles (Loop.call_if system run b callbacks fd s)
  call_if-Settles h true callbacks fd s = call-Settles h (lookup fd (callbacks (system s.0))) s
  call_if-Settles h false callbacks fd s = tt

  handle_event-Returns :
      ((cb : Callback) (s : D × Signal.State) → Settles (run cb s))
      → (e : Event) (s : D × Signal.State) → Returns (handle_event system run e s)
  unfolding handle_event
  handle_event-Returns h e s =
      let reads = Loop.call_if system run e.readable (λ s. s.read_callbacks) e.fd in
      let writes = Loop.call_if system run e.writable (λ s. s.write_callbacks) e.fd in
      handled ((reads >>= (λ _. writes)) s) tt (
        bind-Settles reads (λ _. writes) s
          (call_if-Settles h e.readable (λ s. s.read_callbacks) e.fd s)
          (λ a t. call_if-Settles h e.writable (λ s. s.write_callbacks) e.fd t))

  -- Every event of a batch is handled, whatever the callbacks throw: the batch returns, unless a
  -- callback ends the program.
  pub handle_each-Returns :
      ((cb : Callback) (s : D × Signal.State) → Settles (run cb s))
      → (es : List Event) (s : D × Signal.State) → Returns (handle_each system run es s)
  unfolding handle_each
  handle_each-Returns h [] s = tt
  handle_each-Returns h (e ∷ es) s =
      bind-Returns (handle_event system run e) _ s (handle_event-Returns h e s)
        (λ a t. handle_each-Returns h es t)

abbrev pub written : List ℕ → Signal.State → Signal.State
written [] st = st
written (n ∷ ns) st = written ns (Signal.signal_handler n)

written_last :
    (ns : List ℕ) (n : ℕ) (st : Signal.State)
    → nat_beq n 1 ≡ false
    → written (ns ++ n ∷ []) st ≡ Signal.State.terminated
unfolding Signal.signal_handler
written_last [] n st h = rw h refl
written_last (m ∷ ns) n st h = written_last ns n (Signal.signal_handler m) h

module _ {D : Type 0} (system : D → System) (run : Callback → Exec (D × Signal.State) Unit) where
  deliver_lem :
      (ns : List ℕ) (s : D × Signal.State)
      → deliver system run ns s ≡ (returned tt, (s.0, written ns s.1))
  unfolding deliver
  deliver_lem [] s = refl
  deliver_lem (n ∷ ns) s = deliver_lem ns (s.0, Signal.signal_handler n)

  module _ (update reload : Exec (D × Signal.State) Unit) where
    abbrev loop : List Round → Exec (D × Signal.State) Bool
    loop = main_loop system run update reload

    abbrev updated : Exec (D × Signal.State) Bool
    updated = update >> pure true

    abbrev signalled : List ℕ → Unit {0} → Exec (D × Signal.State) Bool
    signalled ns a = deliver system run ns >> updated

    abbrev Leaves : Signal.State → Outcome Bool × (D × Signal.State) → Type 0
    Leaves st r = (e : D) × (r ≡ (returned true, (e, st)))

    updated-Leaves :
        (y : Outcome Unit × (D × Signal.State)) (st : Signal.State)
        → y.1.1 ≡ st
        → Returns (continue y (λ a. pure true))
        → Leaves st (continue y (λ a. pure true))
    updated-Leaves (returned a, v) st q r = (v.0, ap (λ z. (returned true, (v.0, z))) q)
    updated-Leaves (thrown e, v) st q r = absurd r
    updated-Leaves (terminated, v) st q r = absurd r
    updated-Leaves (exited n, v) st q r = absurd r
    updated-Leaves (replaced, v) st q r = absurd r

    -- What the signals during a round of RUNNING write is what it leaves, if it returns.
    signalled-Leaves :
        ((s : D × Signal.State) → (update s).1.1 ≡ s.1)
        → (ns : List ℕ) (n : ℕ) (x : Outcome Unit × (D × Signal.State)) → nat_beq n 1 ≡ false
        → Returns (continue x (signalled (ns ++ n ∷ [])))
        → Leaves Signal.State.terminated (continue x (signalled (ns ++ n ∷ [])))
    signalled-Leaves keeps ns n (returned a, t) h r =
        let u : D × Signal.State = (t.0, Signal.State.terminated) in
        let e : deliver system run (ns ++ n ∷ []) t ≡ (returned tt, u) =
          deliver_lem (ns ++ n ∷ []) t
          ∙ ap (λ z. (returned tt, (t.0, z))) (written_last ns n t.1 h) in
        rw (e) (updated-Leaves (update u) Signal.State.terminated (keeps u) (rw (e) at r))
    signalled-Leaves keeps ns n (thrown e, t) h r = absurd r
    signalled-Leaves keeps ns n (terminated, t) h r = absurd r
    signalled-Leaves keeps ns n (exited m, t) h r = absurd r
    signalled-Leaves keeps ns n (replaced, t) h r = absurd r

    -- A SIGINT or SIGQUIT that comes last among the signals during a round of RUNNING ends the loop at the
    -- next `switch`.
    pub main_loop_ends :
        ((s : D × Signal.State) → (update s).1.1 ≡ s.1)
        → (wait next : Waited) (later ns : List ℕ) (n : ℕ) (rest : List Round) (d : D)
        → nat_beq n 1 ≡ false
        → let round : Round = record { before = []; wait = wait; during = ns ++ n ∷ [] } in
          let last : Round = record { before = []; wait = next; during = later } in
          let s : D × Signal.State = (d, Signal.State.running) in
          Returns (turn system run update reload round s)
          → (e : D) × (loop (round ∷ last ∷ rest) s
              ≡ (returned false, (e, Signal.State.terminated)))
    unfolding main_loop turn Loop.turn_in deliver
    main_loop_ends keeps wait next later ns n rest d h r =
        let x = handle_events system run wait (d, Signal.State.running) in
        let (e, q) = signalled-Leaves keeps ns n x h r in (e, rw (q) refl)
