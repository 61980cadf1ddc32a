-- ===== src/Loop/Keeping.antt =====
-- What the callbacks, `update` and `reload` keep, the loop of taskmasterd/src/main.cpp keeps.
use task_master.Base.{ℕ, List, [], ◌∷◌, Option, some, none, Bool, true, false}
use task_master.Base.Int.{ℤ, int_key}
use task_master.Base.Assoc.{lookup}
use task_master.Exec.{Exec, pure, ◌>>◌}
use task_master.Exec.Keeps.{Keeps, bind-Keeps, then-Keeps, catch-Keeps}
use task_master.Signal
use task_master.System.{System, Callback, CallbackMap}
use task_master.Loop
use task_master.Loop.{
  Event, Waited, Round, deliver, ready, interrupted, refused, handle_event, handle_each,
  handle_events, turn, main_loop,
}

module _ {D : Type 0} (system : D → System) (run : Callback → Exec (D × Signal.State) Unit)
    (Q : D → Type 0) (keeps : (cb : Callback) → Keeps (λ s. Q s.0) (run cb)) where
  abbrev Kept : D × Signal.State → Type 0
  Kept s = Q s.0

  call-Keeps : (o : Option (Option Callback)) → Keeps Kept (Loop.call system run o)
  unfolding Loop.call
  call-Keeps none = λ s h. h
  call-Keeps (some none) = λ s h. h
  call-Keeps (some (some cb)) = keeps cb

  call_if-Keeps :
      (b : Bool) (callbacks : System → CallbackMap) (fd : ℤ)
      → Keeps Kept (Loop.call_if system run b callbacks fd)
  call_if-Keeps true callbacks fd s = call-Keeps (lookup fd (callbacks (system s.0))) s
  call_if-Keeps false callbacks fd s = λ h. h

  handle_event-Keeps : (e : Event) → Keeps Kept (handle_event system run e)
  unfolding handle_event
  handle_event-Keeps e =
      let on_read = Loop.call_if system run e.readable (λ s. s.read_callbacks) e.fd in
      let on_write = Loop.call_if system run e.writable (λ s. s.write_callbacks) e.fd in
      catch-Keeps Kept (on_read >> on_write) (λ x. pure tt)
        (then-Keeps Kept on_read on_write (call_if-Keeps e.readable (λ s. s.read_callbacks) e.fd)
          (call_if-Keeps e.writable (λ s. s.write_callbacks) e.fd))
        (λ x s h. h)

  handle_each-Keeps : (es : List Event) → Keeps Kept (handle_each system run es)
  unfolding handle_each
  handle_each-Keeps [] = λ s h. h
  handle_each-Keeps (e ∷ es) =
      then-Keeps Kept (handle_event system run e) (handle_each system run es) (handle_event-Keeps e)
        (handle_each-Keeps es)

  pub handle_events-Keeps : (wait : Waited) → Keeps Kept (handle_events system run wait)
  unfolding handle_events
  handle_events-Keeps (ready es) = handle_each-Keeps es
  handle_events-Keeps interrupted = λ s h. h
  handle_events-Keeps refused = λ s h. h

  deliver-Keeps : (ns : List ℕ) → Keeps Kept (deliver system run ns)
  unfolding deliver
  deliver-Keeps [] = λ s h. h
  deliver-Keeps (n ∷ ns) = λ s h. deliver-Keeps ns (s.0, Signal.signal_handler n) h

  module _ (update reload : Exec (D × Signal.State) Unit) (kept_update : Keeps (λ s. Q s.0) update)
      (kept_reload : Keeps (λ s. Q s.0) reload) where
    turn_in-Keeps :
        (round : Round) (st : Signal.State)
        → Keeps Kept (Loop.turn_in system run update reload round st)
    unfolding Loop.turn_in
    turn_in-Keeps round Signal.State.running =
        let signals = deliver system run round.during in
        then-Keeps Kept (handle_events system run round.wait) (signals >> (update >> pure true))
          (handle_events-Keeps round.wait)
          (then-Keeps Kept signals (update >> pure true) (deliver-Keeps round.during)
            (then-Keeps Kept update (pure true) kept_update (λ s h. h)))
    turn_in-Keeps round Signal.State.reload =
        let signals = deliver system run round.during in
        let done = Loop.set_state system run update reload Signal.State.running >> pure true in
        then-Keeps Kept reload (signals >> done) kept_reload
          (then-Keeps Kept signals done (deliver-Keeps round.during) (λ s h. h))
    turn_in-Keeps round Signal.State.terminated = λ s h. h

    turn-Keeps : (round : Round) → Keeps Kept (turn system run update reload round)
    unfolding turn
    turn-Keeps round =
        then-Keeps Kept (deliver system run round.before)
          (Loop.switch system run update reload round) (deliver-Keeps round.before)
          (λ s. turn_in-Keeps round s.1 s)

    pub main_loop-Keeps :
        (rounds : List Round) → Keeps Kept (main_loop system run update reload rounds)
    unfolding main_loop
    main_loop-Keeps [] = λ s h. h
    main_loop-Keeps (round ∷ rounds) =
        let again = main_loop system run update reload rounds in
        bind-Keeps Kept (turn system run update reload round)
          (Loop.and_then system run update reload again) (turn-Keeps round)
          (go again (main_loop-Keeps rounds))
      where
        go :
            (again : Exec (D × Signal.State) Bool)
            → Keeps Kept again
            → (b : Bool) → Keeps Kept (Loop.and_then system run update reload again b)
        go again h true = h
        go again h false = λ s now. now
