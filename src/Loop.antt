-- ===== src/Loop.antt =====
-- taskmasterd/src/main.cpp and `EventManager::handleEvents` (taskmasterd/src/core/EventManager.cpp): the
-- loop that drives the daemon. What a callback, `update` and `reload` do is an argument; a callback may
-- terminate the daemon, so they act on `g_state` too. Signals come with each round: `g_state` is read by
-- the `switch` only, so of the ones before it only the last one written counts.
pub mod Turns
pub mod Keeping
use task_master.Base.{ℕ, List, [], ◌∷◌, Option, some, none, Bool, true, false, if◌then◌else◌}
use task_master.Base.Int.{ℤ, int_key}
use task_master.Base.Assoc.{lookup}
use task_master.Exec.{
  Exec, Error, pure, throw, catch, ◌>>=◌, ◌>>◌, returned, out_of_range, bad_function_call,
  epoll_wait_failed,
}
use task_master.Signal
use task_master.Signal.{signal_handler}
use task_master.System.{System, Callback, CallbackMap}

-- `EPOLLIN` and `EPOLLOUT` of a descriptor.
pub record Event : Type 0 where
  pub fd : ℤ
  pub readable : Bool
  pub writable : Bool

-- What `epoll_wait` gives.
pub data Waited : Type 0 where
  ready : List Event → Waited
  interrupted refused : Waited

-- One round of the loop: the signals that come before its `switch`, what `epoll_wait` gives, and the
-- signals that come during `handleEvents` or `reload`.
pub record Round : Type 0 where
  pub before : List ℕ
  pub wait : Waited
  pub during : List ℕ

-- `D` is what the callbacks act on, beside `g_state`.
module _ {D : Type 0} (system : D → System) (run : Callback → Exec (D × Signal.State) Unit) where
  unfoldable pub call : Option (Option Callback) → Exec (D × Signal.State) Unit
  call none = throw out_of_range
  call (some none) = throw bad_function_call
  call (some (some callback)) = run callback

  abbrev pub call_if : Bool → (System → CallbackMap) → ℤ → Exec (D × Signal.State) Unit
  call_if true callbacks fd s = call (lookup fd (callbacks (system s.0))) s
  call_if false callbacks fd s = (returned tt, s)

  -- What a callback throws is logged.
  unfoldable pub handle_event : Event → Exec (D × Signal.State) Unit
  unfolding call
  handle_event e =
      catch
        (do
          call_if e.readable (λ s. s.read_callbacks) e.fd
          call_if e.writable (λ s. s.write_callbacks) e.fd)
        (λ x. pure tt)

  unfoldable pub handle_each : List Event → Exec (D × Signal.State) Unit
  handle_each [] = pure tt
  handle_each (e ∷ es) = do handle_event e; handle_each es

  unfoldable pub handle_events : Waited → Exec (D × Signal.State) Unit
  handle_events (ready events) = handle_each events
  handle_events interrupted = pure tt
  handle_events refused = throw epoll_wait_failed

  -- The handler of the signals, for each that comes.
  unfoldable pub deliver : List ℕ → Exec (D × Signal.State) Unit
  unfolding signal_handler
  deliver [] s = (returned tt, s)
  deliver (n ∷ ns) s = deliver ns (s.0, signal_handler n)

  module _ (update reload : Exec (D × Signal.State) Unit) where
    abbrev set_state : Signal.State → Exec (D × Signal.State) Unit
    set_state st s = (returned tt, (s.0, st))

    -- One round of the loop of `main`: true to go on.
    unfoldable pub turn_in : Round → Signal.State → Exec (D × Signal.State) Bool
    turn_in round Signal.State.running = do
      handle_events round.wait
      deliver round.during
      update
      pure true
    turn_in round Signal.State.reload = do
      reload
      deliver round.during
      set_state Signal.State.running
      pure true
    turn_in round Signal.State.terminated = pure false

    abbrev pub switch : Round → Exec (D × Signal.State) Bool
    switch round s = turn_in round s.1 s

    unfoldable pub turn : Round → Exec (D × Signal.State) Bool
    unfolding turn_in deliver
    turn round = do deliver round.before; switch round

    abbrev and_then : Exec (D × Signal.State) Bool → Bool → Exec (D × Signal.State) Bool
    and_then again true s = again s
    and_then again false s = (returned false, s)

    -- The loop over the rounds to come; false when the daemon has ended.
    unfoldable pub main_loop : List Round → Exec (D × Signal.State) Bool
    main_loop [] = pure true
    main_loop (round ∷ rest) = turn round >>= and_then (main_loop rest)
