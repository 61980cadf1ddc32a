-- ===== src/Process/Events.antt =====
-- What can happen to a process (taskmasterd/src/jobs/Process.cpp): the calls of its job, its pidfd and
-- its timer, and the states that they lead to.
use task_master.Base.{List, Option, some, none, ◌∷◌, ◌≡◌, ◌≢◌, ◌⊎◌, arith}
use task_master.Base.Int.{ℤ, pos}
use task_master.Base.Text.{Text}
use task_master.Exec.{Returns, ◌>>◌, pure}
use task_master.Config.{JobConfig}
use task_master.System.{System, Kernel, minus_one, fork, pidfd_send_signal}
use task_master.Signal.{Signals}
use task_master.Signal
use task_master.Timer
use task_master.Timer.{Timer, Method, start_time, stop_timeout}
use task_master.Process.{
  Process, State, Call, no_call, stopped, starting, running, backoff, stopping, exited, unknown,
  start, stop, on_state_change, on_timer, replace_timer, parent, request_stop, reset_timer,
}
use task_master.Process.Lifecycle.{
  IsCoherent, stop-IsCoherent, replace_timer_fields, replace_timer_state, start_timer_state,
  parent_fields, child-IsGone, new_timer,
}

pub data Event : Type 0 where
  starts : Text → List Text → List Text → JobConfig → Event
  stops : ℤ → Signals → Event
  changes : Event
  alarms : Event

module _ (k : Kernel) where
  unfoldable pub step : Event → Method Process Call
  unfolding start stop on_state_change on_timer
  step (starts path argv env config) = do start k path argv env config; pure no_call
  step (stops timeout sig) = stop k timeout sig
  step changes = on_state_change k
  step alarms = on_timer k

  pub start_fields :
      (path : Text) (argv env : List Text) (config : JobConfig) (p : Process) (sys : System)
      → Returns (start k path argv env config (p, sys))
      → let q = (start k path argv env config (p, sys)).1.0 in
        IsCoherent q
        × (q.state ≡ starting)
        × (q.pid ≢ minus_one)
        × (q.pid ≢ pos 0)
        × (q.fd ≢ minus_one)
  unfolding start
  start_fields path argv env config p sys r =
      let u = (replace_timer k config.start_time start_time (p, sys)).1 in
      let pid = k.answer u.1.trace fork in
      ground (
        arith,
        replace_timer_fields k config.start_time start_time p sys,
        child-IsGone k u.0.pgid path argv env config (record u.1 { trace = fork ∷ u.1.trace }),
        parent_fields k (record u.0 { pid = pid }) (record u.1 { trace = fork ∷ u.1.trace })
            (new_timer k config.start_time start_time sys),
      )

  reset_timer_lem :
      (next : Option Timer) (p : Process) (sys : System)
      → (reset_timer k next (p, sys)).1.0 ≡ record p { timer = next }
  unfolding reset_timer
  reset_timer_lem next p sys = ground arith

  changed_timer :
      (p : Process) (sys : System)
      → Returns (on_state_change k (p, sys))
      → (on_state_change k (p, sys)).1.0.timer ≡ none
  unfolding on_state_change
  changed_timer p sys r = grind (arith, reset_timer_lem)

  on_timer-IsCoherent :
      (p : Process) (sys : System) → IsCoherent p → IsCoherent (on_timer k (p, sys)).1.0
  unfolding on_timer
  on_timer-IsCoherent p sys h = ground arith

  -- An event that is handled to its end leaves the timer of the process in step with its state: a
  -- start timer runs in STARTING only and a stop timer in STOPPING only.
  pub step-IsCoherent :
      (e : Event) (p : Process) (sys : System)
      → IsCoherent p
      → Returns (step e (p, sys))
      → IsCoherent (step e (p, sys)).1.0
  unfolding step
  step-IsCoherent (starts path argv env config) p sys h r =
      ground (arith, start_fields path argv env config p sys)
  step-IsCoherent (stops timeout sig) p sys h r = stop-IsCoherent k timeout sig p sys h r
  step-IsCoherent changes p sys h r = ground (arith, changed_timer p sys)
  step-IsCoherent alarms p sys h r = on_timer-IsCoherent p sys h

-- The transition diagram, with the event of each edge.
pub data Edge : Event → State → State → Type 0 where
  stay : {e : Event} {s : State} → Edge e s s
  launch :
      {path : Text} {argv env : List Text} {config : JobConfig} {s : State}
      → Edge (starts path argv env config) s starting
  ask : {timeout : ℤ} {sig : Signals} {s : State} → Edge (stops timeout sig) s stopping
  give_up_backoff : {timeout : ℤ} {sig : Signals} → Edge (stops timeout sig) backoff stopped
  give_up_exited : {timeout : ℤ} {sig : Signals} → Edge (stops timeout sig) exited stopped
  end_early : Edge changes starting backoff
  end_late : Edge changes running exited
  end_stopped : {s : State} → Edge changes s stopped
  lose : {s : State} → Edge changes s unknown
  surpass : Edge alarms starting running

abbrev TimerRuns : Option Timer → Type 0
TimerRuns none = ⊥
TimerRuns (some t) = t.state ≡ Timer.State.running

-- The timer's descriptor is polled while the timer runs.
abbrev pub CanHappen : Event → Process → Type 0
CanHappen alarms p = TimerRuns p.timer
CanHappen _ p = Unit

module _ (k : Kernel) where
  start-state :
      (path : Text) (argv env : List Text) (config : JobConfig) (p : Process) (sys : System)
      → let st = (start k path argv env config (p, sys)).1.0.state in
        (st ≡ p.state) ⊎ (st ≡ starting)
  unfolding start parent
  start-state path argv env config p sys =
      let u = (replace_timer k config.start_time start_time (p, sys)).1 in
      let pid = k.answer u.1.trace fork in
      ground (
        arith,
        replace_timer_state k config.start_time start_time p sys,
        start_timer_state k (record u.0 { pid = pid; state = starting })
            (record u.1 { trace = fork ∷ u.1.trace }),
      )

  request_stop-state :
      (timeout : ℤ) (sig : Signals) (p : Process) (sys : System)
      → let st = (request_stop k timeout sig (p, sys)).1.0.state in (st ≡ p.state) ⊎ (st ≡ stopping)
  unfolding request_stop
  request_stop-state timeout sig p sys =
      let p' = record p { state = stopping } in
      let sys' = record sys { trace = pidfd_send_signal p.fd (Signal.number sig) ∷ sys.trace } in
      let u = (replace_timer k timeout stop_timeout (p', sys')).1 in
      ground
        (arith, replace_timer_state k timeout stop_timeout p' sys', start_timer_state k u.0 u.1)

  stop-Edge :
      (timeout : ℤ) (sig : Signals) (p : Process) (sys : System)
      → Edge (stops timeout sig) p.state (stop k timeout sig (p, sys)).1.0.state
  unfolding stop
  stop-Edge timeout sig p sys =
      grind
        (arith, stay, ask, give_up_backoff, give_up_exited, request_stop-state timeout sig p sys)

  changes-Edge :
      (p : Process) (sys : System) → Edge changes p.state (on_state_change k (p, sys)).1.0.state
  unfolding on_state_change
  changes-Edge p sys =
      grind (arith, stay, end_early, end_late, end_stopped, lose, reset_timer_lem k)

  alarms-Edge :
      (p : Process) (sys : System)
      → IsCoherent p
      → TimerRuns p.timer
      → Edge alarms p.state (on_timer k (p, sys)).1.0.state
  unfolding on_timer
  alarms-Edge p sys h t = grind (arith, stay, surpass)

  -- If the timer of a process, when it runs, belongs to the state of the process, each event moves the
  -- process along an edge of the diagram, whether it is handled to its end or throws; a timer's alarm comes
  -- from a timer that runs. By the diagram RUNNING is reached from STARTING only, by the start timer; BACKOFF
  -- from STARTING and EXITED from RUNNING only, when the process ends; FATAL never.
  pub step-Edge :
      (e : Event) (p : Process) (sys : System)
      → IsCoherent p
      → CanHappen e p
      → Edge e p.state (step k e (p, sys)).1.0.state
  unfolding step
  step-Edge (starts path argv env config) p sys h c =
      grind (arith, stay, launch, start-state path argv env config p sys)
  step-Edge (stops timeout sig) p sys h c = stop-Edge timeout sig p sys
  step-Edge changes p sys h c = changes-Edge p sys
  step-Edge alarms p sys h c = alarms-Edge p sys h c
