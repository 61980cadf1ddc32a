-- ===== src/Process/Lifecycle.antt =====
-- The states that a process goes through (taskmasterd/src/jobs/Process.cpp), and the timer that
-- belongs to each.
use task_master.Base.{List, Option, some, none, ◌∷◌, ◌≡◌, ◌≢◌, arith}
use task_master.Base.Int.{ℤ, pos}
use task_master.Base.Text.{Text}
use task_master.Exec.{replaced, Outcome, Returns, returned, thrown}
use task_master.Config.{JobConfig}
use task_master.System.{
  System, Kernel, timerfd_create, pidfd_send_signal, minus_one, register_event,
}
use task_master.Signal.{Signals}
use task_master.Signal
use task_master.Timer
use task_master.Timer.{Timer, Alarm, start_time, stop_timeout}
use task_master.Process.{
  Process, State, starting, backoff, stopping, stop, no_call, replace_timer, start_timer,
  request_stop, parent, child, redirect, enter_directories, run_image,
}

abbrev AlarmFits : Timer.State → Alarm → State → Type 0
AlarmFits Timer.State.stopped alarm st = Unit
AlarmFits Timer.State.running start_time st = st ≡ starting
AlarmFits Timer.State.running stop_timeout st = st ≡ stopping

abbrev TimerFits : Option Timer → State → Type 0
TimerFits none st = Unit
TimerFits (some t) st = AlarmFits t.state t.alarm st

-- A timer that runs belongs to the state: the start time to STARTING, the stop time to STOPPING.
abbrev pub IsCoherent : Process → Type 0
IsCoherent p = TimerFits p.timer p.state

-- The ends that a piece of the child's code can have.
abbrev CanThrow : Outcome (Unit {0}) → Type 0
CanThrow (returned u) = Unit
CanThrow (thrown e) = Unit
CanThrow _ = ⊥

abbrev CanExit : Outcome (Unit {0}) → Type 0
CanExit (returned u) = Unit
CanExit (Outcome.exited n) = Unit
CanExit _ = ⊥

-- The process that ran the code is gone: it has exited, or runs another program.
abbrev pub IsGone : Outcome (Unit {0}) → Type 0
IsGone (Outcome.exited n) = Unit
IsGone replaced = Unit
IsGone _ = ⊥

module _ (k : Kernel) where
  abbrev pub new_timer : ℤ → Alarm → System → Timer
  new_timer interval alarm sys = record {
    fd = k.answer sys.trace timerfd_create;
    interval = interval;
    state = Timer.State.stopped;
    alarm = alarm;
  }

  pub replace_timer_fields :
      (interval : ℤ) (alarm : Alarm) (p : Process) (sys : System)
      → Returns (replace_timer k interval alarm (p, sys))
      → (replace_timer k interval alarm (p, sys)).1.0
        ≡ record p { timer = some (new_timer interval alarm sys) }
  unfolding replace_timer
  replace_timer_fields interval alarm p sys r = ground arith

  pub replace_timer_state :
      (interval : ℤ) (alarm : Alarm) (p : Process) (sys : System)
      → (replace_timer k interval alarm (p, sys)).1.0.state ≡ p.state
  unfolding replace_timer
  replace_timer_state interval alarm p sys = ground arith

  pub start_timer_fields :
      (p : Process) (sys : System) (t : Timer)
      → p.timer ≡ some t
      → Returns (start_timer k (p, sys))
      → (start_timer k (p, sys)).1.0
        ≡ record p { timer = some (record t { state = Timer.State.running }) }
  unfolding start_timer
  start_timer_fields p sys t e r = ground arith

  pub start_timer_state :
      (p : Process) (sys : System) → (start_timer k (p, sys)).1.0.state ≡ p.state
  unfolding start_timer
  start_timer_state p sys = ground arith

  request_stop-IsCoherent :
      (timeout : ℤ) (sig : Signals) (p : Process) (sys : System)
      → Returns (request_stop k timeout sig (p, sys))
      → IsCoherent (request_stop k timeout sig (p, sys)).1.0
  unfolding request_stop
  request_stop-IsCoherent timeout sig p sys r =
      let p' = record p { state = stopping } in
      let sys' = record sys { trace = pidfd_send_signal p.fd (Signal.number sig) ∷ sys.trace } in
      let t = new_timer timeout stop_timeout sys' in
      let u = (replace_timer k timeout stop_timeout (p', sys')).1 in
      ground
        (arith, replace_timer_fields timeout stop_timeout p' sys', start_timer_fields u.0 u.1 t)

  pub stop-IsCoherent :
      (timeout : ℤ) (sig : Signals) (p : Process) (sys : System)
      → IsCoherent p
      → Returns (stop k timeout sig (p, sys))
      → IsCoherent (stop k timeout sig (p, sys)).1.0
  unfolding stop
  stop-IsCoherent timeout sig p sys h r = ground (arith, request_stop-IsCoherent timeout sig p sys)

  pub parent_fields :
      (p : Process) (sys : System) (t : Timer)
      → p.timer ≡ some t
      → Returns (parent k (p, sys))
      → ((parent k (p, sys)).1.0.state ≡ starting)
        × ((parent k (p, sys)).1.0.timer ≡ some (record t { state = Timer.State.running }))
        × ((parent k (p, sys)).1.0.pid ≡ p.pid)
        × ((parent k (p, sys)).1.0.fd ≢ minus_one)
  unfolding parent register_event
  parent_fields p sys t e r =
      ground (arith, start_timer_fields (record p { state = starting }) sys t)

  redirect-CanThrow :
      (std : ℤ) (path : Option Text) (sys : System) → CanThrow (redirect k std path sys).0
  unfolding redirect
  redirect-CanThrow std none sys = tt
  redirect-CanThrow std (some path) sys = ground arith

  enter_directories-CanExit :
      (config : JobConfig) (sys : System) → CanExit (enter_directories k config sys).0
  unfolding enter_directories
  enter_directories-CanExit config sys = ground (
    arith,
    redirect-CanThrow (pos 2) config.err sys,
    redirect-CanThrow (pos 1) config.out (redirect k (pos 2) config.err sys).1,
  )

  run_image-IsGone :
      (path : Text) (argv env : List Text) (sys : System) → IsGone (run_image k path argv env sys).0
  unfolding run_image
  run_image-IsGone path argv env sys = ground arith

  -- The code that runs in the forked child never comes back to the daemon's code, neither by a return nor
  -- by an exception, whatever the kernel answers: it exits or runs the job's program.
  pub child-IsGone :
      (pgid : ℤ) (path : Text) (argv env : List Text) (config : JobConfig) (sys : System)
      → IsGone (child k pgid path argv env config sys).0
  unfolding child
  child-IsGone pgid path argv env config sys =
      grind (arith, enter_directories-CanExit, run_image-IsGone)

  -- A process that has not ended is asked to stop, and calls nothing of the job.
  pub stop_live :
      (timeout : ℤ) (sig : Signals) (p : Process) (sys : System)
      → p.state ≢ backoff
      → p.state ≢ State.exited
      → Returns (stop k timeout sig (p, sys))
      → let r = stop k timeout sig (p, sys) in (r.0 ≡ returned no_call) × (r.1.0.state ≡ stopping)
  unfolding stop request_stop
  stop_live timeout sig p sys hb he r =
      let p' = record p { state = stopping } in
      let sys' = record sys { trace = pidfd_send_signal p.fd (Signal.number sig) ∷ sys.trace } in
      let u = (replace_timer k timeout stop_timeout (p', sys')).1 in
      ground (arith, replace_timer_state timeout stop_timeout p' sys', start_timer_state u.0 u.1)
