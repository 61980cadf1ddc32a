-- ===== src/Process/Willing.antt =====
-- The methods of taskmasterd/src/jobs/Process.cpp under a kernel that refuses nothing: they return.
use task_master.Base.{ℕ, suc, List, ◌∷◌, Option, none, ◌≡◌, false, ◌==◌, arith}
use task_master.Base.Int.{ℤ, pos, int_key}
use task_master.Base.Text.{Text}
use task_master.Exec.{Returns}
use task_master.Config.{JobConfig}
use task_master.Signal.{Signals}
use task_master.Signal
use task_master.System.{
  System, Kernel, Syscall, fork, timerfd_read, minus_one, register_event, unregister_event,
  pidfd_send_signal, waitpid,
}
use task_master.Timer.{Timer, Alarm, start_time, stop_timeout}
use task_master.Process.{
  Process, starting, start, stop, request_stop, on_state_change, replace_timer, start_timer, parent,
  stopping, reset_timer,
}

-- No call fails, a fork answers the daemon, and an expired timer can be read.
pub record IsWilling (k : Kernel) : Type 0 where
  pub succeeds : (t : List Syscall) (c : Syscall) → (k.answer t c == minus_one) ≡ false
  pub forks_child : (t : List Syscall) → (n : ℕ) × (k.answer t fork ≡ pos (suc n))
  pub reads : (t : List Syscall) (fd : ℤ) → k.answer t (timerfd_read fd) ≡ pos 8

module _ (k : Kernel) (w : IsWilling k) where
  pub replace_timer-Returns :
      (interval : ℤ) (alarm : Alarm) (p : Process) (sys : System)
      → Returns (replace_timer k interval alarm (p, sys))
  unfolding replace_timer
  replace_timer-Returns interval alarm p sys = grind (arith, w.succeeds)

  pub start_timer-Returns : (p : Process) (sys : System) → Returns (start_timer k (p, sys))
  unfolding start_timer
  start_timer-Returns p sys = grind (arith, w.succeeds)

  pub parent-Returns : (p : Process) (sys : System) → Returns (parent k (p, sys))
  unfolding parent register_event
  parent-Returns p sys =
      grind (arith, w.succeeds, start_timer-Returns (record p { state = starting }) sys)

  -- If the kernel refuses no call, a start of a process, in whatever state, returns to the daemon.
  pub start-Returns :
      (path : Text) (argv env : List Text) (config : JobConfig) (p : Process) (sys : System)
      → Returns (start k path argv env config (p, sys))
  unfolding start
  start-Returns path argv env config p sys =
      let u = (replace_timer k config.start_time start_time (p, sys)).1 in
      let pid = k.answer u.1.trace fork in
      ground (
        arith,
        w.succeeds u.1.trace fork,
        w.forks_child u.1.trace,
        replace_timer-Returns config.start_time start_time p sys,
        parent-Returns (record u.0 { pid = pid }) (record u.1 { trace = fork ∷ u.1.trace }),
      )

  request_stop-Returns :
      (timeout : ℤ) (sig : Signals) (p : Process) (sys : System)
      → Returns (request_stop k timeout sig (p, sys))
  unfolding request_stop
  request_stop-Returns timeout sig p sys =
      let p' = record p { state = stopping } in
      let c = pidfd_send_signal p.fd (Signal.number sig) in
      let sys' = record sys { trace = c ∷ sys.trace } in
      let u = (replace_timer k timeout stop_timeout (p', sys')).1 in
      ground (
        arith,
        w.succeeds sys.trace c,
        replace_timer-Returns timeout stop_timeout p' sys',
        start_timer-Returns u.0 u.1,
      )

  pub stop-Returns :
      (timeout : ℤ) (sig : Signals) (p : Process) (sys : System)
      → Returns (stop k timeout sig (p, sys))
  unfolding stop
  stop-Returns timeout sig p sys = ground (arith, request_stop-Returns timeout sig p sys)

  reset_timer-Returns :
      (next : Option Timer) (p : Process) (sys : System) → Returns (reset_timer k next (p, sys))
  unfolding reset_timer
  reset_timer-Returns next p sys = grind (arith, w.succeeds)

  unregister_event-Returns : (fd : ℤ) (sys : System) → Returns (unregister_event k fd sys)
  unfolding unregister_event
  unregister_event-Returns fd sys = grind (arith, w.succeeds)

  pub on_state_change-Returns : (p : Process) (sys : System) → Returns (on_state_change k (p, sys))
  unfolding on_state_change
  on_state_change-Returns p sys =
      let sys' = record sys { trace = waitpid p.pid ∷ sys.trace } in
      ground (
        arith,
        w.succeeds sys.trace (waitpid p.pid),
        reset_timer-Returns none p sys',
        unregister_event-Returns p.fd (reset_timer k none (p, sys')).1.1,
      )
