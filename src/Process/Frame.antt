-- ===== src/Process/Frame.antt =====
-- What `Process::start` (taskmasterd/src/jobs/Process.cpp) leaves alone, and how often it forks.
use task_master.Base.{ℕ, suc, ◌+◌, ◌≤◌, List, [], ◌∷◌, Option, some, none, ◌≡◌, refl, ◌≢◌, arith}
use task_master.Base.Int.{ℤ, pos}
use task_master.Base.Text.{Text}
use task_master.Exec.{returned, Returns}
use task_master.Config.{JobConfig}
use task_master.System.{
  System, Kernel, Syscall, fork, waitpid, Status, exit_status, killed_by, other_status,
  register_event, unregister_event,
}
use task_master.Timer.{Timer, Alarm, start_time}
use task_master.Process.{
  Process, start, starting, replace_timer, start_timer, parent, child, enter_directories, run_image,
  redirect, reset_timer, on_state_change, on_stop, stopped, stopping,
}

abbrev pub forks : List Syscall → ℕ
forks [] = 0
forks (fork ∷ t) = suc (forks t)
forks (_ ∷ t) = forks t

-- Two processes that differ in what a start writes only.
pub record Same (p q : Process) : Type 0 where
  pub name : q.name ≡ p.name
  pub pgid : q.pgid ≡ p.pgid
  pub restarts : q.restarts ≡ p.restarts

module _ (k : Kernel) where
  replace_timer-Same :
      (interval : ℤ) (alarm : Alarm) (p : Process) (sys : System)
      → Same p (replace_timer k interval alarm (p, sys)).1.0
  unfolding replace_timer
  replace_timer-Same interval alarm p sys = ground arith

  replace_timer-forks :
      (interval : ℤ) (alarm : Alarm) (p : Process) (sys : System)
      → forks (replace_timer k interval alarm (p, sys)).1.1.trace ≡ forks sys.trace
  unfolding replace_timer
  replace_timer-forks interval alarm p sys = ground arith

  start_timer-Same : (p : Process) (sys : System) → Same p (start_timer k (p, sys)).1.0
  unfolding start_timer
  start_timer-Same p sys = ground arith

  start_timer-forks :
      (p : Process) (sys : System) → forks (start_timer k (p, sys)).1.1.trace ≡ forks sys.trace
  unfolding start_timer
  start_timer-forks p sys = ground arith

  parent-Same : (p : Process) (sys : System) → Same p (parent k (p, sys)).1.0
  unfolding parent register_event
  parent-Same p sys = ground (arith, start_timer-Same (record p { state = starting }) sys)

  parent-forks :
      (p : Process) (sys : System) → forks (parent k (p, sys)).1.1.trace ≡ forks sys.trace
  unfolding parent register_event
  parent-forks p sys = ground (arith, start_timer-forks (record p { state = starting }) sys)

  redirect-forks :
      (std : ℤ) (path : Option Text) (sys : System)
      → forks (redirect k std path sys).1.trace ≡ forks sys.trace
  unfolding redirect
  redirect-forks std none sys = refl
  redirect-forks std (some path) sys = ground arith

  enter_directories-forks :
      (config : JobConfig) (sys : System)
      → forks (enter_directories k config sys).1.trace ≡ forks sys.trace
  unfolding enter_directories
  enter_directories-forks config sys = ground (
    arith,
    redirect-forks (pos 2) config.err sys,
    redirect-forks (pos 1) config.out (redirect k (pos 2) config.err sys).1,
  )

  run_image-forks :
      (path : Text) (argv env : List Text) (sys : System)
      → forks (run_image k path argv env sys).1.trace ≡ forks sys.trace
  unfolding run_image
  run_image-forks path argv env sys = ground arith

  child-forks :
      (pgid : ℤ) (path : Text) (argv env : List Text) (config : JobConfig) (sys : System)
      → forks (child k pgid path argv env config sys).1.trace ≡ forks sys.trace
  unfolding child
  child-forks pgid path argv env config sys =
      grind (arith, enter_directories-forks, run_image-forks)

module _ (k : Kernel) (path : Text) (argv env : List Text) (config : JobConfig) where
  pub start-Same : (p : Process) (sys : System) → Same p (start k path argv env config (p, sys)).1.0
  unfolding start
  start-Same p sys =
      let u = (replace_timer k config.start_time start_time (p, sys)).1 in
      let pid = k.answer u.1.trace fork in
      ground (
        arith,
        replace_timer-Same k config.start_time start_time p sys,
        parent-Same k (record u.0 { pid = pid }) (record u.1 { trace = fork ∷ u.1.trace }),
      )

  -- A start forks once at most.
  pub start-forks :
      (p : Process) (sys : System)
      → forks (start k path argv env config (p, sys)).1.1.trace ≤ forks sys.trace + 1
  unfolding start
  start-forks p sys =
      let u = (replace_timer k config.start_time start_time (p, sys)).1 in
      let pid = k.answer u.1.trace fork in
      let s = record u.1 { trace = fork ∷ u.1.trace } in
      ground (
        arith,
        replace_timer-forks k config.start_time start_time p sys,
        child-forks k u.0.pgid path argv env config s,
        parent-forks k (record u.0 { pid = pid }) s,
      )

  pub start-forks_eq :
      (p : Process) (sys : System)
      → Returns (start k path argv env config (p, sys))
      → forks (start k path argv env config (p, sys)).1.1.trace ≡ forks sys.trace + 1
  unfolding start
  start-forks_eq p sys r =
      let u = (replace_timer k config.start_time start_time (p, sys)).1 in
      let pid = k.answer u.1.trace fork in
      let s = record u.1 { trace = fork ∷ u.1.trace } in
      ground (
        arith,
        replace_timer-forks k config.start_time start_time p sys,
        child-forks k u.0.pgid path argv env config s,
        parent-forks k (record u.0 { pid = pid }) s,
      )

module _ (k : Kernel) where
  pub reset_timer-Same :
      (next : Option Timer) (p : Process) (sys : System) → Same p (reset_timer k next (p, sys)).1.0
  unfolding reset_timer
  reset_timer-Same next p sys = ground arith

  reset_timer_state :
      (next : Option Timer) (p : Process) (sys : System)
      → (reset_timer k next (p, sys)).1.0.state ≡ p.state
  unfolding reset_timer
  reset_timer_state next p sys = ground arith

  reset_timer-forks :
      (next : Option Timer) (p : Process) (sys : System)
      → forks (reset_timer k next (p, sys)).1.1.trace ≡ forks sys.trace
  unfolding reset_timer
  reset_timer-forks next p sys = ground arith

  unregister_event-forks :
      (fd : ℤ) (sys : System) → forks (unregister_event k fd sys).1.trace ≡ forks sys.trace
  unfolding unregister_event
  unregister_event-forks fd sys = ground arith

  -- The end of a process by a signal: the job is told that it has stopped.
  pub on_state_change_killed :
      (signum : ℕ) (p : Process) (sys : System)
      → k.status (waitpid p.pid ∷ sys.trace) ≡ killed_by signum
      → Returns (on_state_change k (p, sys))
      → let r = on_state_change k (p, sys) in
        (r.0 ≡ returned on_stop)
        × (r.1.0.state ≡ stopped)
        × (r.1.0.restarts ≡ p.restarts)
        × (forks r.1.1.trace ≡ forks sys.trace)
  unfolding on_state_change
  on_state_change_killed signum p sys e r =
      let sys' = record sys { trace = waitpid p.pid ∷ sys.trace } in
      let u = (reset_timer k none (p, sys')).1 in
      ground (
        arith,
        reset_timer-Same none p sys',
        reset_timer-forks none p sys',
        unregister_event-forks p.fd u.1,
      )

  -- The end of a process that was asked to stop.
  pub on_state_change_stopping :
      (p : Process) (sys : System)
      → p.state ≡ stopping
      → ((n : ℕ) → k.status (waitpid p.pid ∷ sys.trace) ≢ other_status n)
      → Returns (on_state_change k (p, sys))
      → let r = on_state_change k (p, sys) in (r.0 ≡ returned on_stop) × (r.1.0.state ≡ stopped)
  unfolding on_state_change
  on_state_change_stopping p sys st d r =
      let sys' = record sys { trace = waitpid p.pid ∷ sys.trace } in go (k.status sys'.trace) refl
    where
      R : Type 0
      R = let r = on_state_change k (p, sys) in (r.0 ≡ returned on_stop) × (r.1.0.state ≡ stopped)

      go : (status : Status) → k.status (waitpid p.pid ∷ sys.trace) ≡ status → R
      go (exit_status c) e = grind (arith, reset_timer_state)
      go (killed_by c) e = grind (arith, reset_timer_state)
      go (other_status c) e = absurd (d c e)
