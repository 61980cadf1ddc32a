-- ===== src/Process/Ending.antt =====
-- What the end of a process (Process::onStateChange, taskmasterd/src/jobs/Process.cpp) leaves of the other
-- callbacks.
use task_master.Base.{◌∷◌, Option, some, none, ◌≡◌, refl, arith, false, ◌==◌}
use task_master.Base.Int.{ℤ, int_key}
use task_master.Base.Assoc.{lookup}
use task_master.Base.Assoc.Keys.{lookup-erase_other}
use task_master.System
use task_master.System.{System, Kernel, Syscall, waitpid, other_status, unregister_event, close_fd}
use task_master.Timer
use task_master.Timer.{Timer}
use task_master.Process
use task_master.Process.{Process, stopping, on_state_change, reset_timer}
use task_master.Process.Frame.{reset_timer-Same}

-- The timer is not the one of this descriptor.
abbrev pub Spares : Option Timer → ℤ → Type 0
Spares none fd = Unit
Spares (some t) fd = (t.fd == fd) ≡ false

module _ (k : Kernel) (fd : ℤ) where
  abbrev pub reads_of : System → Option (Option System.Callback)
  reads_of sys = lookup fd sys.read_callbacks

  unregister_event_reads :
      (other : ℤ) (sys : System)
      → (other == fd) ≡ false
      → reads_of (unregister_event k other sys).1 ≡ reads_of sys
  unfolding unregister_event
  unregister_event_reads other sys e =
      ground (arith, lookup-erase_other other fd sys.read_callbacks e)

  destroy_reads :
      (t : Timer) (sys : System)
      → (t.fd == fd) ≡ false
      → reads_of (Timer.destroy k t sys).1 ≡ reads_of sys
  unfolding Timer.destroy close_fd
  destroy_reads t sys e = ground (arith, unregister_event_reads t.fd sys e)

  pub reset_timer_reads :
      (next : Option Timer) (p : Process) (sys : System)
      → Spares p.timer fd
      → reads_of (reset_timer k next (p, sys)).1.1 ≡ reads_of sys
  unfolding reset_timer
  reset_timer_reads next p sys h = go p.timer h
    where
      go :
          (t : Option Timer)
          → Spares t fd
          → reads_of (Process.destroy_timer k t sys).1 ≡ reads_of sys
      go none h = refl
      go (some t) h = destroy_reads t sys h

  pub on_state_change_reads :
      (p : Process) (sys : System)
      → (p.fd == fd) ≡ false
      → Spares p.timer fd
      → reads_of (on_state_change k (p, sys)).1.1 ≡ reads_of sys
  unfolding on_state_change
  on_state_change_reads p sys e h =
      let sys' = record sys { trace = waitpid p.pid ∷ sys.trace } in
      let u = (reset_timer k none (p, sys')).1 in
      ground (arith, reset_timer_reads none p sys' h, unregister_event_reads p.fd u.1 e)

module _ (k : Kernel) where
  -- The name is kept.
  pub on_state_change_name :
      (p : Process) (sys : System) → (on_state_change k (p, sys)).1.0.name ≡ p.name
  unfolding on_state_change
  on_state_change_name p sys =
      let sys' = record sys { trace = waitpid p.pid ∷ sys.trace } in
      ground (arith, reset_timer-Same k none p sys')
