-- ===== src/Process/Asking.antt =====
-- What `Process::stop` (taskmasterd/src/jobs/Process.cpp) leaves of the other callbacks: its new timer has a
-- descriptor of its own.
use task_master.Base.{List, ◌∷◌, Option, some, none, ◌≡◌, refl, arith, false, ◌==◌}
use task_master.Base.Int.{ℤ, int_key}
use task_master.Base.Assoc.{lookup-insert}
use task_master.Signal
use task_master.Signal.{Signals}
use task_master.System
use task_master.System.{
  System, Kernel, Syscall, timerfd_create, timerfd_settime, pidfd_send_signal, register_event,
}
use task_master.Timer
use task_master.Timer.{Timer, Alarm, stop_timeout}
use task_master.Process.{
  Process, stopping, reset_timer, replace_timer, start_timer, request_stop, stop,
}
use task_master.Process.Ending.{Spares, reads_of, reset_timer_reads}

-- A new timer never gets this descriptor, which is in use.
abbrev pub IsTaken : Kernel → ℤ → Type 0
IsTaken k fd = (t : List Syscall) → (k.answer t timerfd_create == fd) ≡ false

module _ (k : Kernel) where
  reset_timer_process :
      (next : Option Timer) (p : Process) (sys : System)
      → (reset_timer k next (p, sys)).1.0 ≡ record p { timer = next }
  unfolding reset_timer
  reset_timer_process next p sys = refl

  replace_timer_same :
      (interval : ℤ) (alarm : Alarm) (p : Process) (sys : System)
      → let q = (replace_timer k interval alarm (p, sys)).1.0 in (q.name ≡ p.name) × (q.fd ≡ p.fd)
  unfolding replace_timer
  replace_timer_same interval alarm p sys = ground arith

  start_timer_same :
      (p : Process) (sys : System)
      → let q = (start_timer k (p, sys)).1.0 in (q.name ≡ p.name) × (q.fd ≡ p.fd)
  unfolding start_timer
  start_timer_same p sys = ground arith

  -- The name and the pidfd stay.
  pub stop_same :
      (timeout : ℤ) (sig : Signals) (p : Process) (sys : System)
      → let q = (stop k timeout sig (p, sys)).1.0 in (q.name ≡ p.name) × (q.fd ≡ p.fd)
  unfolding stop request_stop
  stop_same timeout sig p sys =
      let p' = record p { state = stopping } in
      let sys' = record sys { trace = pidfd_send_signal p.fd (Signal.number sig) ∷ sys.trace } in
      let u = (replace_timer k timeout stop_timeout (p', sys')).1 in
      ground (arith, replace_timer_same timeout stop_timeout p' sys', start_timer_same u.0 u.1)

module _ (k : Kernel) (fd : ℤ) (taken : IsTaken k fd) where
  -- The timer of a process and the callback of the descriptor, in a run that leaves the descriptor alone.
  abbrev pub Kept : Process × System → Process × System → Type 0
  Kept s t = Spares s.0.timer fd → Spares t.0.timer fd × (reads_of k fd t.1 ≡ reads_of k fd s.1)

  replace_timer-Kept :
      (interval : ℤ) (alarm : Alarm) (p : Process) (sys : System)
      → Kept (p, sys) (replace_timer k interval alarm (p, sys)).1
  unfolding replace_timer
  replace_timer-Kept interval alarm p sys h =
      let next : Timer = record {
        fd = k.answer sys.trace timerfd_create;
        interval = interval;
        state = Timer.stopped;
        alarm = alarm;
      } in
      let sys' = record sys { trace = timerfd_create ∷ sys.trace } in
      ground (
        arith,
        taken sys.trace,
        reset_timer_process k (some next) p sys',
        reset_timer_reads k fd (some next) p sys' h,
      )

  start_timer-Kept : (p : Process) (sys : System) → Kept (p, sys) (start_timer k (p, sys)).1
  unfolding start_timer register_event
  start_timer-Kept p sys = go p.timer refl
    where
      go : (t : Option Timer) → p.timer ≡ t → Kept (p, sys) (start_timer k (p, sys)).1
      go none e h = ground (arith, h)
      go (some t) e h =
          let spared : (t.fd == fd) ≡ false = rw (e) at h in
          ground (
            arith,
            spared,
            lookup-insert t.fd fd (some (System.timer_expired p.name)) sys.read_callbacks,
          )

  request_stop-Kept :
      (timeout : ℤ) (sig : Signals) (p : Process) (sys : System)
      → Kept (p, sys) (request_stop k timeout sig (p, sys)).1
  unfolding request_stop
  request_stop-Kept timeout sig p sys h =
      let p' = record p { state = stopping } in
      let sys' = record sys { trace = pidfd_send_signal p.fd (Signal.number sig) ∷ sys.trace } in
      let u = (replace_timer k timeout stop_timeout (p', sys')).1 in
      let one = replace_timer-Kept timeout stop_timeout p' sys' h in
      ground (arith, h, one, start_timer-Kept u.0 u.1 one.0)

  pub stop-Kept :
      (timeout : ℤ) (sig : Signals) (p : Process) (sys : System)
      → Kept (p, sys) (stop k timeout sig (p, sys)).1
  unfolding stop
  stop-Kept timeout sig p sys h = ground (arith, h, request_stop-Kept timeout sig p sys h)
