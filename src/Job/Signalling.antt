-- ===== src/Job/Signalling.antt =====
-- The signals that `Job::stop` sends (taskmasterd/src/jobs/Job.cpp, Process.cpp).
use task_master.Base.{ℕ, List, [], ◌∷◌, ◌++◌, Option, ◌≡◌, refl, ◌∙◌, arith, All, length}
use task_master.Base.Int.{ℤ, int_key}
use task_master.Config.{ConfigMap}
use task_master.Exec.{Returns}
use task_master.Signal
use task_master.Signal.{Signals}
use task_master.System.{System, Kernel, Syscall, pidfd_send_signal, register_event}
use task_master.Timer
use task_master.Timer.{Timer, Alarm, stop_timeout}
use task_master.Process.{
  Process, stopping, reset_timer, replace_timer, start_timer, request_stop, stop,
}
use task_master.Process.Willing.{IsWilling}
use task_master.Job
use task_master.Job.{Job}
use task_master.Job.Asking.{stop_one_run, stop_run}
use task_master.Job.Callbacks
use task_master.Job.Callbacks.{Program, Seat}
use task_master.Job.Stopping.{IsLive, IsStopping, IsUp, stop_up}

-- The signals that were sent, newest first, each with the pidfd that it was sent to.
abbrev pub signals : List Syscall → List (ℤ × ℕ)
signals [] = []
signals (pidfd_send_signal fd n ∷ calls) = (fd, n) ∷ signals calls
signals (_ ∷ calls) = signals calls

-- The signal, sent to each of the processes, in their order.
abbrev pub to_each : ℕ → List Process → List (ℤ × ℕ) → List (ℤ × ℕ)
to_each n [] sent = sent
to_each n (p ∷ ps) sent = to_each n ps ((p.fd, n) ∷ sent)

module _ (k : Kernel) where
  signals-reset_timer :
      (next : Option Timer) (p : Process) (sys : System)
      → signals (reset_timer k next (p, sys)).1.1.trace ≡ signals sys.trace
  unfolding reset_timer Timer.destroy
  signals-reset_timer next p sys = grind arith

  signals-replace_timer :
      (interval : ℤ) (alarm : Alarm) (p : Process) (sys : System)
      → signals (replace_timer k interval alarm (p, sys)).1.1.trace ≡ signals sys.trace
  unfolding replace_timer
  signals-replace_timer interval alarm p sys = grind (arith, signals-reset_timer)

  signals-start_timer :
      (p : Process) (sys : System) → signals (start_timer k (p, sys)).1.1.trace ≡ signals sys.trace
  unfolding start_timer register_event
  signals-start_timer p sys = grind arith

  -- A process that has not ended gets the signal.
  signals-stop :
      (w : IsWilling k) (timeout : ℤ) (sig : Signals) (p : Process) (sys : System)
      → IsLive p
      → signals (stop k timeout sig (p, sys)).1.1.trace
        ≡ (p.fd, Signal.number sig) ∷ signals sys.trace
  unfolding stop request_stop
  signals-stop w timeout sig p sys live =
      let c = pidfd_send_signal p.fd (Signal.number sig) in
      let p' = record p { state = stopping } in
      let sys' = record sys { trace = c ∷ sys.trace } in
      let u = (replace_timer k timeout stop_timeout (p', sys')).1 in
      ground (
        arith,
        live,
        w.succeeds sys.trace c,
        signals-replace_timer timeout stop_timeout p' sys',
        signals-start_timer u.0 u.1,
      )

module _ (k : Kernel) (w : IsWilling k) (configs : ConfigMap) where
  stop_loop-signals :
      (prog : Program) (before ps : List Process) (st : Callbacks.State) (sys : System)
      → All IsLive ps
      → signals (Job.stop_loop k configs prog before ps st sys).1.1.trace
        ≡ to_each (Signal.number prog.config.stop_signal) ps (signals sys.trace)
  unfolding Job.stop_loop
  stop_loop-signals prog before [] st sys live = refl
  stop_loop-signals prog before (p ∷ ps) st sys live =
      let u = (stop k prog.config.stop_time prog.config.stop_signal (p, sys)).1 in
      let s : Seat = record { state = st; before = before; proc = p; after = ps } in
      let sent = signals-stop k w prog.config.stop_time prog.config.stop_signal p sys live.0 in
      rw (stop_one_run k w configs prog s sys live.0)
        (stop_loop-signals prog (before ++ u.0 ∷ []) ps st u.1 live.1 ∙ rw (sent) refl)

  -- If the kernel refuses no call and no process of the job has ended by itself, `stop` of a job that is up
  -- returns with the job and all its processes STOPPING, and has sent the stop signal of the configuration to
  -- the pidfd of every process, in their order, and no other signal.
  pub stop_sends :
      (j : Job) (sys : System)
      → IsUp j.state
      → All IsLive j.processes
      → let r = Job.stop k configs (j, sys) in
        Returns r
        × (r.1.0.state ≡ Callbacks.State.stopping)
        × All IsStopping r.1.0.processes
        × (length r.1.0.processes ≡ length j.processes)
        × (signals r.1.1.trace
            ≡ to_each (Signal.number j.config.stop_signal) j.processes (signals sys.trace))
  stop_sends j sys up live =
      let (ret, st, all, len) = stop_up k w configs j sys up live in
      let sent =
        stop_loop-signals (Job.program j) [] j.processes Callbacks.State.stopping sys live in
      (ret, st, all, len, rw (stop_run k w configs j sys up) sent)
