-- ===== src/Job/Stopping.antt =====
-- How a job stops (Job::stop and Job::onStop, taskmasterd/src/jobs/Job.cpp).
use task_master.Base.{
  ℕ, suc, ◌+◌, List, [], ◌∷◌, ◌++◌, ◌≡◌, refl, ◌≢◌, arith, Bool, true, false, nat_beq,
  if◌then◌else◌, All, All-append, length, length-append,
}
use task_master.Exec.{Returns}
use task_master.Config.{ConfigMap}
use task_master.System.{System, Kernel, other_status, waitpid}
use task_master.Process
use task_master.Process.{Process, stopped, stopping, on_state_change, stop, request_stop, no_call}
use task_master.Process.Lifecycle.{stop_live}
use task_master.Process.Frame.{on_state_change_stopping}
use task_master.Process.Willing.{IsWilling, on_state_change-Returns, stop-Returns}
use task_master.Job
use task_master.Job.{Job, next_stop}
use task_master.Job.Callbacks
use task_master.Job.Callbacks.{
  Program, Seat, seated, process_changed, all_processes_in_states, state_beq, manager_on_stop,
}

abbrev pub is_stopped : Process.State → Bool
is_stopped stopped = true
is_stopped _ = false

-- The processes that have not stopped yet.
abbrev pub pending : List Process → ℕ
pending [] = 0
pending (p ∷ ps) = if is_stopped p.state then pending ps else suc (pending ps)

pending-append : (ps qs : List Process) → pending (ps ++ qs) ≡ pending ps + pending qs
pending-append [] qs = omega arith
pending-append (p ∷ ps) qs = ground (arith, pending-append ps qs)

all_stopped-pending :
    (ps : List Process) → all_processes_in_states ps (stopped ∷ []) ≡ nat_beq (pending ps) 0
unfolding all_processes_in_states
all_stopped-pending [] = refl
all_stopped-pending (p ∷ ps) = ground (arith, all_stopped-pending ps)

pending_seat :
    (before : List Process) (p q : Process) (after : List Process)
    → is_stopped p.state ≡ false
    → is_stopped q.state ≡ true
    → pending (before ++ q ∷ after) + 1 ≡ pending (before ++ p ∷ after)
pending_seat before p q after e f =
    ground (arith, pending-append before (q ∷ after), pending-append before (p ∷ after))

module _ (k : Kernel) (w : IsWilling k) (configs : ConfigMap) (prog : Program) where
  -- In a job that is STOPPING, the end of a process that was asked to stop (by an exit or a signal) is
  -- handled without a throw and leaves one process fewer to wait for, whichever process ends; the job
  -- goes on STOPPING while one is left, and with the last it is STOPPED, or marked to be removed or
  -- replaced as the configuration says. The kernel refuses no call.
  pub process_changed_stopping :
      (s : Seat) (sys : System)
      → s.state ≡ Callbacks.State.stopping
      → s.proc.state ≡ stopping
      → ((n : ℕ) → k.status (waitpid s.proc.pid ∷ sys.trace) ≢ other_status n)
      → let r = process_changed k configs prog (s, sys) in
        Returns r
        × (pending (seated r.1.0) + 1 ≡ pending (seated s))
        × (r.1.0.state ≡ (
            if nat_beq (pending (seated r.1.0)) 0
            then manager_on_stop configs prog.config Callbacks.State.stopped
            else Callbacks.State.stopping))
  unfolding process_changed
  process_changed_stopping s sys st ps d =
      let go = on_state_change-Returns k w s.proc sys in
      let ended = on_state_change_stopping k s.proc sys ps d go in
      let q = (on_state_change k (s.proc, sys)).1.0 in
      ground (
        arith,
        go,
        ended,
        pending_seat s.before s.proc q s.after,
        all_stopped-pending (s.before ++ q ∷ s.after),
      )

-- A process that `Process::stop` sends its signal to.
abbrev pub IsLive : Process → Type 0
IsLive p = (p.state ≢ Process.State.backoff) × (p.state ≢ Process.State.exited)

abbrev pub IsStopping : Process → Type 0
IsStopping p = p.state ≡ stopping

module _ (k : Kernel) (w : IsWilling k) (configs : ConfigMap) (prog : Program) where
  stop_one_live :
      (s : Seat) (sys : System)
      → IsLive s.proc
      → let r = Job.stop_one k configs prog (s, sys) in
        Returns r × (r.1.0.state ≡ s.state) × IsStopping r.1.0.proc
  unfolding Job.stop_one
  stop_one_live s sys live =
      let t = prog.config.stop_time in
      let sig = prog.config.stop_signal in
      ground (arith, stop-Returns k w t sig s.proc sys, stop_live k t sig s.proc sys live.0 live.1)

  stop_loop_live :
      (before ps : List Process) (st : Callbacks.State) (sys : System)
      → All IsStopping before
      → All IsLive ps
      → let r = Job.stop_loop k configs prog before ps st sys in
        Returns r
        × (r.1.0.0 ≡ st)
        × All IsStopping r.1.0.1
        × (length r.1.0.1 ≡ length before + length ps)
  unfolding Job.stop_loop
  stop_loop_live before [] st sys b h = (tt, refl, b, omega arith)
  stop_loop_live before (p ∷ ps) st sys b h =
      let s : Seat = record { state = st; before = before; proc = p; after = ps } in
      let one = stop_one_live s sys h.0 in
      let u = (Job.stop_one k configs prog (s, sys)).1 in
      let b' = All-append IsStopping before (u.0.proc ∷ []) b (one.2, tt) in
      ground (
        arith,
        one,
        stop_loop_live (before ++ u.0.proc ∷ []) ps u.0.state u.1 b' h.1,
        length-append before (u.0.proc ∷ []),
      )

-- `Job::stop` of a job that is neither EMPTY nor STOPPED nor STOPPING already.
abbrev pub IsUp : Callbacks.State → Type 0
IsUp Callbacks.State.empty = ⊥
IsUp Callbacks.State.stopped = ⊥
IsUp Callbacks.State.stopping = ⊥
IsUp _ = Unit

module _ (k : Kernel) (w : IsWilling k) (configs : ConfigMap) where
  -- If the kernel refuses no call and no process of the job has ended by itself, `stop` of a job that
  -- is up returns with the job STOPPING and every one of its processes asked to stop.
  pub stop_up :
      (j : Job) (sys : System)
      → IsUp j.state
      → All IsLive j.processes
      → let r = Job.stop k configs (j, sys) in
        Returns r
        × (r.1.0.state ≡ Callbacks.State.stopping)
        × All IsStopping r.1.0.processes
        × (length r.1.0.processes ≡ length j.processes)
  unfolding Job.stop
  stop_up j sys up live = ground (
    arith,
    stop_loop_live k w configs (Job.program j) [] j.processes Callbacks.State.stopping sys tt live,
  )
