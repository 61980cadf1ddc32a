-- ===== src/Process/Launching.antt =====
-- What `Process::start` (taskmasterd/src/jobs/Process.cpp) sets up in the daemon.
use task_master.Base.{ℕ, suc, List, ◌∷◌, some, ◌≡◌, refl, ◌∙◌, arith, true, false, ◌==◌}
use task_master.Base.Int.{pos, int_key, int_beq_iff}
use task_master.Base.Text.{Text}
use task_master.Base.Assoc.{lookup, lookup-insert}
use task_master.Exec.{Returns}
use task_master.Config.{JobConfig}
use task_master.System.{
  System, Kernel, fork, pidfd_open, register_event, process_changed, epoll_add,
}
use task_master.Timer
use task_master.Timer.{Timer, Alarm, start_time}
use task_master.Process.{Process, starting, start, replace_timer, start_timer, parent}
use task_master.Process.Willing.{
  IsWilling, replace_timer-Returns, start_timer-Returns, parent-Returns,
}
use task_master.Process.Lifecycle.{new_timer, replace_timer_fields, parent_fields}

module _ (k : Kernel) (w : IsWilling k) where
  start_timer_name : (p : Process) (sys : System) → (start_timer k (p, sys)).1.0.name ≡ p.name
  unfolding start_timer
  start_timer_name p sys = ground arith

  parent_registers :
      (p : Process) (sys : System)
      → let r = parent k (p, sys) in
        lookup r.1.0.fd r.1.1.read_callbacks ≡ some (some (process_changed p.name))
  unfolding parent register_event
  parent_registers p sys =
      let u = (start_timer k (record p { state = starting }, sys)).1 in
      let fd = k.answer u.1.trace (pidfd_open u.0.pid) in
      let c = pidfd_open u.0.pid in
      let same : (fd == fd) ≡ true = (int_beq_iff fd fd).1 refl in
      ground (
        arith,
        same,
        w.succeeds u.1.trace c,
        w.succeeds (c ∷ u.1.trace) (epoll_add fd true false),
        start_timer-Returns k w (record p { state = starting }) sys,
        start_timer_name (record p { state = starting }) sys,
        lookup-insert fd fd (some (process_changed p.name)) u.1.read_callbacks,
      )

  start_run :
      (path : Text) (argv env : List Text) (config : JobConfig) (p : Process) (sys : System)
      → let u = (replace_timer k config.start_time start_time (p, sys)).1 in
        start k path argv env config (p, sys)
        ≡ parent k (
          record p {
            timer = some (new_timer k config.start_time start_time sys);
            pid = k.answer u.1.trace fork;
          },
          record u.1 { trace = fork ∷ u.1.trace },
        )
  unfolding start
  start_run path argv env config p sys =
      let u = (replace_timer k config.start_time start_time (p, sys)).1 in
      let ret = replace_timer-Returns k w config.start_time start_time p sys in
      ground (
        arith,
        ret,
        replace_timer_fields k config.start_time start_time p sys ret,
        w.succeeds u.1.trace fork,
        w.forks_child u.1.trace,
      )

  pub start_sets :
      (path : Text) (argv env : List Text) (config : JobConfig) (p : Process) (sys : System)
      → let r = start k path argv env config (p, sys) in
        Returns r
        × (r.1.0.state ≡ starting)
        × ((n : ℕ) × (r.1.0.pid ≡ pos (suc n)))
        × ((t : Timer) × (r.1.0.timer ≡ some t)
            × (t.interval ≡ config.start_time)
            × (t.alarm ≡ start_time)
            × (t.state ≡ Timer.State.running))
        × (lookup r.1.0.fd r.1.1.read_callbacks ≡ some (some (process_changed p.name)))
  start_sets path argv env config p sys =
      let u = (replace_timer k config.start_time start_time (p, sys)).1 in
      let t = new_timer k config.start_time start_time sys in
      let q : Process = record p { timer = some t; pid = k.answer u.1.trace fork } in
      let sys' : System = record u.1 { trace = fork ∷ u.1.trace } in
      let ret = parent-Returns k w q sys' in
      let (st, timer, pid, fd) = parent_fields k q sys' t refl ret in
      let (n, forked) = w.forks_child u.1.trace in
      rw (start_run path argv env config p sys) (
        ret,
        st,
        (n, pid ∙ forked),
        (record t { state = Timer.State.running }, timer, refl, refl, refl),
        parent_registers q sys',
      )
