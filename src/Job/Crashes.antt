-- ===== src/Job/Crashes.antt =====
-- A process that a signal ends while its job is STARTING (Process::onForcedExit and Job::onStop,
-- taskmasterd/src/jobs).
use task_master.Base.{ℕ, zero, suc, ◌+◌, List, ◌∷◌, ◌≡◌, refl, arith, ◌∙◌}
use task_master.Base.Text.{Text}
use task_master.Exec.{Returns}
use task_master.Config.{ConfigMap}
use task_master.System.{System, Kernel, Syscall, killed_by}
use task_master.Process.{Process, starting, on_state_change}
use task_master.Process.Events.{start_fields}
use task_master.Process.Frame.{start-Same, start-forks_eq, forks, on_state_change_killed}
use task_master.Process.Willing.{IsWilling, start-Returns, on_state_change-Returns}
use task_master.Job.Callbacks
use task_master.Job.Callbacks.{Program, Seat, launch, process_changed}

-- The process dies again and again, and the job hears of it each time.
module _ (k : Kernel) (configs : ConfigMap) (prog : Program) where
  unfoldable pub crash_rounds : ℕ → Seat × System → Seat × System
  crash_rounds zero s = s
  crash_rounds (suc n) s = crash_rounds n (process_changed k configs prog s).1

module _ (k : Kernel) (w : IsWilling k) (prog : Program) (path : Text) (args : List Text) where
  pub launch_lem :
      (p : Process) (sys : System)
      → prog.argv ≡ path ∷ args
      → let r = launch k prog (p, sys) in
        Returns r
        × (r.1.0.state ≡ starting)
        × (r.1.0.restarts ≡ p.restarts)
        × (forks r.1.1.trace ≡ forks sys.trace + 1)
  unfolding launch Callbacks.launch_with
  launch_lem p sys e =
      let go = start-Returns k w path (path ∷ args) prog.env prog.config p sys in
      ground (
        arith,
        go,
        start_fields k path (path ∷ args) prog.env prog.config p sys go,
        start-Same k path (path ∷ args) prog.env prog.config p sys,
        start-forks_eq k path (path ∷ args) prog.env prog.config p sys go,
      )

  module _ (configs : ConfigMap) (signum : ℕ) where
    crash_round :
        (s : Seat) (sys : System)
        → prog.argv ≡ path ∷ args
        → ((t : List Syscall) → k.status t ≡ killed_by signum)
        → s.state ≡ Callbacks.State.starting
        → let r = process_changed k configs prog (s, sys) in
          Returns r
          × (r.1.0.state ≡ Callbacks.State.starting)
          × (r.1.0.proc.state ≡ starting)
          × (r.1.0.proc.restarts ≡ s.proc.restarts)
          × (forks r.1.1.trace ≡ forks sys.trace + 1)
    unfolding process_changed
    crash_round s sys e d st =
        let go = on_state_change-Returns k w s.proc sys in
        let u = (on_state_change k (s.proc, sys)).1 in
        ground
          (arith, go, on_state_change_killed k signum s.proc sys (d _) go, launch_lem u.0 u.1 e)

    -- Under a kernel that refuses nothing, a process that a signal ends while its job is STARTING is
    -- forked again each time it dies, with its count of restarts unchanged: neither `start_retries` nor
    -- the restart policy (any of the program's configuration) ends it.
    pub crash_rounds_unbounded :
        (n : ℕ) (s : Seat) (sys : System)
        → prog.argv ≡ path ∷ args
        → ((t : List Syscall) → k.status t ≡ killed_by signum)
        → s.state ≡ Callbacks.State.starting
        → let r = crash_rounds k configs prog n (s, sys) in
          (r.0.state ≡ Callbacks.State.starting)
          × (r.0.proc.restarts ≡ s.proc.restarts)
          × (forks r.1.trace ≡ forks sys.trace + n)
    unfolding crash_rounds
    crash_rounds_unbounded zero s sys e d st = (st, refl, omega arith)
    crash_rounds_unbounded (suc n) s sys e d st =
        let now = crash_round s sys e d st in
        let r = (process_changed k configs prog (s, sys)).1 in
        let later = crash_rounds_unbounded n r.0 r.1 e d now.1 in
        (later.0, later.1 ∙ now.3, omega (arith, later.2, now.4))
