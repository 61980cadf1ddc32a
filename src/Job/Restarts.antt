-- ===== src/Job/Restarts.antt =====
-- How often a job starts a process again (Job::onExit and Job::onStop, taskmasterd/src/jobs/Job.cpp).
use task_master.Base.{ℕ, ◌+◌, ◌-◌, ◌≤◌, List, [], ◌∷◌, ◌≡◌, arith}
use task_master.Base.Int.{ℤ, pos, negsuc, int_max, pos_part}
use task_master.Base.Text.{Text}
use task_master.Config.{ConfigMap}
use task_master.System.{System, Kernel}
use task_master.Process
use task_master.Process.{Process}
use task_master.Process.Frame.{Same, start-Same, start-forks, forks}
use task_master.Job.Callbacks.{Program, Seat, launch, launch_with, on_exit_call}

module _ (k : Kernel) (prog : Program) where
  launch_with-Same :
      (argv : List Text) (p : Process) (sys : System)
      → Same p (launch_with k prog.config argv prog.env (p, sys)).1.0
  unfolding launch_with
  launch_with-Same [] p sys = ground arith
  launch_with-Same (path ∷ args) p sys = start-Same k path (path ∷ args) prog.env prog.config p sys

  pub launch-Same : (p : Process) (sys : System) → Same p (launch k prog (p, sys)).1.0
  unfolding launch launch_with
  launch-Same p sys = launch_with-Same prog.argv p sys

  launch_with-forks :
      (argv : List Text) (p : Process) (sys : System)
      → forks (launch_with k prog.config argv prog.env (p, sys)).1.1.trace ≤ forks sys.trace + 1
  unfolding launch_with
  launch_with-forks [] p sys = omega arith
  launch_with-forks (path ∷ args) p sys =
      start-forks k path (path ∷ args) prog.env prog.config p sys

  pub launch-forks :
      (p : Process) (sys : System) → forks (launch k prog (p, sys)).1.1.trace ≤ forks sys.trace + 1
  unfolding launch
  launch-forks p sys = launch_with-forks prog.argv p sys

-- The restarts that are counted stay within the limit.
abbrev pub Within : ℕ → ℤ → Type 0
Within limit (pos n) = n ≤ limit
Within limit (negsuc n) = ⊥

module _ (k : Kernel) (configs : ConfigMap) (prog : Program) (limit : ℕ) where
  -- One exit uses the budget for each fork, and never passes it.
  on_exit_call_budget :
      (code : ℕ) (s : Seat) (sys : System)
      → prog.config.start_retries ≡ pos limit
      → limit ≤ int_max
      → Within limit s.proc.restarts
      → let r = (on_exit_call k configs prog code (s, sys)).1 in
        Within limit r.0.proc.restarts
        × (forks r.1.trace + (limit - pos_part r.0.proc.restarts)
            ≤ forks sys.trace + (limit - pos_part s.proc.restarts))
  unfolding on_exit_call
  on_exit_call_budget code s sys e m h =
      let p = Process.add_restart s.proc in
      ground (arith, launch-Same k prog p sys, launch-forks k prog p sys)

  -- The process ends again and again: an exception of the callback is caught by the event loop.
  unfoldable pub run_exits : List ℕ → Seat × System → Seat × System
  run_exits [] s = s
  run_exits (code ∷ codes) s = run_exits codes (on_exit_call k configs prog code s).1

  -- However often a process ends, with whatever codes and under whatever policy, the job forks it at
  -- most as often as its restarts are short of `start_retries`, and the restarts never pass that limit
  -- (which is not negative here).
  pub run_exits_bounded :
      (codes : List ℕ) (s : Seat) (sys : System)
      → prog.config.start_retries ≡ pos limit
      → limit ≤ int_max
      → Within limit s.proc.restarts
      → Within limit (run_exits codes (s, sys)).0.proc.restarts
        × (forks (run_exits codes (s, sys)).1.trace
            ≤ forks sys.trace + (limit - pos_part s.proc.restarts))
  unfolding run_exits
  run_exits_bounded [] s sys e m h = (h, omega arith)
  run_exits_bounded (code ∷ codes) s sys e m h =
      let r = (on_exit_call k configs prog code (s, sys)).1 in
      let step = on_exit_call_budget code s sys e m h in
      let rest = run_exits_bounded codes r.0 r.1 e m step.0 in
      (rest.0, omega (arith, rest.1, step.1))
