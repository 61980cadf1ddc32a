-- ===== src/Job/Ending.antt =====
-- What the end of a process leaves of its job while this one is stopping (Job::onStop,
-- taskmasterd/src/jobs/Job.cpp): the other processes and their callbacks.
use task_master.Base.{ℕ, ◌∷◌, ◌≡◌, ◌≢◌, arith}
use task_master.Base.Text.{text_key}
use task_master.Config.{ConfigMap}
use task_master.System.{System, Kernel, other_status, waitpid}
use task_master.Process.{stopping, on_state_change}
use task_master.Process.Ending.{on_state_change_name}
use task_master.Process.Frame.{on_state_change_stopping}
use task_master.Process.Willing.{IsWilling, on_state_change-Returns}
use task_master.Job.Callbacks
use task_master.Job.Callbacks.{Program, Seat, process_changed, seated, all_processes_in_states}

module _ (k : Kernel) (w : IsWilling k) (configs : ConfigMap) (prog : Program) where
  -- The process is changed by the end of it only, and so is the system; the others are not.
  pub process_changed_frame :
      (s : Seat) (sys : System)
      → s.state ≡ Callbacks.State.stopping
      → s.proc.state ≡ stopping
      → ((n : ℕ) → k.status (waitpid s.proc.pid ∷ sys.trace) ≢ other_status n)
      → let r = process_changed k configs prog (s, sys) in
        (r.1.0.before ≡ s.before)
        × (r.1.0.after ≡ s.after)
        × (r.1.0.proc.name ≡ s.proc.name)
        × (r.1.1 ≡ (on_state_change k (s.proc, sys)).1.1)
  unfolding process_changed
  process_changed_frame s sys st ps d =
      let go = on_state_change-Returns k w s.proc sys in
      ground
        (arith, on_state_change_stopping k s.proc sys ps d go, on_state_change_name k s.proc sys)
