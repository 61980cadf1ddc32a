-- ===== src/Job/Restarting.antt =====
-- A stop with a start behind it (JobManager::restart, and the end of JobManager::reload), on the methods
-- of taskmasterd/src/jobs/Job.cpp.
use task_master.Base.{suc, List, [], ◌∷◌, map, ◌≡◌, refl, ap, arith, All, length}
use task_master.Base.Int.{pos}
use task_master.Base.Text.{Text}
use task_master.Exec.{Returns, returned, for_each, ◌>>◌}
use task_master.Config.{ConfigMap}
use task_master.System.{System, Kernel}
use task_master.Process.{Process, starting, stopping, reset_restarts}
use task_master.Process.Willing.{IsWilling}
use task_master.Job
use task_master.Job.{Job}
use task_master.Job.Callbacks
use task_master.Job.Callbacks.{Program}
use task_master.Job.Frame.{stop-HasConfig}
use task_master.Job.Stopping.{IsLive, IsStopping, IsUp, stop_up}

module _ (k : Kernel) (prog : Program) where
  restart_one_stopping :
      (p : Process) (sys : System)
      → IsStopping p
      → Job.restart_one k prog (p, sys) ≡ (returned tt, (reset_restarts p, sys))
  unfolding Job.restart_one reset_restarts
  restart_one_stopping p sys h = ground arith

  -- Processes that are STOPPING are not started: only their restarts are reset.
  restart_loop_stopping :
      (ps : List Process) (sys : System)
      → All IsStopping ps
      → for_each (Job.restart_one k prog) ps sys ≡ (returned tt, (map reset_restarts ps, sys))
  unfolding for_each
  restart_loop_stopping [] sys h = refl
  restart_loop_stopping (p ∷ ps) sys h =
      ground (arith, restart_one_stopping p sys h.0, restart_loop_stopping ps sys h.1)

pub reset-IsStopping :
    (ps : List Process) → All IsStopping ps → All IsStopping (map reset_restarts ps)
unfolding reset_restarts
reset-IsStopping [] h = tt
reset-IsStopping (p ∷ ps) h = (h.0, reset-IsStopping ps h.1)

restarts-reset : (ps : List Process) → All (λ p. p.restarts ≡ pos 0) (map reset_restarts ps)
unfolding reset_restarts
restarts-reset [] = tt
restarts-reset (p ∷ ps) = (refl, restarts-reset ps)

pub length-reset : (ps : List Process) → length (map reset_restarts ps) ≡ length ps
length-reset [] = refl
length-reset (p ∷ ps) = ap suc (length-reset ps)

module _ (k : Kernel) where
  -- A start of a job that is STOPPING leaves its processes to end.
  pub start_stopping :
      (j : Job) (sys : System)
      → j.state ≡ Callbacks.State.stopping
      → All IsStopping j.processes
      → let r = Job.start k (j, sys) in
        Returns r
        × (r.1.0 ≡ record j {
          state = Callbacks.State.starting;
          processes = map reset_restarts j.processes;
        })
        × (r.1.1 ≡ sys)
  unfolding Job.start
  start_stopping j sys st h =
      ground (arith, restart_loop_stopping k (Job.program j) j.processes sys h)

module _ (k : Kernel) (w : IsWilling k) (configs : ConfigMap) where
  -- If the kernel refuses no call and no process has ended by itself, stopping and starting a job that
  -- is up returns, with the job STARTING, the same configuration and as many processes, each of them
  -- asked to stop and its restarts at 0.
  pub stop-start_up :
      (j : Job) (sys : System)
      → IsUp j.state
      → All IsLive j.processes
      → let r = (Job.stop k configs >> Job.start k) (j, sys) in
        Returns r
        × (r.1.0.state ≡ Callbacks.State.starting)
        × (r.1.0.config ≡ j.config)
        × All IsStopping r.1.0.processes
        × All (λ p. p.restarts ≡ pos 0) r.1.0.processes
        × (length r.1.0.processes ≡ length j.processes)
  stop-start_up j sys up live =
      let stopped = stop_up k w configs j sys up live in
      let u = (Job.stop k configs (j, sys)).1 in
      let again = start_stopping k u.0 u.1 stopped.1 stopped.2 in
      ground (
        arith,
        stopped,
        again,
        stop-HasConfig k configs j.config (j, sys) refl,
        reset-IsStopping u.0.processes stopped.2,
        restarts-reset u.0.processes,
        length-reset u.0.processes,
      )
