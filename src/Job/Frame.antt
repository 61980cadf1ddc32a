-- ===== src/Job/Frame.antt =====
-- The methods of taskmasterd/src/jobs/Job.cpp leave the configuration of the job alone.
use task_master.Base.{ℕ, zero, suc, ◌+◌, ◌≡◌, arith}
use task_master.Base.Int.{pos_part}
use task_master.Exec.{◌>>◌}
use task_master.Exec.Keeps.{Keeps, then-Keeps}
use task_master.Config.{JobConfig, ConfigMap}
use task_master.System.{System, Kernel}
use task_master.Job
use task_master.Job.{Job}
use task_master.Job.Callbacks

-- The configuration of the job is `c`.
abbrev pub HasConfig : JobConfig → Job × System → Type 0
HasConfig c s = s.0.config ≡ c

module _ (k : Kernel) (c : JobConfig) where
  start_new-HasConfig : (i : ℕ) → Keeps (HasConfig c) (Job.start_new k i)
  unfolding Job.start_new
  start_new-HasConfig i s h = h

  set_group-HasConfig : Keeps (HasConfig c) (Job.set_group k)
  unfolding Job.set_group
  set_group-HasConfig s h = ground arith

  start_loop-HasConfig : (n i : ℕ) → Keeps (HasConfig c) (Job.start_loop k n i)
  unfolding Job.start_loop
  start_loop-HasConfig zero i = λ s h. h
  start_loop-HasConfig (suc n) i =
      then-Keeps (HasConfig c) (Job.start_new k i) (Job.set_group k >> Job.start_loop k n (i + 1))
        (start_new-HasConfig i)
        (then-Keeps (HasConfig c) (Job.set_group k) (Job.start_loop k n (i + 1)) set_group-HasConfig
          (start_loop-HasConfig n (i + 1)))

  start_in-HasConfig : (st : Callbacks.State) → Keeps (HasConfig c) (Job.start_in k st)
  unfolding Job.start_in
  start_in-HasConfig Callbacks.State.stopping s h = h
  start_in-HasConfig Callbacks.State.stopped s h = h
  start_in-HasConfig Callbacks.State.empty s h =
      start_loop-HasConfig (pos_part s.0.config.numprocs) 0 s h
  start_in-HasConfig _ s h = h

  pub start-HasConfig : Keeps (HasConfig c) (Job.start k)
  unfolding Job.start
  start-HasConfig s h =
      then-Keeps (HasConfig c) (Job.start_in k s.0.state) (Job.set_state Job.starting)
        (start_in-HasConfig s.0.state) (λ t g. g) s h

module _ (k : Kernel) (configs : ConfigMap) (c : JobConfig) where
  pub stop-HasConfig : Keeps (HasConfig c) (Job.stop k configs)
  unfolding Job.stop
  stop-HasConfig s h = ground arith
