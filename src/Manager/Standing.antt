-- ===== src/Manager/Standing.antt =====
-- How the jobs stand to the file that a reload has read, between its loops (JobManager::reload,
-- taskmasterd/src/jobs/JobManager.cpp).
use task_master.Base.{List, Option, some, none, ◌≡◌, ◌⊎◌, true}
use task_master.Base.Text.{Text, text_key}
use task_master.Base.Assoc.{lookup}
use task_master.Config.{JobConfig, ConfigMap, config_beq}
use task_master.System.{Kernel}
use task_master.Job.{Job}
use task_master.Job.Callbacks
use task_master.Job.Callbacks.{manager_on_stop}
use task_master.Job.Starting.{HasWords}
use task_master.Manager
use task_master.Manager.{Manager}
use task_master.Manager.Fitting.{IsPlain, Fits}

-- No process of the job is left.
abbrev pub IsOver : Callbacks.State → Type 0
IsOver Callbacks.State.empty = Unit
IsOver Callbacks.State.stopped = Unit
IsOver _ = ⊥

module _ (k : Kernel) (split_shell : Text → List Text) (configs : ConfigMap) where
  -- A job that a reload can apply the file to at once: a job that the file changes or does not name has
  -- no process left.
  pub record IsSteady (name : Text) (j : Job) : Type 0 where
    pub named : j.config.name ≡ name
    pub plain : IsPlain j.state
    pub words : HasWords j.arg_store
    pub over :
        Manager.is_changed k split_shell (lookup name configs) j.config ≡ true → IsOver j.state

  abbrev pub Steady : Text → Option Job → Type 0
  Steady name none = ⊥
  Steady name (some j) = IsSteady name j

-- What the first loop leaves under a name.
abbrev pub Sorted : Option JobConfig → Option Job → Type 0
Sorted c none = Unit
Sorted none (some j) = j.state ≡ Callbacks.State.removed
Sorted (some c) (some j) = (j.state ≡ Callbacks.State.replaced) ⊎ Fits c j

-- And the second.
abbrev pub Complete : Option JobConfig → Option Job → Type 0
Complete none none = Unit
Complete (some c) none = ⊥
Complete c (some j) = Sorted c (some j)

-- And the third.
abbrev pub Fitted : Option JobConfig → Option Job → Type 0
Fitted none none = Unit
Fitted (some c) (some j) = Fits c j
Fitted _ _ = ⊥

-- And the fourth: the jobs are those of the file.
pub record IsCurrent (c : JobConfig) (j : Job) : Type 0 where
  pub same : config_beq c j.config ≡ true
  pub plain : IsPlain j.state
  pub started : j.config.autostart ≡ true → j.state ≡ Callbacks.State.starting

abbrev pub Current : Option JobConfig → Option Job → Type 0
Current none none = Unit
Current (some c) (some j) = IsCurrent c j
Current _ _ = ⊥
