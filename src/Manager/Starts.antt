-- ===== src/Manager/Starts.antt =====
-- The loop of JobManager::start (taskmasterd/src/jobs/JobManager.cpp): the jobs that say so are started.
use task_master.Base.{Option, some, none, ◌≡◌, refl, true, false, Bool, if◌then◌else◌}
use task_master.Base.Text.{Text, text_key}
use task_master.Base.Assoc.{lookup}
use task_master.Exec.{returned, pure}
use task_master.Config.{JobConfig, ConfigMap}
use task_master.System.{System, Kernel}
use task_master.Process.Willing.{IsWilling}
use task_master.Job
use task_master.Job.{Job}
use task_master.Job.Frame.{start-HasConfig}
use task_master.Job.Starting.{start_lem}
use task_master.Manager
use task_master.Manager.{Manager}
use task_master.Manager.Fitting.{Fits, Holds, at_job-Leaves, outcome_returned}
use task_master.Manager.Rounds.{Advances}
use task_master.Manager.Standing.{Fitted, IsCurrent, Current}

module _ (k : Kernel) (willing : IsWilling k) (configs : ConfigMap) where
  abbrev pub Waiting : Text → Option Job → Type 0
  Waiting name none = ⊥
  Waiting name (some j) = Fitted (lookup name configs) (some j)

  autostart-IsCurrent :
      (c : JobConfig) (j : Job) (sys : System)
      → Fits c j
      → let r = Manager.autostart k configs (j, sys) in (r.0 ≡ returned tt) × IsCurrent c r.1.0
  autostart-IsCurrent c j sys h = go j.config.autostart refl
    where
      go :
          (b : Bool)
          → j.config.autostart ≡ b
          → let r = (if b then Job.start k else pure tt) (j, sys) in
            (r.0 ≡ returned tt) × IsCurrent c r.1.0
      go false e = (refl, record { same = h.same; plain = h.plain; started = λ auto. absurd cc })
      go true e =
          let (r, st, words) = start_lem k willing j sys h.words in
          (
            outcome_returned _ r,
            record {
              same = rw (start-HasConfig k j.config (j, sys) refl) h.same;
              plain = rw (st) tt;
              started = λ auto. st;
            },
          )

  pub start_round :
      (name : Text) (s : Manager × System)
      → Holds configs s.0
      → Waiting name (lookup name s.0.jobs)
      → Advances
          (Holds configs)
          Waiting
          (λ n. Current (lookup n configs))
          (λ n. Manager.at_job n (Manager.autostart k))
          name
          s
  start_round name s h waiting = go (lookup name configs) (lookup name s.0.jobs) refl refl waiting
    where
      Started : Type 0
      Started =
          Advances (Holds configs) Waiting (λ n. Current (lookup n configs))
            (λ n. Manager.at_job n (Manager.autostart k)) name s

      go :
          (c : Option JobConfig) (o : Option Job)
          → lookup name configs ≡ c
          → lookup name s.0.jobs ≡ o
          → Waiting name o
          → Started
      go c none e f wait = absurd wait
      go none (some j) e f wait = absurd (rw (e) at wait)
      go (some c) (some j) e f wait =
          let (r, current) = autostart-IsCurrent c j s.1 (rw (e) at wait) in
          let (r', h', (j', found, p), frame) =
            at_job-Leaves configs (IsCurrent c) (Manager.autostart k) name s j h f r current in
          (r', h', rw (found, e) p, frame)
