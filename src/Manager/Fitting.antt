-- ===== src/Manager/Fitting.antt =====
-- How a job stands to the configuration file that a reload reads (JobManager::reload, JobManager::onStop and
-- JobManager::createJob, taskmasterd/src/jobs/JobManager.cpp).
use task_master.Base.{
  List, [], ◌∷◌, ◌++◌, some, none, ◌≡◌, refl, ap, ◌∙◌, All, true, false, Bool, ◌==◌, if◌then◌else◌,
}
use task_master.Base.Text.{Text, text_key}
use task_master.Base.Assoc.{lookup, lookup-insert, IsMap, IsFresh-lookup}
use task_master.Base.Assoc.Keys.{
  All-lookup, IsMap-insert, IsMap-snoc, lookup_snoc_own, lookup_snoc_other,
}
use task_master.Exec.{Outcome, pure, returned, Returns}
use task_master.Config.{JobConfig, ConfigMap, config_beq}
use task_master.Config.Settings.{config_beq-settings}
use task_master.System.{System, Kernel}
use task_master.Timer.{Method}
use task_master.Process.Willing.{IsWilling}
use task_master.Job
use task_master.Job.{Job}
use task_master.Job.Callbacks
use task_master.Job.Frame.{start-HasConfig}
use task_master.Job.Starting.{HasWords, start_lem}
use task_master.Manager
use task_master.Manager.{Manager, or_throw}
use task_master.Manager.Commands.{at_job_found}

-- The job is not marked to be removed or replaced.
abbrev pub IsPlain : Callbacks.State → Type 0
IsPlain Callbacks.State.removed = ⊥
IsPlain Callbacks.State.replaced = ⊥
IsPlain _ = Unit

-- The job needs no more than to be kept.
pub record Fits (c : JobConfig) (j : Job) : Type 0 where
  pub same : config_beq c j.config ≡ true
  pub plain : IsPlain j.state
  pub words : HasWords j.arg_store

-- The file gives each name one configuration, which carries the name, and whose command has a word.
pub record IsFile (split_shell : Text → List Text) (configs : ConfigMap) : Type 0 where
  pub distinct : IsMap configs
  pub named : All (λ entry. entry.1.name ≡ entry.0) configs
  pub environments : All (λ entry. IsMap entry.1.env) configs
  pub words : All (λ entry. HasWords (split_shell entry.1.cmd)) configs

-- The map of the manager while a reload brings these configurations.
pub record Holds (configs : ConfigMap) (m : Manager) : Type 0 where
  pub distinct : IsMap m.jobs
  pub current : m.config ≡ configs

pub put_job-Holds :
    (configs : ConfigMap) (name : Text) (m : Manager) (j : Job)
    → Holds configs m
    → Holds configs (Manager.put_job name m j)
unfolding Manager.put_job
put_job-Holds configs name m j h = record {
  distinct = IsMap-insert name j m.jobs h.distinct;
  current = h.current;
}

pub lookup-put_job :
    (name other : Text) (m : Manager) (j : Job)
    → lookup other (Manager.put_job name m j).jobs
      ≡ (if name == other then some j else lookup other m.jobs)
unfolding Manager.put_job
lookup-put_job name other m j = lookup-insert name other j m.jobs

pub own_key : (name : Text) → (name == name) ≡ true
own_key name = (text_key.same_iff name name).1 refl

-- A method of a job that returns, by what it leaves of the job: it leaves the other jobs alone.
abbrev pub Leaves :
    ConfigMap
    → (Job → Type 0)
    → Text
    → Manager × System
    → Outcome (Unit {0}) × (Manager × System)
    → Type 0
Leaves configs P name s r =
    (r.0 ≡ returned tt)
    × Holds configs r.1.0
    × ((j : Job) × (lookup name r.1.0.jobs ≡ some j) × P j)
    × ((other : Text) → (name == other) ≡ false → lookup other r.1.0.jobs ≡ lookup other s.0.jobs)

module _ (configs : ConfigMap) (P : Job → Type 0) (f : ConfigMap → Method Job Unit)
    (name : Text) where
  pub at_job-Leaves :
      (s : Manager × System) (j : Job)
      → Holds configs s.0
      → lookup name s.0.jobs ≡ some j
      → (f s.0.config (j, s.1)).0 ≡ returned tt
      → P (f s.0.config (j, s.1)).1.0
      → Leaves configs P name s (Manager.at_job name f s)
  at_job-Leaves s j h found e p =
      let u = (f s.0.config (j, s.1)).1 in
      rw (at_job_found f name s.0 s.1 j found, e)
        (
          refl,
          put_job-Holds configs name s.0 u.0 h,
          (u.0, lookup-put_job name name s.0 u.0 ∙ rw (own_key name) refl, p),
          λ other d. lookup-put_job name other s.0 u.0 ∙ rw (d) refl,
        )

pub outcome_returned : {S : Type 0} (r : Outcome (Unit {0}) × S) → Returns r → r.0 ≡ returned tt
outcome_returned (returned u, s) h = refl
outcome_returned (_, s) h = absurd h

module _ (k : Kernel) (willing : IsWilling k) (split_shell : Text → List Text) (configs : ConfigMap)
    (file : IsFile split_shell configs) where
  created-Fits :
      (name : Text) (c : JobConfig)
      → lookup name configs ≡ some c
      → Fits c (Job.create split_shell c)
  unfolding Job.create
  created-Fits name c e =
      let env = All-lookup (λ entry. IsMap entry.1.env) name c configs file.environments e in
      record {
        same = (config_beq-settings c c env env).1 refl;
        plain = tt;
        words =
            All-lookup (λ entry. HasWords (split_shell entry.1.cmd)) name c configs file.words e;
      }

  started-Fits :
      (c : JobConfig) (j : Job) (sys : System) → Fits c j → Fits c (Job.start k (j, sys)).1.0
  started-Fits c j sys h =
      let (r, st, words) = start_lem k willing j sys h.words in
      record {
        same = rw (start-HasConfig k j.config (j, sys) refl) h.same;
        plain = rw (st) tt;
        words = rw (words) h.words;
      }

  abbrev added : Text → JobConfig → Manager → Manager
  added name c m = record m { jobs = m.jobs ++ (name, Job.create split_shell c) ∷ [] }

  added-Holds :
      (name : Text) (c : JobConfig) (m : Manager)
      → Holds configs m
      → lookup name m.jobs ≡ none
      → Holds configs (added name c m)
  added-Holds name c m h missing = record {
    distinct =
        IsMap-snoc name (Job.create split_shell c) m.jobs h.distinct
          (IsFresh-lookup name m.jobs missing);
    current = h.current;
  }

  create_job_steps :
      (name : Text) (c : JobConfig) (s : Manager × System)
      → Holds configs s.0
      → lookup name configs ≡ some c
      → lookup name s.0.jobs ≡ none
      → Manager.create_job k split_shell name s
        ≡ (if c.autostart then Manager.at_job name (λ old. Job.start k) else pure tt)
            (added name c s.0, s.1)
  unfolding Manager.create_job Manager.create_new
  create_job_steps name c s h known missing =
      rw (ap (lookup name) h.current ∙ known, missing, or_throw) refl

  -- A created job carries its configuration and is started if it says so; the other jobs stay.
  pub create_job-Leaves :
      (name : Text) (c : JobConfig) (s : Manager × System)
      → Holds configs s.0
      → lookup name configs ≡ some c
      → lookup name s.0.jobs ≡ none
      → Leaves configs (Fits c) name s (Manager.create_job k split_shell name s)
  create_job-Leaves name c s h known missing =
      rw (create_job_steps name c s h known missing) (begin c.autostart)
    where
      fresh : Job
      fresh = Job.create split_shell c

      fits : Fits c fresh
      fits = created-Fits name c known

      t : Manager × System
      t = (added name c s.0, s.1)

      holds : Holds configs t.0
      holds = added-Holds name c s.0 h missing

      own : lookup name t.0.jobs ≡ some fresh
      own = lookup_snoc_own name fresh s.0.jobs missing

      others :
          (other : Text) → (name == other) ≡ false → lookup other t.0.jobs ≡ lookup other s.0.jobs
      others other d = lookup_snoc_other name other fresh s.0.jobs d

      started : Leaves configs (Fits c) name t (Manager.at_job name (λ old. Job.start k) t)
      started =
          at_job-Leaves configs (Fits c) (λ old. Job.start k) name t fresh holds own
            (outcome_returned _ (start_lem k willing fresh s.1 fits.words).0)
            (started-Fits c fresh s.1 fits)

      begin :
          (b : Bool)
          → Leaves configs
              (Fits c)
              name
              s
              ((if b then Manager.at_job name (λ old. Job.start k) else pure tt) t)
      begin true =
          let (r, h', found, frame) = started in
          (r, h', found, λ other d. frame other d ∙ others other d)
      begin false = (refl, holds, (fresh, own, fits), others)
