-- ===== src/Server/FromFile.antt =====
-- The jobs of a configuration file (taskmasterd/src/jobs/JobConfig.cpp) in the manager
-- (taskmasterd/src/jobs/JobManager.cpp).
use task_master.Base.{Bool, List, [], ◌∷◌, Option, ◌≡◌, ◌⊎◌, inl, inr, All}
use task_master.Base.Text.{Text, text_key}
use task_master.Base.Assoc.{IsMap, IsFresh}
use task_master.Config.{ConfigMap}
use task_master.Exec.{Error, config_failed}
use task_master.Job
use task_master.Manager
use task_master.Manager.Names.{IsNamed}
use task_master.Options.{Yaml, Result, success, failure}
use task_master.Options.File.{get_job_configs}
use task_master.Options.Keyed.{IsChecked, get_job_configs-IsFile}

-- What the manager gets of a file.
abbrev pub loaded : Result ConfigMap → ConfigMap ⊎ Error
loaded (success configs) = inl configs
loaded (failure e) = inr config_failed

pub loaded_success :
    (r : Result ConfigMap) (configs : ConfigMap) → loaded r ≡ inl configs → r ≡ success configs
loaded_success (success c) configs e = cc
loaded_success (failure x) configs e = cc

names_kept :
    (configs : ConfigMap) → All IsChecked configs → All (λ entry. entry.1.name ≡ entry.0) configs
names_kept [] h = tt
names_kept (c ∷ configs) h = (h.0.0, names_kept configs h.1)

module _ (split_shell : Text → List Text) where
  jobs_named :
      (configs : ConfigMap)
      → All (λ entry. entry.1.name ≡ entry.0) configs
      → All (λ entry. entry.1.config.name ≡ entry.0) (Manager.create_jobs split_shell configs)
  unfolding Job.create
  jobs_named [] h = tt
  jobs_named (c ∷ configs) h = (h.0, jobs_named configs h.1)

  jobs-IsFresh :
      (name : Text) (configs : ConfigMap)
      → IsFresh name configs
      → IsFresh name (Manager.create_jobs split_shell configs)
  jobs-IsFresh name [] h = tt
  jobs-IsFresh name (c ∷ configs) h = (h.0, jobs-IsFresh name configs h.1)

  jobs_distinct :
      (configs : ConfigMap) → IsMap configs → IsMap (Manager.create_jobs split_shell configs)
  jobs_distinct [] h = tt
  jobs_distinct ((name, c) ∷ configs) h = (jobs-IsFresh name configs h.0, jobs_distinct configs h.1)

  module _ {Node : Type 0} (yaml : Yaml Node) (exists : Text → Option Bool) where
    -- The manager that is made of a file has each job under the name of its configuration, and the
    -- names distinct.
    pub create-IsNamed :
        (root : Option Node) (configs : ConfigMap)
        → get_job_configs yaml exists root ≡ success configs
        → IsNamed (Manager.create split_shell configs)
    unfolding Manager.create
    create-IsNamed root configs e =
        let (distinct, checked) = get_job_configs-IsFile yaml exists root configs e in
        let named = names_kept configs checked in
        record {
          jobs_named = jobs_named configs named;
          jobs_distinct = jobs_distinct configs distinct;
          config_named = named;
        }

    -- What is read of a file names every job by its key.
    pub loaded_named :
        (root : Option Node) (configs : ConfigMap)
        → loaded (get_job_configs yaml exists root) ≡ inl configs
        → All (λ entry. entry.1.name ≡ entry.0) configs
    loaded_named root configs e =
        names_kept configs
          (get_job_configs-IsFile yaml exists root configs
            (loaded_success (get_job_configs yaml exists root) configs e)).1
