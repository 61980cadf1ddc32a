-- ===== src/Manager/Names.antt =====
-- Which job sits under which name in the map of taskmasterd/src/jobs/JobManager.cpp.
use task_master.Base.{
  List, [], ◌∷◌, ◌++◌, Option, some, none, ◌≡◌, refl, ap, ◌∙◌, All, ◌⊎◌, inl, inr, Option-cases,
}
use task_master.Base.Text.{Text, text_key}
use task_master.Base.Assoc.{lookup, IsMap, IsFresh-lookup}
use task_master.Base.Assoc.Keys.{
  All-insert, All-erase, All-lookup, All-snoc, IsMap-insert, IsMap-erase, IsMap-snoc,
}
use task_master.Exec.{Error, pure, catch, ◌>>=◌, ◌>>◌, job_missing}
use task_master.Exec.Keeps.{Keeps, then-Keeps, catch-Keeps, if-Keeps, handle-Keeps}
use task_master.Config.{JobConfig, ConfigMap}
use task_master.System.{System, Kernel}
use task_master.Timer.{Method}
use task_master.Job
use task_master.Job.{Job}
use task_master.Job.Callbacks
use task_master.Job.Frame.{HasConfig, start-HasConfig, stop-HasConfig}
use task_master.Manager
use task_master.Manager.{Manager, keys, for_names, or_throw}
use task_master.Manager.Commands.{at_job_missing, at_job_found}
use task_master.Proto.{ok, error, argument_error}
use task_master.Response.{Message, Response, internal_error, cannot_find, job_table}

-- Every job carries the configuration of its name, and every configuration the name of its key. So the
-- job that `JobManager::onStop` looks up by the name of a job's configuration is that job.
pub record IsNamed (m : Manager) : Type 0 where
  pub jobs_named : All (λ entry. entry.1.config.name ≡ entry.0) m.jobs
  pub jobs_distinct : IsMap m.jobs
  pub config_named : All (λ entry. entry.1.name ≡ entry.0) m.config

abbrev pub Named : Manager × System → Type 0
Named s = IsNamed s.0

-- The method of a job keeps its configuration.
abbrev pub KeepsConfig : (ConfigMap → Method Job Unit) → Type 0
KeepsConfig f = (configs : ConfigMap) (c : JobConfig) → Keeps (HasConfig c) (f configs)

for_names-Named :
    (f : Text → Method Manager Unit) (ns : List Text)
    → ((n : Text) → Keeps Named (f n))
    → Keeps Named (for_names f ns)
unfolding for_names
for_names-Named f [] h = λ s n. n
for_names-Named f (x ∷ ns) h =
    then-Keeps Named (f x) (for_names f ns) (h x) (for_names-Named f ns h)

put_job-IsNamed :
    (name : Text) (m : Manager) (j : Job)
    → IsNamed m
    → j.config.name ≡ name
    → IsNamed (Manager.put_job name m j)
unfolding Manager.put_job
put_job-IsNamed name m j h e = record {
  jobs_named = All-insert (λ entry. entry.1.config.name ≡ entry.0) name j m.jobs e h.jobs_named;
  jobs_distinct = IsMap-insert name j m.jobs h.jobs_distinct;
  config_named = h.config_named;
}

pub at_job-Named :
    (name : Text) (f : ConfigMap → Method Job Unit)
    → KeepsConfig f
    → Keeps Named (Manager.at_job name f)
at_job-Named name f kf s h = elim (Option-cases (lookup name s.0.jobs)) [
  | inl e ↦ rw (at_job_missing f name s.0 s.1 e) h
  | inr (j, e) ↦ rw (at_job_found f name s.0 s.1 j e) (
      put_job-IsNamed name s.0 (f s.0.config (j, s.1)).1.0 h (
        ap (λ (c : JobConfig). c.name) (kf s.0.config j.config (j, s.1) refl)
        ∙ All-lookup (λ entry. entry.1.config.name ≡ entry.0) name j s.0.jobs h.jobs_named e))
]

autostart-KeepsConfig : (k : Kernel) → KeepsConfig (Manager.autostart k)
autostart-KeepsConfig k configs c s h =
    if-Keeps (HasConfig c) s.0.config.autostart (Job.start k) (pure tt) (start-HasConfig k c)
      (λ t g. g) s h

pub stop_and_start-KeepsConfig : (k : Kernel) → KeepsConfig (Manager.stop_and_start k)
stop_and_start-KeepsConfig k configs c =
    then-Keeps (HasConfig c) (Job.stop k configs) (Job.start k) (stop-HasConfig k configs c)
      (start-HasConfig k c)

pub start_all-Named : (k : Kernel) → Keeps Named (Manager.start_all k)
unfolding Manager.start_all
start_all-Named k s h =
    for_names-Named (λ name. Manager.at_job name (Manager.autostart k)) (keys s.0.jobs)
      (λ name. at_job-Named name (Manager.autostart k) (autostart-KeepsConfig k)) s h

pub kill-Named : (k : Kernel) → Keeps Named (Manager.kill k)
unfolding Manager.kill
kill-Named k s h =
    for_names-Named (λ name. Manager.at_job name (Job.stop k)) (keys s.0.jobs)
      (λ name. at_job-Named name (Job.stop k) (λ configs c. stop-HasConfig k configs c)) s h

or_throw-Named :
    {A B : Type 0} (e : Error) (o : Option A) (f : A → Method Manager B)
    → ((a : A) → o ≡ some a → Keeps Named (f a))
    → Keeps Named (or_throw e o >>= f)
or_throw-Named e none f kf s h = h
or_throw-Named e (some a) f kf s h = kf a refl s h

module _ (k : Kernel) (split_shell : Text → List Text) where
  create_new-Named :
      (name : Text) (config : JobConfig)
      → config.name ≡ name
      → (s : Manager × System) → Named s
      → Named (Manager.create_new k split_shell name config (lookup name s.0.jobs) s).1
  unfolding Manager.create_new Job.create
  create_new-Named name config e s h = elim (Option-cases (lookup name s.0.jobs)) [
    | inr (j, q) ↦ rw (q, Manager.create_new) h
    | inl q ↦
        rw (q, Manager.create_new)
          (if-Keeps Named config.autostart (Manager.at_job name (λ configs. Job.start k)) (pure tt)
            (at_job-Named name (λ configs. Job.start k) (λ configs c. start-HasConfig k c))
            (λ t g. g)
            (record s.0 { jobs = s.0.jobs ++ (name, Job.create split_shell config) ∷ [] }, s.1)
            (record {
              jobs_named =
                  All-snoc (λ entry. entry.1.config.name ≡ entry.0) name
                    (Job.create split_shell config) s.0.jobs h.jobs_named e;
              jobs_distinct =
                  IsMap-snoc name (Job.create split_shell config) s.0.jobs h.jobs_distinct
                    (IsFresh-lookup name s.0.jobs q);
              config_named = h.config_named;
            }))
  ]

  create_job-Named : (name : Text) → Keeps Named (Manager.create_job k split_shell name)
  unfolding Manager.create_job
  create_job-Named name s h = elim (Option-cases (lookup name s.0.config)) [
    | inl q ↦ rw (q, or_throw) h
    | inr (c, q) ↦
        rw (q, or_throw)
          (create_new-Named name c
            (All-lookup (λ entry. entry.1.name ≡ entry.0) name c s.0.config h.config_named q) s h)
  ]

  erase_job-Named : (name : Text) (j : Job) → Keeps Named (Manager.erase_job k split_shell name j)
  erase_job-Named name j s h = record {
    jobs_named = All-erase (λ entry. entry.1.config.name ≡ entry.0) name s.0.jobs h.jobs_named;
    jobs_distinct = IsMap-erase name s.0.jobs h.jobs_distinct;
    config_named = h.config_named;
  }

  update_job-Named : (name : Text) → Keeps Named (Manager.update_job k split_shell name)
  unfolding Manager.update_job
  update_job-Named name s h = go (lookup name s.0.jobs)
    where
      again :
          (j : Job) → Keeps Named (Manager.update_in k split_shell name j Callbacks.State.replaced)
      again j =
          then-Keeps Named (Manager.erase_job k split_shell name j)
            (Manager.create_job k split_shell name) (erase_job-Named name j) (create_job-Named name)

      by_state :
          (j : Job) (st : Callbacks.State) → Named (Manager.update_in k split_shell name j st s).1
      by_state j Callbacks.State.removed = erase_job-Named name j s h
      by_state j Callbacks.State.replaced = again j s h
      by_state j _ = h

      go : (o : Option Job) → Named (Manager.update_found k split_shell name o s).1
      go none = h
      go (some j) = by_state j j.state

  create_if_missing-Named :
      (name : Text) → Keeps Named (Manager.create_if_missing k split_shell name)
  unfolding Manager.create_if_missing
  create_if_missing-Named name s h = go (lookup name s.0.jobs)
    where
      go : (o : Option Job) → Named (Manager.create_if_none k split_shell name o s).1
      go none = create_job-Named name s h
      go (some j) = h

  stop_if_changed-KeepsConfig :
      (name : Text) → KeepsConfig (Manager.stop_if_changed k split_shell name)
  unfolding Manager.stop_if_changed
  stop_if_changed-KeepsConfig name configs c s h =
      if-Keeps (HasConfig c) (Manager.is_changed k split_shell (lookup name configs) s.0.config)
        (Job.stop k configs) (pure tt) (stop-HasConfig k configs c) (λ t g. g) s h

  pub update_jobs-Named : Keeps Named (Manager.update_jobs k split_shell)
  unfolding Manager.update_jobs
  update_jobs-Named s h =
      for_names-Named (Manager.update_job k split_shell) (keys s.0.jobs) update_job-Named s h

  apply_config-Named :
      (configs : ConfigMap)
      → All (λ entry. entry.1.name ≡ entry.0) configs
      → Keeps Named (Manager.apply_config k split_shell configs)
  unfolding Manager.apply_config
  apply_config-Named configs named s h =
      then-Keeps Named stops (creates >> (updates >> Manager.start_all k))
        (for_names-Named (λ name. Manager.at_job name (Manager.stop_if_changed k split_shell name))
          (keys s.0.jobs)
          (λ name.
            at_job-Named name (Manager.stop_if_changed k split_shell name)
              (stop_if_changed-KeepsConfig name)))
        (then-Keeps Named creates (updates >> Manager.start_all k)
          (for_names-Named (Manager.create_if_missing k split_shell) (keys configs)
            create_if_missing-Named)
          (then-Keeps Named updates (Manager.start_all k) update_jobs-Named (start_all-Named k)))
        (record s.0 { config = configs }, s.1)
        (record {
          jobs_named = h.jobs_named;
          jobs_distinct = h.jobs_distinct;
          config_named = named;
        })
    where
      stops : Method Manager Unit
      stops =
          for_names (λ name. Manager.at_job name (Manager.stop_if_changed k split_shell name))
            (keys s.0.jobs)

      creates : Method Manager Unit
      creates = for_names (Manager.create_if_missing k split_shell) (keys configs)

      updates : Method Manager Unit
      updates = Manager.update_jobs k split_shell

  pub reload-Named :
      (file : ConfigMap ⊎ Error)
      → ((configs : ConfigMap) → file ≡ inl configs → All (λ entry. entry.1.name ≡ entry.0) configs)
      → Keeps Named (Manager.reload k split_shell file)
  unfolding Manager.reload
  reload-Named (inr e) named = λ s h. h
  reload-Named (inl configs) named =
      then-Keeps Named (Manager.apply_config k split_shell configs) (pure _)
        (apply_config-Named configs (named configs refl)) (λ t g. g)

pub run_command-Named :
    (f : ConfigMap → Method Job Unit) (done : Text → Message) (name : Text)
    → KeepsConfig f
    → Keeps Named (Manager.run_command f done name)
unfolding Manager.run_command Manager.find_job
run_command-Named f done name kf s h =
    handle-Keeps Named
      ((or_throw (job_missing name) (lookup name s.0.jobs) >>= λ _. catch run failed) s) missing
      (found (lookup name s.0.jobs)) (λ e t g. g)
  where
    failed : Error → Method Manager Response
    failed e = pure (record { status = error; message = internal_error e })

    missing : Error → Method Manager Response
    missing e = pure (record { status = argument_error; message = cannot_find name })

    run : Method Manager Response
    run = do Manager.at_job name f; pure (record { status = ok; message = done name })

    found : (o : Option Job) → Named ((or_throw (job_missing name) o >>= λ _. catch run failed) s).1
    found none = h
    found (some j) =
        catch-Keeps Named run failed
          (then-Keeps Named (Manager.at_job name f) (pure _) (at_job-Named name f kf) (λ t g. g))
          (λ e t g. g) s h

pub status_job-Named : (name : Text) → Keeps Named (Manager.status_job name)
unfolding Manager.status_job
status_job-Named name s h = found (lookup name s.0.jobs)
  where
    failed : Error → Method Manager Response
    failed e = pure (record { status = argument_error; message = cannot_find name })

    found :
        (o : Option Job)
        → Named
            (catch
              (or_throw (job_missing name) o >>= λ j.
                pure (record { status = ok; message = job_table j }))
              failed
              s).1
    found none = h
    found (some j) = h
