-- ===== src/Manager.antt =====
-- taskmasterd/include/jobs/JobManager.hpp and src/jobs/JobManager.cpp: the jobs by name and the
-- configuration that they are compared with.
pub mod Names
pub mod Commands
pub mod Reload
pub mod Rounds
pub mod Fitting
pub mod Standing
pub mod Stops
pub mod Updates
pub mod Starts
pub mod Applies
use task_master.Base.{
  ◌⊎◌, inl, inr, ℕ, List, [], ◌∷◌, ◌++◌, map, Option, some, none, Bool, true, false, not, ◌||◌,
  if◌then◌else◌, ◌==◌,
}
use task_master.Base.Text.{Text, text_key}
use task_master.Base.Assoc.{lookup, insert, erase}
use task_master.Exec.{
  pure, throw, catch, within, Outcome, ◌>>=◌, ◌>>◌, returned, job_missing, job_not_created, Error,
  out_of_range,
}
use task_master.Config.{JobConfig, ConfigMap, config_beq}
use task_master.Proto.{CommandStatus, ok, error, argument_error}
use task_master.System.{System, Kernel}
use task_master.Job
use task_master.Job.{Job}
use task_master.Job.Callbacks
use task_master.Response.{
  Response, Message, put_in_starting, put_in_stopping, put_in_restarting, cannot_find,
  internal_error, reload_failed, reload_started, job_tables, job_table,
}
use task_master.Timer.{Method, system, this, update}

pub record Manager : Type 0 where
  pub jobs : List (Text × Job)
  pub config : ConfigMap

abbrev pub keys {ℓ} : {V : Type ℓ} → List (Text × V) → List Text
keys [] = []
keys ((k, v) ∷ m) = k ∷ keys m

-- A loop over the names of a map.
unfoldable pub for_names : (Text → Method Manager Unit) → List Text → Method Manager Unit
for_names f [] = pure tt
for_names f (n ∷ ns) = do f n; for_names f ns

abbrev pub or_throw {ℓ} : {A S : Type ℓ} → Error → Option A → S → Outcome A × S
or_throw e none = throw e
or_throw e (some a) = pure a

-- `findJob`
unfoldable pub find_job : Text → Method Manager Job
find_job name s = or_throw (job_missing name) (lookup name s.0.jobs) s

unfoldable pub put_job : Text → Manager → Job → Manager
put_job name m j = record m { jobs = insert name j m.jobs }

-- A method of the job under a name: its changes stay in the map in every case.
unfoldable pub at_job : Text → (ConfigMap → Method Job Unit) → Method Manager Unit
unfolding find_job put_job
at_job name f = do
  j ← find_job name
  m ← this
  λ s. let (r, u) = f m.config (j, s.1) in (r, (put_job name s.0 u.0, u.1))

-- The commands on one job: `ARGUMENT_ERROR` if there is no such job, `ERROR` if its method throws.
unfoldable pub run_command :
    (ConfigMap → Method Job Unit) → (Text → Message) → Text → Method Manager Response
run_command f done name =
    catch
      (do
        find_job name
        catch (do at_job name f; pure (record { status = ok; message = done name }))
            (λ e. pure (record { status = error; message = internal_error e })))
      (λ e. pure (record { status = argument_error; message = cannot_find name }))

-- `status()` and `status(name)`, which print the jobs with `operator<<`.
unfoldable pub status_all : Method Manager Response
status_all = do
  m ← this
  pure (record { status = ok; message = job_tables (map (λ e. e.1) m.jobs) })

unfoldable pub status_job : Text → Method Manager Response
unfolding find_job
status_job name =
    catch (do j ← find_job name; pure (record { status = ok; message = job_table j }))
      (λ e. pure (record { status = argument_error; message = cannot_find name }))

module _ (k : Kernel) where
  unfoldable pub start_job : Text → Method Manager Response
  unfolding run_command
  start_job = run_command (λ configs. Job.start k) put_in_starting

  unfoldable pub stop_job : Text → Method Manager Response
  unfolding run_command
  stop_job = run_command (λ configs. Job.stop k configs) put_in_stopping

  abbrev pub stop_and_start : ConfigMap → Method Job Unit
  stop_and_start configs = do Job.stop k configs; Job.start k

  unfoldable pub restart_job : Text → Method Manager Response
  unfolding run_command
  restart_job = run_command stop_and_start put_in_restarting

  -- `start()`: one round of its loop, and the loop.
  abbrev pub autostart : ConfigMap → Method Job Unit
  autostart configs = do j ← this; if j.config.autostart then Job.start k else pure tt

  unfoldable pub start_all : Method Manager Unit
  start_all = do m ← this; for_names (λ name. at_job name autostart) (keys m.jobs)

  -- `kill()`
  unfoldable pub kill : Method Manager Unit
  kill = do m ← this; for_names (λ name. at_job name (Job.stop k)) (keys m.jobs)

module _ (k : Kernel) (split_shell : Text → List Text) where
  abbrev add_job : Text → JobConfig → Method Manager Unit
  add_job name config =
      update (λ m. record m { jobs = m.jobs ++ (name, Job.create split_shell config) ∷ [] })

  create_new : Text → JobConfig → Option Job → Method Manager Unit
  unfolding Job.create
  create_new name config (some j) = throw (job_not_created name)
  create_new name config none = do
    add_job name config
    if config.autostart then at_job name (λ configs. Job.start k) else pure tt

  -- `createJob`
  unfoldable pub create_job : Text → Method Manager Unit
  unfolding create_new
  create_job name = do
    m ← this
    config ← or_throw out_of_range (lookup name m.config)
    create_new name config (lookup name m.jobs)

  abbrev erase_job : Text → Job → Method Manager Unit
  erase_job name j = do
    update (λ m. record m { jobs = erase name m.jobs })
    system (Job.destroy k j.processes)

  abbrev update_in : Text → Job → Callbacks.State → Method Manager Unit
  update_in name j Callbacks.State.removed = erase_job name j
  update_in name j Callbacks.State.replaced = do erase_job name j; create_job name
  update_in name j _ = pure tt

  abbrev update_found : Text → Option Job → Method Manager Unit
  update_found name none = pure tt
  update_found name (some j) = update_in name j j.state

  -- One round of `update()`, for the job under a name.
  unfoldable pub update_job : Text → Method Manager Unit
  unfolding Job.destroy
  update_job name = do m ← this; update_found name (lookup name m.jobs)

  -- `update()`. A job that the loop creates is not marked, so it needs no round.
  unfoldable pub update_jobs : Method Manager Unit
  update_jobs = do m ← this; for_names update_job (keys m.jobs)

  abbrev is_changed : Option JobConfig → JobConfig → Bool
  is_changed none config = true
  is_changed (some c) config = not (config_beq c config)

  -- The rounds of the loops of `reload()`.
  pub stop_if_changed : Text → ConfigMap → Method Job Unit
  stop_if_changed name configs = do
    j ← this
    if is_changed (lookup name configs) j.config then Job.stop k configs else pure tt

  abbrev create_if_none : Text → Option Job → Method Manager Unit
  create_if_none name none = create_job name
  create_if_none name (some j) = pure tt

  pub create_if_missing : Text → Method Manager Unit
  create_if_missing name = do m ← this; create_if_none name (lookup name m.jobs)

  -- `reload()` when the file has been read.
  apply_config : ConfigMap → Method Manager Unit
  unfolding stop_if_changed create_if_missing
  apply_config configs = do
    update (λ m. record m { config = configs })
    m ← this
    for_names (λ name. at_job name (stop_if_changed name)) (keys m.jobs)
    for_names create_if_missing (keys configs)
    update_jobs
    start_all k

  -- `reload()`, by what `getJobConfigs` returns or throws.
  unfoldable pub reload : ConfigMap ⊎ Error → Method Manager Response
  unfolding apply_config
  reload (inr e) = pure (record { status = error; message = reload_failed e })
  reload (inl configs) = do
    apply_config configs
    pure (record { status = ok; message = reload_started })

-- The constructor: a job for each configuration.
abbrev pub create_jobs : (Text → List Text) → ConfigMap → List (Text × Job)
create_jobs split_shell [] = []
create_jobs split_shell ((name, config) ∷ rest) =
    (name, Job.create split_shell config) ∷ create_jobs split_shell rest

unfoldable pub create : (Text → List Text) → ConfigMap → Manager
unfolding Job.create
create split_shell configs = record { jobs = create_jobs split_shell configs; config = configs }
