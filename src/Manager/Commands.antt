-- ===== src/Manager/Commands.antt =====
-- The commands on one job (JobManager::start, stop and restart, taskmasterd/src/jobs/JobManager.cpp).
use task_master.Base.{some, none, ◌≡◌, arith, ◌==◌, if◌then◌else◌}
use task_master.Base.Text.{Text, text_key}
use task_master.Base.Assoc.{lookup, lookup-insert}
use task_master.Exec.{Outcome, returned, thrown, terminated, exited, replaced, job_missing}
use task_master.Config.{ConfigMap}
use task_master.Proto.{ok, error}
use task_master.System.{System}
use task_master.Timer.{Method}
use task_master.Job.{Job}
use task_master.Manager
use task_master.Manager.{Manager}
use task_master.Response.{Response, Message, internal_error}

module _ (f : ConfigMap → Method Job Unit) (name : Text) (m : Manager) (sys : System) where
  pub at_job_missing :
      lookup name m.jobs ≡ none
      → Manager.at_job name f (m, sys) ≡ (thrown (job_missing name), (m, sys))
  unfolding Manager.at_job Manager.find_job
  at_job_missing e = ground arith

  pub at_job_found :
      (j : Job)
      → lookup name m.jobs ≡ some j
      → let r = f m.config (j, sys) in
        Manager.at_job name f (m, sys) ≡ (r.0, (Manager.put_job name m r.1.0, r.1.1))
  unfolding Manager.at_job Manager.find_job
  at_job_found j e = ground arith

  -- What the client is told of a run of the job's method; a run that does not come back tells nothing.
  abbrev pub Tells : (Text → Message) → Outcome (Unit {0}) → Outcome Response → Type 0
  Tells done (returned u) r = r ≡ returned (record { status = ok; message = done name })
  Tells done (thrown x) r = r ≡ returned (record { status = error; message = internal_error x })
  Tells done terminated r = r ≡ terminated
  Tells done (exited n) r = r ≡ exited n
  Tells done replaced r = r ≡ replaced

  -- A command on a job is answered with OK if the job's method returns and with ERROR if it throws; in
  -- every case what the method did to the job and the system stays done, and neither another job nor
  -- the configuration is touched.
  pub run_command_found :
      (done : Text → Message) (j : Job) (other : Text)
      → lookup name m.jobs ≡ some j
      → let r = f m.config (j, sys) in
        let c = Manager.run_command f done name (m, sys) in
        Tells done r.0 c.0
        × (lookup other c.1.0.jobs ≡ (if name == other then some r.1.0 else lookup other m.jobs))
        × (c.1.0.config ≡ m.config)
        × (c.1.1 ≡ r.1.1)
  unfolding Manager.run_command Manager.find_job Manager.put_job
  run_command_found done j other e =
      ground (arith, at_job_found j e, lookup-insert name other (f m.config (j, sys)).1.0 m.jobs)
