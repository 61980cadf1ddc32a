-- ===== src/Manager/Reload.antt =====
-- A reload of the configuration file while a job runs (JobManager::reload,
-- taskmasterd/src/jobs/JobManager.cpp).
use task_master.Base.{
  List, [], ◌∷◌, ◌≡◌, refl, sym, ap, subst, ◌∙◌, arith, true, false, All, length, inl,
}
use task_master.Base.Text.{Text, text_key, text_beq_refl}
use task_master.Base.Assoc.{lookup, insert}
use task_master.Exec.{returned}
use task_master.Config.{JobConfig, ConfigMap, config_beq}
use task_master.Proto.{ok}
use task_master.System.{System, Kernel}
use task_master.Process.Willing.{IsWilling}
use task_master.Job
use task_master.Job.{Job}
use task_master.Job.Callbacks
use task_master.Job.Frame.{start-HasConfig, stop-HasConfig}
use task_master.Job.Stopping.{IsLive, IsStopping, IsUp, stop_up}
use task_master.Job.Restarting.{start_stopping, reset-IsStopping, length-reset}
use task_master.Manager
use task_master.Manager.{Manager, for_names}
use task_master.Response.{reload_started}

abbrev pub only : Text → Job → ConfigMap → Manager
only name j configs = record { jobs = (name, j) ∷ []; config = configs }

module _ (k : Kernel) (w : IsWilling k) (split_shell : Text → List Text) (name : Text)
    (c : JobConfig) where
  abbrev configs : ConfigMap
  configs = (name, c) ∷ []

  stop_round :
      (j : Job) (sys : System)
      → config_beq c j.config ≡ false
      → let r = Job.stop k configs (j, sys) in
        Manager.at_job name (Manager.stop_if_changed k split_shell name) (only name j configs, sys)
        ≡ (r.0, (only name r.1.0 configs, r.1.1))
  unfolding Manager.at_job Manager.find_job Manager.put_job insert lookup Manager.stop_if_changed
  stop_round j sys d = ground (arith, text_beq_refl name)

  create_round :
      (j : Job) (sys : System)
      → Manager.create_if_missing k split_shell name (only name j configs, sys)
        ≡ (returned tt, (only name j configs, sys))
  unfolding Manager.create_if_missing lookup
  create_round j sys = ground (arith, text_beq_refl name)

  update_round :
      (j : Job) (sys : System)
      → j.state ≡ Callbacks.State.stopping
      → Manager.update_job k split_shell name (only name j configs, sys)
        ≡ (returned tt, (only name j configs, sys))
  unfolding Manager.update_job lookup
  update_round j sys st = ground (arith, text_beq_refl name)

  start_round :
      (j : Job) (sys : System)
      → j.config.autostart ≡ true
      → let r = Job.start k (j, sys) in
        Manager.at_job name (Manager.autostart k) (only name j configs, sys)
        ≡ (r.0, (only name r.1.0 configs, r.1.1))
  unfolding Manager.at_job Manager.find_job Manager.put_job insert lookup
  start_round j sys a = ground (arith, text_beq_refl name)

  -- A reload that brings another configuration for the one job of the daemon, while the job is up, its
  -- processes have not ended by themselves and it is marked to start automatically: the reload succeeds,
  -- but the job stays under its old configuration, STARTING, with its processes asked to stop. So the
  -- job is not marked to be replaced when they have ended, but starts them again. The kernel refuses no
  -- call.
  pub reload_keeps_old :
      (j : Job) (sys : System) (old : ConfigMap)
      → config_beq c j.config ≡ false
      → j.config.autostart ≡ true
      → IsUp j.state
      → All IsLive j.processes
      → let r = Manager.reload k split_shell (inl configs) (only name j old, sys) in
        (r.0 ≡ returned (record { status = ok; message = reload_started }))
        × ((j' : Job) × (r.1.0 ≡ only name j' configs)
            × (j'.config ≡ j.config)
            × (j'.state ≡ Callbacks.State.starting)
            × All IsStopping j'.processes
            × (length j'.processes ≡ length j.processes))
  unfolding Manager.reload Manager.update_jobs Manager.start_all for_names
  reload_keeps_old j sys old d a up live =
      let stopped = stop_up k w configs j sys up live in
      let u = (Job.stop k configs (j, sys)).1 in
      let again = start_stopping k u.0 u.1 stopped.1 stopped.2 in
      let v = (Job.start k (u.0, u.1)).1 in
      let kept = stop-HasConfig k configs j.config (j, sys) refl in
      let auto = start_round u.0 u.1 (ap (λ (x : JobConfig). x.autostart) kept ∙ a) in
      let stop_it = stop_round j sys d in
      let create_it = create_round u.0 u.1 in
      let update_it = update_round u.0 u.1 stopped.1 in
      (
        ground (arith, stop_it, create_it, update_it, auto, stopped, again),
        (
          v.0,
          ground (arith, stop_it, create_it, update_it, auto, stopped, again),
          start-HasConfig k j.config (u.0, u.1) kept,
          ap (λ (x : Job). x.state) again.1,
          subst (λ (x : Job). All IsStopping x.processes) (sym again.1)
              (reset-IsStopping u.0.processes stopped.2),
          ap (λ (x : Job). length x.processes) again.1 ∙ length-reset u.0.processes ∙ stopped.3,
        ),
      )
