-- ===== src/Manager/Stops.antt =====
-- The first loop of JobManager::reload (taskmasterd/src/jobs/JobManager.cpp): the jobs that the file changes or
-- does not name are stopped.
use task_master.Base.{
  List, some, ◌≡◌, refl, ap, ◌∙◌, inl, inr, Option-cases, Bool-cases, true, false,
}
use task_master.Base.Text.{Text, text_key}
use task_master.Base.Assoc.{lookup}
use task_master.Exec.{Outcome, returned}
use task_master.Config.{ConfigMap, config_beq}
use task_master.System.{System, Kernel}
use task_master.Job
use task_master.Job.{Job}
use task_master.Job.Callbacks
use task_master.Job.Callbacks.{manager_on_stop}
use task_master.Manager
use task_master.Manager.{Manager}
use task_master.Timer.{Method}
use task_master.Manager.Fitting.{Holds, at_job-Leaves}
use task_master.Manager.Rounds.{Advances}
use task_master.Manager.Standing.{IsOver, IsSteady, Steady, Sorted}

module _ (k : Kernel) (split_shell : Text → List Text) (configs : ConfigMap) where
  pub stop_over :
      (j : Job) (sys : System)
      → IsOver j.state
      → Job.stop k configs (j, sys)
        ≡ (returned tt, (record j { state = manager_on_stop configs j.config j.state }, sys))
  unfolding Job.stop
  stop_over j sys h = go j.state refl
    where
      go :
          (st : Callbacks.State)
          → j.state ≡ st
          → Job.stop k configs (j, sys)
            ≡ (returned tt, (record j { state = manager_on_stop configs j.config j.state }, sys))
      go Callbacks.State.empty e = rw (e, Job.stop) refl
      go Callbacks.State.stopped e = rw (e, Job.stop) refl
      go Callbacks.State.starting e = absurd (rw (e) at h)
      go Callbacks.State.running e = absurd (rw (e) at h)
      go Callbacks.State.stopping e = absurd (rw (e) at h)
      go Callbacks.State.replaced e = absurd (rw (e) at h)
      go Callbacks.State.removed e = absurd (rw (e) at h)

  abbrev stop_it : Text → Job → System → Outcome (Unit {0}) × (Job × System)
  stop_it name j sys = Manager.stop_if_changed k split_shell name configs (j, sys)

  stop_kept :
      (name : Text) (j : Job) (sys : System)
      → Manager.is_changed k split_shell (lookup name configs) j.config ≡ false
      → stop_it name j sys ≡ (returned tt, (j, sys))
  unfolding Manager.stop_if_changed
  stop_kept name j sys e = rw (e) refl

  stop_changed :
      (name : Text) (j : Job) (sys : System)
      → IsSteady k split_shell configs name j
      → Manager.is_changed k split_shell (lookup name configs) j.config ≡ true
      → stop_it name j sys
        ≡ (returned tt, (record j { state = manager_on_stop configs j.config j.state }, sys))
  unfolding Manager.stop_if_changed
  stop_changed name j sys h e = rw (e) (stop_over j sys (h.over e))

  stop_it-Sorted :
      (name : Text) (j : Job) (sys : System)
      → IsSteady k split_shell configs name j
      → ((stop_it name j sys).0 ≡ returned tt)
        × Sorted (lookup name configs) (some (stop_it name j sys).1.0)
  unfolding manager_on_stop
  stop_it-Sorted name j sys h = elim (Option-cases (lookup name configs)) [
    | inl e ↦
        rw (stop_changed name j sys h (rw (e) refl), e)
          (refl, rw (ap (λ n. lookup n configs) h.named ∙ e) refl)
    | inr (c, e) ↦ elim (Bool-cases (config_beq c j.config)) [
      | inl same ↦
          rw (stop_kept name j sys (rw (e, same) refl), e)
            (refl, inr (record { same = same; plain = h.plain; words = h.words }))
      | inr other ↦
          rw (stop_changed name j sys h (rw (e, other) refl), e)
            (refl, inl (rw (ap (λ n. lookup n configs) h.named ∙ e, other) refl))
    ]
  ]

  abbrev pub stopping_round : Text → Method Manager Unit
  stopping_round name = Manager.at_job name (Manager.stop_if_changed k split_shell name)

  pub stop_round :
      (name : Text) (s : Manager × System)
      → Holds configs s.0
      → Steady k split_shell configs name (lookup name s.0.jobs)
      → Advances
          (Holds configs)
          (Steady k split_shell configs)
          (λ n. Sorted (lookup n configs))
          stopping_round
          name
          s
  stop_round name s h steady = elim (Option-cases (lookup name s.0.jobs)) [
    | inl e ↦ absurd (rw (e) at steady)
    | inr (j, e) ↦
        let (r, sorted) = stop_it-Sorted name j s.1 (rw (e) at steady) in
        let (r', h', (j', found, p), frame) =
          at_job-Leaves configs (λ x. Sorted (lookup name configs) (some x))
            (Manager.stop_if_changed k split_shell name) name s j h e (rw (h.current) r)
            (rw (h.current) sorted) in
        (r', h', rw (found) p, frame)
  ]
