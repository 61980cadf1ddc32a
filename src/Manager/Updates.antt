-- ===== src/Manager/Updates.antt =====
-- The second loop of JobManager::reload and the loop of JobManager::update
-- (taskmasterd/src/jobs/JobManager.cpp): new jobs are created, marked ones removed or replaced.
use task_master.Base.{List, Option, some, none, ◌≡◌, refl, ◌∙◌, inl, inr, true, ◌==◌, if◌then◌else◌}
use task_master.Base.Text.{Text, text_key}
use task_master.Base.Assoc.{lookup, erase, lookup-erase}
use task_master.Base.Assoc.Keys.{IsMap-erase}
use task_master.Exec.{returned}
use task_master.Config.{JobConfig, ConfigMap}
use task_master.System.{System, Kernel}
use task_master.Process.Willing.{IsWilling}
use task_master.Job
use task_master.Job.{Job}
use task_master.Job.Destroying.{destroy_lem}
use task_master.Job.Callbacks
use task_master.Job.Callbacks.{manager_on_stop}
use task_master.Manager
use task_master.Manager.{Manager}
use task_master.Manager.Fitting.{IsPlain, IsFile, Holds, create_job-Leaves, own_key}
use task_master.Manager.Rounds.{is_held, Advances}
use task_master.Manager.Standing.{Sorted, Complete, Fitted}

module _ (k : Kernel) (willing : IsWilling k) (split_shell : Text → List Text) (configs : ConfigMap)
    (file : IsFile split_shell configs) where
  pub create_round :
      (name : Text) (s : Manager × System)
      → Holds configs s.0
      → (is_held (lookup name configs) ≡ true) × Sorted (lookup name configs) (lookup name s.0.jobs)
      → Advances
          (Holds configs)
          (λ n o. (is_held (lookup n configs) ≡ true) × Sorted (lookup n configs) o)
          (λ n. Complete (lookup n configs))
          (Manager.create_if_missing k split_shell)
          name
          s
  unfolding Manager.create_if_missing
  create_round name s h sorted =
      go (lookup name configs) (lookup name s.0.jobs) refl refl sorted.0 sorted.1
    where
      go :
          (c : Option JobConfig) (o : Option Job)
          → lookup name configs ≡ c
          → lookup name s.0.jobs ≡ o
          → is_held c ≡ true
          → Sorted c o
          → Advances
              (Holds configs)
              (λ n o. (is_held (lookup n configs) ≡ true) × Sorted (lookup n configs) o)
              (λ n. Complete (lookup n configs))
              (Manager.create_if_missing k split_shell)
              name
              s
      go none o e f held so = absurd cc
      go (some c) none e f held so =
          let (r, h', (j, found, fits), frame) =
            create_job-Leaves k willing split_shell configs file name c s h e f in
          rw (f, e) (r, h', rw (found) (inr fits), frame)
      go (some c) (some j) e f held so = rw (f, e) (refl, h, rw (f) so, λ other d. refl)

  -- A job that is not marked needs no round.
  update_plain :
      (name : Text) (j : Job) (st : Callbacks.State) (s : Manager × System)
      → IsPlain st
      → Manager.update_in k split_shell name j st s ≡ (returned tt, s)
  update_plain name j Callbacks.State.removed s h = absurd h
  update_plain name j Callbacks.State.replaced s h = absurd h
  update_plain name j _ s h = refl

  erased : Text → Manager → Manager
  erased name m = record m { jobs = erase name m.jobs }

  erased-Holds : (name : Text) (m : Manager) → Holds configs m → Holds configs (erased name m)
  unfolding erased
  erased-Holds name m h = record {
    distinct = IsMap-erase name m.jobs h.distinct;
    current = h.current;
  }

  lookup-erased :
      (name other : Text) (m : Manager)
      → Holds configs m
      → lookup other (erased name m).jobs ≡ (if name == other then none else lookup other m.jobs)
  unfolding erased
  lookup-erased name other m h = lookup-erase name other m.jobs h.distinct

  abbrev MovesOn : Text → Manager × System → Type 0
  MovesOn =
      Advances (Holds configs) (λ n. Complete (lookup n configs)) (λ n. Fitted (lookup n configs))
        (Manager.update_job k split_shell)

  remove_round :
      (name : Text) (s : Manager × System) (j : Job)
      → Holds configs s.0
      → lookup name configs ≡ none
      → lookup name s.0.jobs ≡ some j
      → j.state ≡ Callbacks.State.removed
      → MovesOn name s
  unfolding Manager.update_job erased
  remove_round name s j h e f st =
      rw (f, st, destroy_lem k willing j.processes s.1)
        (
          refl,
          erased-Holds name s.0 h,
          rw (lookup-erased name name s.0 h, own_key name, e) tt,
          λ other d. lookup-erased name other s.0 h ∙ rw (d) refl,
        )

  replace_round :
      (name : Text) (s : Manager × System) (c : JobConfig) (j : Job)
      → Holds configs s.0
      → lookup name configs ≡ some c
      → lookup name s.0.jobs ≡ some j
      → j.state ≡ Callbacks.State.replaced
      → MovesOn name s
  unfolding Manager.update_job erased
  replace_round name s c j h e f st =
      let (r, h', (j', found, fits), frame) =
        create_job-Leaves k willing split_shell configs file name c
          (erased name s.0, (Job.destroy k j.processes s.1).1) (erased-Holds name s.0 h) e
          (lookup-erased name name s.0 h ∙ rw (own_key name) refl) in
      rw (f, st, destroy_lem k willing j.processes s.1)
        (
          r,
          h',
          rw (found, e) fits,
          λ other d. frame other d ∙ lookup-erased name other s.0 h ∙ rw (d) refl,
        )

  pub update_round :
      (name : Text) (s : Manager × System)
      → Holds configs s.0
      → Complete (lookup name configs) (lookup name s.0.jobs)
      → MovesOn name s
  unfolding Manager.update_job
  update_round name s h complete =
      go (lookup name configs) (lookup name s.0.jobs) refl refl complete
    where
      go :
          (c : Option JobConfig) (o : Option Job)
          → lookup name configs ≡ c
          → lookup name s.0.jobs ≡ o
          → Complete c o
          → MovesOn name s
      go none none e f cm = rw (f, e) (refl, h, rw (f) tt, λ other d. refl)
      go (some c) none e f cm = absurd cm
      go none (some j) e f cm = remove_round name s j h e f cm
      go (some c) (some j) e f (inl st) = replace_round name s c j h e f st
      go (some c) (some j) e f (inr fits) =
          rw (f, update_plain name j j.state s fits.plain, e)
            (refl, h, rw (f) fits, λ other d. refl)
