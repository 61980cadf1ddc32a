-- ===== src/Daemon/Killing.antt =====
-- `JobManager::kill` (taskmasterd/src/jobs/JobManager.cpp), over all jobs.
use task_master.Base.{
  List, [], ◌∷◌, ◌++◌, some, ◌≡◌, refl, sym, ap, ◌∙◌, arith, All, length, ◌<◌, ◌⊎◌, inl, inr,
  append_assoc,
}
use task_master.Base.Int.{ℤ}
use task_master.Base.Text.{Text, text_key}
use task_master.Base.Assoc.{lookup, insert, IsFresh, IsMap}
use task_master.Base.Assoc.Keys.{All-snoc}
use task_master.Config.{ConfigMap}
use task_master.Exec.{Outcome, returned}
use task_master.Job
use task_master.Job.{Job}
use task_master.Job.Asking.{AllAsked, ReadsKept, stop_asked}
use task_master.Job.Callbacks
use task_master.Job.Callbacks.{manager_on_stop}
use task_master.Job.Frame.{stop-HasConfig}
use task_master.Job.Stopping.{IsLive, IsUp, stop_up}
use task_master.Manager
use task_master.Manager.{Manager, keys, for_names}
use task_master.Manager.Commands.{at_job_found}
use task_master.Manager.Fitting.{outcome_returned}
use task_master.Manager.Standing.{IsOver}
use task_master.Manager.Stops.{stop_over}
use task_master.Process.{Process}
use task_master.Process.Asking.{IsTaken}
use task_master.Process.Ending.{Spares, reads_of}
use task_master.Process.Willing.{IsWilling}
use task_master.System.{System, Kernel}

-- The configuration of the job is the one that the manager has for it.
abbrev pub IsUnchanged : ConfigMap → Job → Type 0
IsUnchanged configs j = (st : Callbacks.State) → manager_on_stop configs j.config st ≡ st

-- A job that is up with its processes, or one that has none left.
abbrev pub IsStoppable : ConfigMap → Job → Type 0
IsStoppable configs j =
    IsUnchanged configs j
    × (IsOver j.state ⊎ (IsUp j.state × All IsLive j.processes × (0 < length j.processes)))

-- The job behind its stop.
abbrev pub IsHalted : Kernel → Job → Job → Type 0
IsHalted k j j' =
    (IsOver j.state × (j' ≡ j))
    ⊎ (IsUp j.state
        × (j'.state ≡ Callbacks.State.stopping)
        × (j'.config ≡ j.config)
        × AllAsked k j.processes j'.processes)

abbrev pub AllHalted : Kernel → List (Text × Job) → List (Text × Job) → Type 0
AllHalted k [] [] = Unit
AllHalted k ((n, j) ∷ jobs) ((n', j') ∷ jobs') = (n' ≡ n) × IsHalted k j j' × AllHalted k jobs jobs'
AllHalted k _ _ = ⊥

-- No timer of a job has this descriptor.
abbrev pub AllSpare : ℤ → List (Text × Job) → Type 0
AllSpare fd = All (λ entry. All (λ (p : Process). Spares p.timer fd) entry.1.processes)

abbrev pub AllReadsKept : Kernel → List (Text × Job) → System → System → Type 0
AllReadsKept k jobs sys sys' =
    (fd : ℤ) → IsTaken k fd → AllSpare fd jobs → reads_of k fd sys' ≡ reads_of k fd sys

lookup_middle :
    {V : Type 0} (name : Text) (v : V) (before after : List (Text × V))
    → IsFresh name before
    → lookup name (before ++ (name, v) ∷ after) ≡ some v
unfolding lookup
lookup_middle name v [] after h = rw ((text_key.same_iff name name).1 refl) refl
lookup_middle name v ((n, w) ∷ before) after h =
    ground (arith, text_key.same_iff n name, lookup_middle name v before after h.1)

insert_middle :
    {V : Type 0} (name : Text) (v w : V) (before after : List (Text × V))
    → IsFresh name before
    → insert name w (before ++ (name, v) ∷ after) ≡ before ++ (name, w) ∷ after
unfolding insert
insert_middle name v w [] after h = rw ((text_key.same_iff name name).1 refl) refl
insert_middle name v w ((n, x) ∷ before) after h =
    ground (arith, text_key.same_iff n name, insert_middle name v w before after h.1)

module _ (k : Kernel) (w : IsWilling k) (configs : ConfigMap) where
  stop_halts :
      (j : Job) (sys : System)
      → IsStoppable configs j
      → let r = Job.stop k configs (j, sys) in
        (r.0 ≡ returned tt) × IsHalted k j r.1.0 × ReadsKept k j.processes sys r.1.1
  stop_halts j sys (same, inl over) =
      rw (stop_over k (λ text. []) configs j sys over, same j.state)
        (refl, inl (over, refl), λ fd taken h. refl)
  stop_halts j sys (same, inr (up, live, some_left)) =
      let (ret, st, asked, len) = stop_up k w configs j sys up live in
      let (all, reads) = stop_asked k w configs j sys up live in
      (
        outcome_returned _ ret,
        inr (up, st, stop-HasConfig k configs j.config (j, sys) refl, all),
        reads,
      )

  abbrev pub with_jobs : List (Text × Job) → Manager
  with_jobs jobs = record { jobs = jobs; config = configs }

  stop_round :
      (name : Text) (j : Job) (before after : List (Text × Job)) (sys : System)
      → IsFresh name before
      → IsStoppable configs j
      → let r = Job.stop k configs (j, sys) in
        Manager.at_job name (Job.stop k) (with_jobs (before ++ (name, j) ∷ after), sys)
        ≡ (returned tt, (with_jobs (before ++ (name, r.1.0) ∷ after), r.1.1))
  unfolding Manager.put_job
  stop_round name j before after sys fresh stoppable =
      let r = Job.stop k configs (j, sys) in
      at_job_found (Job.stop k) name (with_jobs (before ++ (name, j) ∷ after)) sys j
        (lookup_middle name j before after fresh)
      ∙ rw ((stop_halts j sys stoppable).0, insert_middle name j r.1.0 before after fresh) refl

  before-IsFresh :
      (name : Text) (j : Job) (before rest : List (Text × Job))
      → IsFresh name rest
      → All (λ entry. IsFresh entry.0 before) rest
      → All (λ entry. IsFresh entry.0 (before ++ (name, j) ∷ [])) rest
  before-IsFresh name j before [] f h = tt
  before-IsFresh name j before ((n, x) ∷ rest) f h = (
    All-snoc (λ entry. (entry.0 ≡ n → ⊥)) name j before h.0 (λ e. f.0 (sym e)),
    before-IsFresh name j before rest f.1 h.1,
  )

  abbrev stops : List Text → Manager × System → Outcome (Unit {0}) × (Manager × System)
  stops = for_names (λ name. Manager.at_job name (Job.stop k))

  -- The jobs behind the loop, in their order.
  abbrev Stops :
      List (Text × Job)
      → List (Text × Job)
      → System
      → Outcome (Unit {0}) × (Manager × System)
      → Type 0
  Stops before rest sys r =
      (r.0 ≡ returned tt)
      × ((rest' : List (Text × Job)) × (r.1.0 ≡ with_jobs (before ++ rest'))
          × AllHalted k rest rest'
          × AllReadsKept k rest sys r.1.1)

  stops_lem :
      (before rest : List (Text × Job)) (sys : System)
      → IsMap rest
      → All (λ entry. IsFresh entry.0 before) rest
      → All (λ entry. IsStoppable configs entry.1) rest
      → Stops before rest sys (stops (keys rest) (with_jobs (before ++ rest), sys))
  unfolding for_names
  stops_lem before [] sys d fresh h = (refl, ([], refl, tt, λ fd taken spare. refl))
  stops_lem before ((name, j) ∷ rest) sys d fresh h =
      let r = Job.stop k configs (j, sys) in
      let (ret, halted, reads) = stop_halts j sys h.0 in
      let step =
        stop_round name j before rest sys fresh.0 h.0
        ∙ ap (λ (x : List (Text × Job)). (returned tt, (with_jobs x, r.1.1)))
            (sym (append_assoc before ((name, r.1.0) ∷ []) rest)) in
      let (ran, (rest', e, all, kept)) =
        stops_lem (before ++ (name, r.1.0) ∷ []) rest r.1.1 d.1
          (before-IsFresh name r.1.0 before rest d.0 fresh.1) h.1 in
      rw (step) (
        ran,
        (
          (name, r.1.0) ∷ rest',
          e ∙ ap with_jobs (append_assoc before ((name, r.1.0) ∷ []) rest'),
          (refl, halted, all),
          λ fd taken spare. kept fd taken spare.1 ∙ reads fd taken spare.0,
        ),
      )

  -- It returns with each job asked to stop, in its place, and takes the callback of no descriptor in use.
  pub kill_lem :
      (jobs : List (Text × Job)) (sys : System)
      → IsMap jobs
      → All (λ entry. IsStoppable configs entry.1) jobs
      → let r = Manager.kill k (with_jobs jobs, sys) in
        (r.0 ≡ returned tt)
        × ((jobs' : List (Text × Job)) × (r.1.0 ≡ with_jobs jobs')
            × AllHalted k jobs jobs'
            × AllReadsKept k jobs sys r.1.1)
  unfolding Manager.kill
  kill_lem jobs sys d h = stops_lem [] jobs sys d (none_before jobs) h
    where
      none_before : (rest : List (Text × Job)) → All (λ entry. IsFresh {V = Job} entry.0 []) rest
      none_before [] = tt
      none_before (e ∷ rest) = (tt, none_before rest)
