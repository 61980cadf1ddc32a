-- ===== src/Daemon/Waiting.antt =====
-- How long the destructor of the manager waits (taskmasterd/src/jobs/JobManager.cpp).
use task_master.Base.{
  ℕ, zero, suc, List, [], ◌∷◌, Option, some, none, true, false, arith, ap, ◌≢◌, Bool, ◌≡◌, ◌∙◌,
  refl, ◌⊎◌, inl, inr, Bool-cases, all,
}
use task_master.Base.Int.{ℤ, int_key}
use task_master.Base.Text.{Text, text_key}
use task_master.Base.Assoc.{lookup}
use task_master.Config.{ConfigMap, JobConfig, config_beq}
use task_master.Daemon
use task_master.Daemon.{World, Hub}
use task_master.Daemon.Events.{IsAt, handle_readable, handle_event_stopping}
use task_master.Job.{Job}
use task_master.Job.Callbacks
use task_master.Job.Callbacks.{Seat, manager_on_stop}
use task_master.Job.Stopping.{pending}
use task_master.Process
use task_master.Process.Willing.{IsWilling}
use task_master.Signal
use task_master.Exec.{Error, returned}
use task_master.Framing.Reader.{Received}
use task_master.Framing.Writer
use task_master.Loop
use task_master.Loop.{Waited, interrupted, ready}
use task_master.Proto.{Command}
use task_master.Response.{Response}
use task_master.System.{Kernel, Syscall, process_changed, other_status, waitpid}

-- Rounds in which nothing happens.
unfoldable pub idle_rounds : ℕ → List Waited
idle_rounds zero = []
idle_rounds (suc n) = interrupted ∷ idle_rounds n

-- The file has no job of this name, or one of another configuration.
abbrev pub IsChanged : ConfigMap → JobConfig → Type 0
IsChanged configs config =
    (lookup config.name configs ≡ none)
    ⊎ ((c : JobConfig) × (lookup config.name configs ≡ some c) × (config_beq c config ≡ false))

-- To be removed or replaced.
abbrev pub IsMarked : Callbacks.State → Type 0
IsMarked Callbacks.State.removed = Unit
IsMarked Callbacks.State.replaced = Unit
IsMarked _ = ⊥

module _ (k : Kernel) (split_shell : Text → List Text)
    (read_file : List Syscall → ConfigMap ⊎ Error) (parse : Text → Option Command)
    (serialize : Response → Option Text) (socket : ℤ → Writer.Socket)
    (incoming : List Syscall → ℤ → Received) where
  abbrev pub over : World → Text → Bool
  over w name =
      Daemon.is_over k split_shell read_file parse serialize socket incoming
        (lookup name w.0.manager.jobs)

  wait_jobs-idle_rounds :
      (names : List Text) (n : ℕ) (w : World)
      → Daemon.wait_jobs k split_shell read_file parse serialize socket incoming names
          (idle_rounds n)
          w
        ≡ (returned (all (over w) names), w)
  unfolding Daemon.wait_jobs idle_rounds Loop.handle_events
  wait_jobs-idle_rounds [] n w = refl
  wait_jobs-idle_rounds (name ∷ names) zero w = elim (Bool-cases (over w name)) [
    | inl e ↦ rw (Daemon.wait_jobs, e) (wait_jobs-idle_rounds names zero w)
    | inr e ↦ rw (Daemon.wait_jobs, e) refl
  ]
  wait_jobs-idle_rounds (name ∷ names) (suc n) w = elim (Bool-cases (over w name)) [
    | inl e ↦ rw (Daemon.wait_jobs, e) (wait_jobs-idle_rounds names (suc n) w)
    | inr e ↦ rw (Daemon.wait_jobs, e) (wait_jobs-idle_rounds (name ∷ names) n w ∙ rw e refl)
  ]

  -- A round that the wait for a job takes.
  pub next_wait :
      (name : Text) (names : List Text) (wait : Waited) (waits : List Waited) (w v : World)
      → over w name ≡ false
      → Loop.handle_events
          (λ (h : Hub). h.system)
          (Daemon.run k split_shell read_file parse serialize socket incoming)
          wait
          w
        ≡ (returned tt, v)
      → Daemon.wait_jobs k split_shell read_file parse serialize socket incoming
          (name ∷ names)
          (wait ∷ waits)
          w
        ≡ Daemon.wait_jobs k split_shell read_file parse serialize socket incoming
            (name ∷ names)
            waits
            v
  unfolding Daemon.wait_jobs
  next_wait name names wait waits w v e ran = rw (e, Daemon.wait_jobs, ran) refl

  marked_lem :
      (configs : ConfigMap) (config : JobConfig)
      → IsChanged configs config
      → IsMarked (manager_on_stop configs config Callbacks.State.stopped)
  unfolding manager_on_stop
  marked_lem configs config (inl e) = rw e tt
  marked_lem configs config (inr (c, e, d)) = rw (e, d) tt

  marked-over :
      (w : World) (name : Text) (j : Job)
      → lookup name w.0.manager.jobs ≡ some j
      → IsMarked j.state
      → over w name ≡ false
  marked-over w name j e m = rw e (go j.state m)
    where
      go : (st : Callbacks.State) → IsMarked st → Daemon.state_over st ≡ false
      go Callbacks.State.removed h = refl
      go Callbacks.State.replaced h = refl
      go Callbacks.State.empty h = absurd h
      go Callbacks.State.starting h = absurd h
      go Callbacks.State.running h = absurd h
      go Callbacks.State.stopping h = absurd h
      go Callbacks.State.stopped h = absurd h

  -- The destructor waits for ever for a job whose configuration is gone or another one when its last process
  -- ends: it waits for this job, which is STOPPING with one process left, the end of the process comes, and
  -- the job is then in REMOVE or REPLACE, which the wait does not end with, through any number of rounds in
  -- which nothing happens. The kernel refuses no call.
  pub wait_jobs-IsMarked :
      (willing : IsWilling k) (h : Hub) (g : Signal.State) (fd : ℤ) (name key : Text) (j : Job)
      (s : Seat) (names : List Text) (n : ℕ)
      → lookup fd h.system.read_callbacks ≡ some (some (process_changed name))
      → IsAt h.manager name key j s
      → j.state ≡ Callbacks.State.stopping
      → s.proc.state ≡ Process.State.stopping
      → ((n : ℕ) → k.status (waitpid s.proc.pid ∷ h.system.trace) ≢ other_status n)
      → pending j.processes ≡ 1
      → IsChanged h.manager.config j.config
      → let ends = ready (record { fd = fd; readable = true; writable = false } ∷ []) in
        let v =
          Daemon.wait_jobs k split_shell read_file parse serialize socket incoming
            (key ∷ names)
            (ends ∷ idle_rounds n)
            (h, g) in
        (v.0 ≡ returned false)
        × ((j' : Job) × (lookup key v.1.0.manager.jobs ≡ some j')
            × (pending j'.processes ≡ 0)
            × IsMarked j'.state)
  unfolding Loop.handle_events Loop.handle_each
  wait_jobs-IsMarked willing h g fd name key j s names n e at st ps d one c =
      let v = handle_readable k split_shell read_file parse serialize socket incoming fd (h, g) in
      let (ret, same, (j', mine, cfg, fewer, next), others) =
        handle_event_stopping k split_shell read_file parse serialize socket incoming willing h g fd
          name key key j s e at st ps d in
      let ran : v ≡ (returned tt, v.1) = ap (λ o. (o, v.1)) ret in
      let none_left : pending j'.processes ≡ 0 = omega (arith, fewer, one) in
      let marked : IsMarked j'.state =
        rw (next, none_left) (marked_lem h.manager.config j.config c) in
      let waiting = marked-over v.1 key j' mine marked in
      let first =
        next_wait key names (ready (record { fd = fd; readable = true; writable = false } ∷ []))
          (idle_rounds n) (h, g) v.1 (rw (at.found, st) refl) (rw (ran) refl) in
      let run = first ∙ wait_jobs-idle_rounds (key ∷ names) n v.1 in
      rw (run) (rw (waiting) refl, (j', mine, none_left, marked))
