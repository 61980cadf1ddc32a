-- ===== src/Daemon/Events.antt =====
-- From an event of epoll to the job that it is about (taskmasterd/src/core/EventManager.cpp,
-- src/jobs/Process.cpp, src/jobs/Job.cpp).
use mathlib.Core.Option.{some-injective}
use task_master.Base.{
  ℕ, inl, inr, Bool-cases, Option-cases, ◌++◌, List, [], ◌∷◌, Option, some, true, false, ◌≡◌, ◌≢◌,
  refl, sym, ap, ◌∙◌, ◌⊎◌, ◌==◌, if◌then◌else◌, ◌+◌, nat_beq,
}
use task_master.Base.Int.{ℤ, int_key}
use task_master.Base.Text.{Text, text_key}
use task_master.Base.Assoc.{lookup, lookup-insert}
use task_master.Config.{ConfigMap}
use task_master.Daemon
use task_master.Daemon.{Hub, World, Main, SeatMethod}
use task_master.Exec.{Outcome, Error, returned, thrown, terminated, exited, replaced, Returns}
use task_master.Framing.Reader.{Received}
use task_master.Framing.Writer
use task_master.Job.{Job, program}
use task_master.Job.Callbacks
use task_master.Job.Callbacks.{Seat, seated, manager_on_stop}
use task_master.Job.Stopping.{pending, process_changed_stopping}
use task_master.Loop
use task_master.Manager
use task_master.Manager.{Manager}
use task_master.Manager.Commands.{at_job_found}
use task_master.Process
use task_master.Process.{Process}
use task_master.Process.Willing.{IsWilling}
use task_master.Proto.{Command}
use task_master.Response.{Response}
use task_master.Signal
use task_master.System.{System, Kernel, Syscall, process_changed, other_status, waitpid}

-- A process of the daemon: its job under its key, and its place in the job.
pub record IsAt (m : Manager) (name key : Text) (j : Job) (s : Seat) : Type 0 where
  pub held : Daemon.holder name m.jobs ≡ some key
  pub found : lookup key m.jobs ≡ some j
  pub placed : Daemon.locate name j.processes ≡ some (s.before, s.proc, s.after)
  pub state : s.state ≡ j.state

-- The job with what became of the seat of its process.
abbrev pub with_seat : Job → Seat → Job
with_seat j s = record j { state = s.state; processes = seated s }

module _ (f : SeatMethod) (m : Manager) (sys : System) (name key : Text) (j : Job) (s : Seat) where
  abbrev result : Outcome (Unit {0}) × (Seat × System)
  result = f m.config (program j) (s, sys)

  at_process_found :
      Daemon.locate name j.processes ≡ some (s.before, s.proc, s.after)
      → s.state ≡ j.state
      → Daemon.at_process name f m.config (j, sys)
        ≡ (result.0, (with_seat j result.1.0, result.1.1))
  unfolding Daemon.at_process
  at_process_found e st = rw (e, sym st) refl

  call_process_found :
      IsAt m name key j s
      → Daemon.call_process name f (m, sys)
        ≡ (result.0, (Manager.put_job key m (with_seat j result.1.0), result.1.1))
  unfolding Daemon.call_process
  call_process_found h = rw h.held (
      at_job_found (Daemon.at_process name f) key m sys j h.found
      ∙ ap (λ r. (r.0, (Manager.put_job key m r.1.0, r.1.1))) (at_process_found h.placed h.state))

pub locate-seated :
    (name : Text) (ps before after : List Process) (p : Process)
    → Daemon.locate name ps ≡ some (before, p, after)
    → ps ≡ before ++ p ∷ after
unfolding Daemon.locate
locate-seated name [] before after p e = cc
locate-seated name (x ∷ ps) before after p e = elim (Bool-cases (x.name == name)) [
  | inl here ↦
      let same : ([], x, ps) ≡ (before, p, after) =
        some-injective ([], x, ps) (before, p, after) (rw (here, Daemon.locate) at e) in
      ap (λ t. t.0 ++ t.1 ∷ t.2) same
  | inr there ↦ elim (Option-cases (Daemon.locate name ps)) [
    | inl q ↦ cc (rw (there, q, Daemon.locate) at e)
    | inr ((b, y, a), q) ↦
        let same : (x ∷ b, y, a) ≡ (before, p, after) =
          some-injective (x ∷ b, y, a) (before, p, after) (rw (Daemon.locate, there, q) at e) in
        ap (◌∷◌ x) (locate-seated name ps b a y q) ∙ ap (λ t. t.0 ++ t.1 ∷ t.2) same
  ]
]

outcome_returned : {S : Type 0} (r : Outcome (Unit {0}) × S) → Returns r → r.0 ≡ returned tt
outcome_returned (returned u, s) h = refl
outcome_returned (thrown e, s) h = absurd h
outcome_returned (terminated, s) h = absurd h
outcome_returned (exited n, s) h = absurd h
outcome_returned (replaced, s) h = absurd h

module _ (k : Kernel) (split_shell : Text → List Text)
    (read_file : List Syscall → ConfigMap ⊎ Error) (parse : Text → Option Command)
    (serialize : Response → Option Text) (socket : ℤ → Writer.Socket)
    (incoming : List Syscall → ℤ → Received) where
  abbrev readable : ℤ → Loop.Event
  readable fd = record { fd = fd; readable = true; writable = false }

  abbrev pub handle_readable : ℤ → Main Unit
  handle_readable fd =
      Loop.handle_event (λ (h : Hub). h.system)
        (Daemon.run k split_shell read_file parse serialize socket incoming) (readable fd)

  -- The callback of the pidfd of a process, on its job.
  abbrev pub changed : Hub → Job → Seat → Outcome (Unit {0}) × (Seat × System)
  changed h j s = Callbacks.process_changed k h.manager.config (program j) (s, h.system)

  abbrev pub after_change : Hub → Text → Job → Seat × System → Hub
  after_change h key j r = record h {
    manager = Manager.put_job key h.manager (with_seat j r.0);
    system = r.1;
  }

  run-process_changed :
      (h : Hub) (g : Signal.State) (name key : Text) (j : Job) (s : Seat)
      → IsAt h.manager name key j s
      → Daemon.run k split_shell read_file parse serialize socket incoming
          (process_changed name)
          (h, g)
        ≡ ((changed h j s).0, (after_change h key j (changed h j s).1, g))
  unfolding Daemon.run
  run-process_changed h g name key j s at =
      rw
        (call_process_found (λ configs prog. Callbacks.process_changed k configs prog) h.manager
          h.system name key j s at)
        refl

  pub handle_process_changed :
      (h : Hub) (g : Signal.State) (fd : ℤ) (name key : Text) (j : Job) (s : Seat)
      → lookup fd h.system.read_callbacks ≡ some (some (process_changed name))
      → IsAt h.manager name key j s
      → Returns (changed h j s)
      → handle_readable fd (h, g) ≡ (returned tt, (after_change h key j (changed h j s).1, g))
  unfolding Loop.handle_event Loop.call
  handle_process_changed h g fd name key j s e at ret =
      let r = changed h j s in
      let ran =
        run-process_changed h g name key j s at
        ∙ ap (λ o. (o, (after_change h key j r.1, g))) (outcome_returned r ret) in
      rw (e, ran) refl

  pub job_put :
      (h : Hub) (key other : Text) (j : Job) (r : Seat × System)
      → lookup other (after_change h key j r).manager.jobs
        ≡ (if key == other then some (with_seat j r.0) else lookup other h.manager.jobs)
  unfolding Manager.put_job
  job_put h key other j r = lookup-insert key other (with_seat j r.0) h.manager.jobs

  own_key : (key : Text) → (key == key) ≡ true
  own_key key = (text_key.same_iff key key).1 refl

  -- In a job that is STOPPING, when a process that was asked to stop has ended: the event on its pidfd, which
  -- is registered for it, reaches its job, whichever it is. The job has one process fewer to wait for, goes
  -- on STOPPING while one is left, and is with the last one STOPPED, or marked as the configuration says.
  -- The other jobs and `g_state` stay as they are. The kernel refuses no call.
  pub handle_event_stopping :
      (willing : IsWilling k) (h : Hub) (g : Signal.State) (fd : ℤ) (name key other : Text)
      (j : Job) (s : Seat)
      → lookup fd h.system.read_callbacks ≡ some (some (process_changed name))
      → IsAt h.manager name key j s
      → j.state ≡ Callbacks.State.stopping
      → s.proc.state ≡ Process.State.stopping
      → ((n : ℕ) → k.status (waitpid s.proc.pid ∷ h.system.trace) ≢ other_status n)
      → let v = handle_readable fd (h, g) in
        (v.0 ≡ returned tt)
        × (v.1.1 ≡ g)
        × ((j' : Job) × (lookup key v.1.0.manager.jobs ≡ some j')
            × (j'.config ≡ j.config)
            × (pending j'.processes + 1 ≡ pending j.processes)
            × (j'.state ≡ (
                if nat_beq (pending j'.processes) 0
                then manager_on_stop h.manager.config j.config Callbacks.State.stopped
                else Callbacks.State.stopping)))
        × (lookup other v.1.0.manager.jobs
            ≡ (if key == other then lookup key v.1.0.manager.jobs else lookup other h.manager.jobs))
  handle_event_stopping willing h g fd name key other j s e at st ps d =
      let r = changed h j s in
      let (ret, fewer, next) =
        process_changed_stopping k willing h.manager.config (program j) s h.system (at.state ∙ st)
          ps d in
      let seats = locate-seated name j.processes s.before s.after s.proc at.placed in
      let mine : lookup key (after_change h key j r.1).manager.jobs ≡ some (with_seat j r.1.0) =
        rw (job_put h key key j r.1, own_key key) refl in
      rw (handle_process_changed h g fd name key j s e at ret) (
        refl,
        refl,
        (with_seat j r.1.0, mine, refl, fewer ∙ sym (ap pending seats), next),
        rw (mine) (job_put h key other j r.1),
      )
