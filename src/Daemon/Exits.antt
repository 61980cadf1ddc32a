-- ===== src/Daemon/Exits.antt =====
-- The events of the pidfds of the stopping processes (EventManager::handleEvents,
-- taskmasterd/src/core/EventManager.cpp), one behind the other.
use mathlib.Core.Option.{some-injective}
use task_master.Base.{
  ℕ, zero, suc, ◌+◌, ◌<◌, List, Option, some, ◌≡◌, ◌≢◌, refl, sym, ap, ◌∙◌, arith, true, false, ◌⊎◌,
  ◌==◌, if◌then◌else◌, nat_beq, inl, inr, Bool-cases,
}
use task_master.Base.Int.{ℤ, int_key}
use task_master.Base.Text.{Text, text_key}
use task_master.Base.Assoc.{lookup}
use task_master.Config.{ConfigMap}
use task_master.Daemon
use task_master.Daemon.{Hub, World, Main}
use task_master.Daemon.Events.{
  handle_readable, changed, after_change, handle_process_changed, job_put, with_seat,
}
use task_master.Daemon.Seats.{find, find_other, holds_same, holder-insert, find-pending}
use task_master.Exec.{Outcome, Error, returned, Returns}
use task_master.Framing.Reader.{Received}
use task_master.Framing.Writer
use task_master.Manager
use task_master.Job.{Job, program}
use task_master.Job.Callbacks
use task_master.Job.Callbacks.{Seat, seated, manager_on_stop}
use task_master.Job.Ending.{process_changed_frame}
use task_master.Job.Stopping.{pending, process_changed_stopping}
use task_master.Process
use task_master.Process.{Process}
use task_master.Process.Ending.{Spares, on_state_change_reads}
use task_master.Process.Willing.{IsWilling}
use task_master.Proto.{Command}
use task_master.Response.{Response}
use task_master.Signal
use task_master.System.{System, Kernel, Syscall, other_status}
use task_master.Daemon.Coming.{Exit, IsComing, IsApart, Left, seat_of}

module _ (k : Kernel) (split_shell : Text → List Text)
    (read_file : List Syscall → ConfigMap ⊎ Error) (parse : Text → Option Command)
    (serialize : Response → Option Text) (socket : ℤ → Writer.Socket)
    (incoming : List Syscall → ℤ → Received) (willing : IsWilling k)
    (ends : (t : List Syscall) (n : ℕ) → k.status t ≢ other_status n) where
  abbrev outcome_at : Hub → (e : Exit) → (j : Job) → Seat → Outcome (Unit {0}) × (Seat × System)
  outcome_at h e j s = changed k split_shell read_file parse serialize socket incoming h j s

  abbrev after : Hub → Text → Job → Seat × System → Hub
  after = after_change k split_shell read_file parse serialize socket incoming

  abbrev run_exit : Exit → Main Unit
  run_exit e = handle_readable k split_shell read_file parse serialize socket incoming e.1.fd

  -- What the end of a process makes of its job, and what it leaves alone.
  record Ended (h : Hub) (e : Exit) (j : Job) (r : Seat × System) : Type 0 where
    find_kept :
        (name : Text) → (e.1.name == name) ≡ false → find name (seated r.0) ≡ find name j.processes
    holds_kept : (name : Text) → Daemon.holds name (with_seat j r.0) ≡ Daemon.holds name j
    reads_kept :
        (fd : ℤ)
        → (e.1.fd == fd) ≡ false
        → Spares e.1.timer fd
        → lookup fd r.1.read_callbacks ≡ lookup fd h.system.read_callbacks
    fewer : pending (seated r.0) + 1 ≡ pending j.processes
    state : r.0.state ≡ (
        if nat_beq (pending (seated r.0)) 0
        then manager_on_stop h.manager.config j.config Callbacks.State.stopped
        else Callbacks.State.stopping)

  ended_lem :
      (h : Hub) (e : Exit) (j : Job) (s : Seat)
      → j.processes ≡ seated s
      → s.proc ≡ e.1
      → s.state ≡ Callbacks.State.stopping
      → e.1.state ≡ Process.State.stopping
      → Returns (outcome_at h e j s) × Ended h e j (outcome_at h e j s).1
  ended_lem h e j s all here st asked =
      let ps : s.proc.state ≡ Process.State.stopping = ap (λ (p : Process). p.state) here ∙ asked in
      let (ret, fewer, next) =
        process_changed_stopping k willing h.manager.config (program j) s h.system st ps
          (λ n. ends _ n) in
      let (before, behind, name, sys) =
        process_changed_frame k willing h.manager.config (program j) s h.system st ps
          (λ n. ends _ n) in
      let r = outcome_at h e j s in
      let name' = ap (λ (p : Process). p.name) here in
      (
        ret,
        record {
          find_kept = λ n d.
              rw (before, behind, all)
                (find_other n s.before s.after s.proc r.1.0.proc name (rw (name') d));
          holds_kept =
              λ n. rw (before, behind, all) (holds_same n s.before s.after s.proc r.1.0.proc name);
          reads_kept = λ fd d t.
              ap (λ (x : System). lookup fd x.read_callbacks) sys
              ∙ on_state_change_reads k fd s.proc h.system (rw (here) d) (rw (here) t);
          fewer = fewer ∙ sym (ap pending all);
          state = next;
        },
      )

  after_jobs :
      (h : Hub) (e : Exit) (j : Job) (r : Seat × System) (name : Text)
      → lookup name (after h e.0 j r).manager.jobs
        ≡ (if e.0 == name then some (with_seat j r.0) else lookup name h.manager.jobs)
  after_jobs h e j r name =
      job_put k split_shell read_file parse serialize socket incoming h e.0 name j r

  after_holder :
      (h : Hub) (e : Exit) (j : Job) (r : Seat × System) (name : Text)
      → lookup e.0 h.manager.jobs ≡ some j
      → Ended h e j r
      → Daemon.holder name (after h e.0 j r).manager.jobs ≡ Daemon.holder name h.manager.jobs
  unfolding Manager.put_job
  after_holder h e j r name found d =
      holder-insert name e.0 (with_seat j r.0) j h.manager.jobs found (d.holds_kept name)

  -- A job that is waited for goes on stopping.
  still_stopping :
      (h : Hub) (e f : Exit) (j : Job) (r : Seat × System)
      → Ended h e j r
      → IsApart e.1 f.1
      → find f.1.name j.processes ≡ some f.1
      → f.1.state ≡ Process.State.stopping
      → r.0.state ≡ Callbacks.State.stopping
  still_stopping h e f j r d apart found asked =
      let some_left : 0 < pending (seated r.0) =
        find-pending f.1.name (seated r.0) f.1 (d.find_kept f.1.name apart.names ∙ found) asked in
      let more : nat_beq (pending (seated r.0)) 0 ≡ false = ground (arith, some_left) in
      d.state ∙ rw (more) refl

  after-IsComing :
      (h : Hub) (e f : Exit) (j : Job) (r : Seat × System)
      → lookup e.0 h.manager.jobs ≡ some j
      → Ended h e j r
      → IsApart e.1 f.1
      → IsComing h f
      → IsComing (after h e.0 j r) f
  after-IsComing h e f j r found d apart c = elim (Bool-cases (e.0 == f.0)) [
    | inl same ↦
        let key = (text_key.same_iff e.0 f.0).0 same in
        let job_is : c.job ≡ j =
          some-injective c.job j
            (sym c.found ∙ ap (λ n. lookup n h.manager.jobs) (sym key) ∙ found) in
        let place : find f.1.name j.processes ≡ some f.1 =
          ap (λ (x : Job). find f.1.name x.processes) (sym job_is) ∙ c.process in
        record {
          job = with_seat j r.0;
          found = after_jobs h e j r f.0 ∙ rw (same) refl;
          state = still_stopping h e f j r d apart place c.asked;
          held = after_holder h e j r f.1.name found d ∙ c.held;
          process = d.find_kept f.1.name apart.names ∙ place;
          asked = c.asked;
          registered = d.reads_kept f.1.fd apart.pidfds apart.timers ∙ c.registered;
        }
    | inr other ↦ record {
      job = c.job;
      found = after_jobs h e j r f.0 ∙ rw (other) c.found;
      state = c.state;
      held = after_holder h e j r f.1.name found d ∙ c.held;
      process = c.process;
      asked = c.asked;
      registered = d.reads_kept f.1.fd apart.pidfds apart.timers ∙ c.registered;
    }
  ]

  -- The job that is left, with one end fewer to come.
  Left-with_seat :
      (configs : ConfigMap) (n : ℕ) (j : Job) (s : Seat)
      → Left configs (suc n) (some j)
      → pending (seated s) + 1 ≡ pending j.processes
      → s.state ≡ (
          if nat_beq (pending (seated s)) 0
          then manager_on_stop configs j.config Callbacks.State.stopped
          else Callbacks.State.stopping)
      → Left configs n (some (with_seat j s))
  Left-with_seat configs zero j s l fewer st =
      let none_left : nat_beq (pending (seated s)) 0 ≡ true = ground (arith, l.1, fewer) in
      rw (st, none_left, l.2) refl
  Left-with_seat configs (suc n) j s l fewer st =
      let some_left : nat_beq (pending (seated s)) 0 ≡ false = ground (arith, l.1, fewer) in
      (st ∙ rw (some_left) refl, omega (arith, l.1, fewer), l.2)

  after-Left :
      (h : Hub) (e : Exit) (j : Job) (r : Seat × System) (name : Text) (n : ℕ)
      → lookup e.0 h.manager.jobs ≡ some j
      → Ended h e j r
      → Left h.manager.config (if e.0 == name then suc n else n) (lookup name h.manager.jobs)
      → Left h.manager.config n (lookup name (after h e.0 j r).manager.jobs)
  after-Left h e j r name n found d l = elim (Bool-cases (e.0 == name)) [
    | inl same ↦
        let key = (text_key.same_iff e.0 name).0 same in
        rw (after_jobs h e j r name, same)
          (Left-with_seat h.manager.config n j r.0 (rw (same, sym key, found) at l) d.fewer d.state)
    | inr other ↦ rw (after_jobs h e j r name, other) (rw (other) at l)
  ]

  -- The event of a coming end: the daemon goes on, the other ends are still to come, and each job has its
  -- ends fewer.
  pub run_exit_lem :
      (h : Hub) (g : Signal.State) (e : Exit)
      → IsComing h e
      → (h' : Hub) × (run_exit e (h, g) ≡ (returned tt, (h', g)))
        × (h'.manager.config ≡ h.manager.config)
        × ((f : Exit) → IsApart e.1 f.1 → IsComing h f → IsComing h' f)
        × ((name : Text) (n : ℕ)
            → Left h.manager.config (if e.0 == name then suc n else n) (lookup name h.manager.jobs)
            → Left h'.manager.config n (lookup name h'.manager.jobs))
  unfolding Manager.put_job
  run_exit_lem h g e c =
      let s = seat_of h e c in
      let (ret, d) = ended_lem h e c.job s.seat s.all s.here (s.at.state ∙ c.state) c.asked in
      let r = (outcome_at h e c.job s.seat).1 in
      (
        after h e.0 c.job r,
        handle_process_changed k split_shell read_file parse serialize socket incoming h g e.1.fd
            e.1.name e.0 c.job s.seat c.registered s.at ret,
        refl,
        λ f apart coming. after-IsComing h e f c.job r c.found d apart coming,
        λ name n l. after-Left h e c.job r name n c.found d l,
      )
