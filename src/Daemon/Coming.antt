-- ===== src/Daemon/Coming.antt =====
-- The ends that the stopping processes of the daemon (taskmasterd/src/jobs/JobManager.cpp, ~JobManager)
-- still have to come to.
use task_master.Base.{
  ℕ, zero, suc, List, [], ◌∷◌, Option, some, none, ◌≡◌, refl, true, false, All, ◌==◌, if◌then◌else◌,
}
use task_master.Base.Int.{int_key}
use task_master.Base.Text.{Text, text_key}
use task_master.Base.Assoc.{lookup}
use task_master.Config.{ConfigMap}
use task_master.Daemon
use task_master.Daemon.{Hub, World, Main}
use task_master.Daemon.Events.{IsAt, locate-seated}
use task_master.Daemon.Seats.{find, locate-find}
use task_master.Job.{Job}
use task_master.Job.Callbacks
use task_master.Job.Callbacks.{Seat, seated, manager_on_stop}
use task_master.Job.Stopping.{pending}
use task_master.Process
use task_master.Process.{Process}
use task_master.Process.Ending.{Spares}
use task_master.System.{process_changed}

-- The end of a process, with the name of its job.
abbrev pub Exit : Type 0
Exit = Text × Process

-- The end of a process that was asked to stop is still to come, and its event will find it.
pub record IsComing (h : Hub) (e : Exit) : Type 0 where
  pub job : Job
  pub found : lookup e.0 h.manager.jobs ≡ some job
  pub state : job.state ≡ Callbacks.State.stopping
  pub held : Daemon.holder e.1.name h.manager.jobs ≡ some e.0
  pub process : find e.1.name job.processes ≡ some e.1
  pub asked : e.1.state ≡ Process.State.stopping
  pub registered : lookup e.1.fd h.system.read_callbacks ≡ some (some (process_changed e.1.name))

-- Two processes have their names, pidfds and timers for themselves.
pub record IsApart (p q : Process) : Type 0 where
  pub names : (p.name == q.name) ≡ false
  pub pidfds : (p.fd == q.fd) ≡ false
  pub timers : Spares p.timer q.fd
  pub timers_back : Spares q.timer p.fd

abbrev pub AreApart : List Exit → Type 0
AreApart [] = Unit
AreApart (e ∷ es) = All (λ f. IsApart e.1 f.1) es × AreApart es

-- What stands under a name while so many of its processes are still to end.
abbrev pub Left : ConfigMap → ℕ → Option Job → Type 0
Left configs n none = n ≡ 0
Left configs zero (some j) = Daemon.state_over j.state ≡ true
Left configs (suc n) (some j) =
    (j.state ≡ Callbacks.State.stopping)
    × (pending j.processes ≡ suc n)
    × (manager_on_stop configs j.config Callbacks.State.stopped ≡ Callbacks.State.stopped)

-- How many of the ends are those of the job.
abbrev pub ends_of : Text → List Exit → ℕ
ends_of name [] = 0
ends_of name (e ∷ es) = if e.0 == name then suc (ends_of name es) else ends_of name es

-- The job of a coming end, from the seat of its process.
pub record Seated (h : Hub) (e : Exit) (j : Job) : Type 0 where
  pub seat : Seat
  pub at : IsAt h.manager e.1.name e.0 j seat
  pub here : seat.proc ≡ e.1
  pub all : j.processes ≡ seated seat

pub seat_of : (h : Hub) (e : Exit) (c : IsComing h e) → Seated h e c.job
seat_of h e c =
    let ((before, after), q) = locate-find e.1.name c.job.processes e.1 c.process in
    record {
      seat = record { state = c.job.state; before = before; proc = e.1; after = after };
      at = record { held = c.held; found = c.found; placed = q; state = refl };
      here = refl;
      all = locate-seated e.1.name c.job.processes before after e.1 q;
    }
