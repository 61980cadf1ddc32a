-- ===== src/Daemon/Objects.antt =====
-- The objects of taskmasterd, and how a callback finds the one that it is bound to.
use task_master.Base.{
  List, [], ◌∷◌, ◌++◌, Option, some, none, Bool, true, false, if◌then◌else◌, ◌==◌, any,
}
use task_master.Base.Int.{ℤ, int_key}
use task_master.Base.Text.{Text, text_key}
use task_master.Exec.{Exec, within, terminated}
use task_master.Config.{ConfigMap}
use task_master.Job.{Job, program}
use task_master.Job.Callbacks
use task_master.Job.Callbacks.{Program, Seat, seated}
use task_master.Manager.{Manager, at_job}
use task_master.Process.{Process}
use task_master.Session.{Client, Session}
use task_master.Signal
use task_master.Socket
use task_master.System.{System, minus_one}
use task_master.Timer.{Method}

pub record Hub : Type 0 where
  pub manager : Manager
  pub system : System
  pub listener : Socket.Socket
  pub clients : List Client

-- The objects of the daemon, and `g_state`.
abbrev pub World : Type 0
World = Hub × Signal.State

abbrev pub Main : Type 0 → Type 0
Main A = Exec World A

abbrev pub on_system : {A : Type 0} → Exec System A → Main A
on_system = within (λ w. w.0.system) (λ w sys. (record w.0 { system = sys }, w.1))

abbrev pub on_manager : {A : Type 0} → Method Manager A → Main A
on_manager =
    within (λ w. (w.0.manager, w.0.system))
      (λ w m. (record w.0 { manager = m.0; system = m.1 }, w.1))

-- An element found, with those before and behind it.
abbrev pub Place {ℓ} : Type ℓ → Type ℓ
Place A = List A × A × List A

abbrev pub further {ℓ} : {A : Type ℓ} → A → Option (Place A) → Option (Place A)
further x none = none
further x (some (before, y, after)) = some (x ∷ before, y, after)

-- The process of a name, with those before and behind it.
unfoldable pub locate : Text → List Process → Option (Place Process)
locate name [] = none
locate name (p ∷ ps) = if p.name == name then some ([], p, ps) else further p (locate name ps)

-- A method of the job that is called for one of its processes.
abbrev pub SeatMethod : Type 0
SeatMethod = ConfigMap → Program → Method Seat Unit

abbrev pub seat_run : SeatMethod → ConfigMap → Place Process → Method Job Unit
seat_run f configs (before, p, after) s =
    let j = s.0 in
    let (r, u) =
      f configs (program j)
        (record { state = j.state; before = before; proc = p; after = after }, s.1) in
    (r, (record j { state = u.0.state; processes = seated u.0 }, u.1))

-- A callback whose object is gone is a use after free.
abbrev pub dangling : {S : Type 0} → Exec S Unit
dangling s = (terminated, s)

abbrev pub run_found : SeatMethod → ConfigMap → Option (Place Process) → Method Job Unit
run_found f configs none = dangling
run_found f configs (some place) = seat_run f configs place

unfoldable pub at_process : Text → SeatMethod → ConfigMap → Method Job Unit
unfolding locate
at_process name f configs s = run_found f configs (locate name s.0.processes) s

abbrev pub holds : Text → Job → Bool
holds name j = any (λ (p : Process). p.name == name) j.processes

-- The job that a process belongs to.
unfoldable pub holder : Text → List (Text × Job) → Option Text
holder name [] = none
holder name ((key, j) ∷ jobs) = if holds name j then some key else holder name jobs

abbrev pub at_holder : Text → SeatMethod → Option Text → Method Manager Unit
at_holder name f none = dangling
at_holder name f (some key) = at_job key (at_process name f)

unfoldable pub call_process : Text → SeatMethod → Method Manager Unit
unfolding at_process holder
call_process name f s = at_holder name f (holder name s.0.jobs) s

-- The client of a descriptor, with those before and behind it.
unfoldable pub find_client : ℤ → List Client → Option (Place Client)
find_client fd [] = none
find_client fd (c ∷ cs) = if c.fd == fd then some ([], c, cs) else further c (find_client fd cs)

abbrev pub session_run : Session Unit → Option (Place Client) → Main Unit
session_run m none w = dangling w
session_run m (some (before, c, after)) w =
    let (r, u) = m (c, record { manager = w.0.manager; system = w.0.system; state = w.1 }) in
    (
      r,
      (
        record w.0 {
          manager = u.1.manager;
          system = u.1.system;
          clients = before ++ (u.0 ∷ after);
        },
        u.1.state,
      ),
    )

unfoldable pub at_client : ℤ → Session Unit → Main Unit
unfolding find_client
at_client fd m w = session_run m (find_client fd w.0.clients) w

unfoldable pub connected : List Client → List Client
connected [] = []
connected (c ∷ cs) = let rest = connected cs in if c.fd == minus_one then rest else c ∷ rest

-- STOPPED or EMPTY.
abbrev pub state_over : Callbacks.State → Bool
state_over Callbacks.State.stopped = true
state_over Callbacks.State.empty = true
state_over _ = false
