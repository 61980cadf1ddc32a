-- ===== src/Tests/Daemons.antt =====
-- The theorems about the daemon as a whole (taskmasterd/src/main.cpp) and its sockets, applied.
use task_master.Base.{
  refl, nat_beq, if◌then◌else◌, ◌==◌, ◌+◌, ◌-◌, ◌<◌, ◌≤◌, ◌++◌, ◌≡◌, length, inl, inr, List, [],
  ◌∷◌, ◌⊎◌, Option, some, none, true, false,
}
use task_master.Exec.{path_too_long}
use task_master.Base.Int.{ℤ, pos}
use task_master.Base.Text.{Text, codes}
use task_master.Daemon
use task_master.Daemon.{Hub, World}
use task_master.Daemon.Named.{WorldNamed}
use task_master.Daemon.Whole.{read_config, main-Named}
use task_master.Framing.Reader.{Received, bytes}
use task_master.Daemon.Signals.{main_loop_signalled}
use task_master.Manager.{update_jobs, update_job, for_names}
use task_master.Loop.{
  turn, turn_in, deliver, handle_events, handle_each, handle_event, call, Waited, Round, ready,
  interrupted,
}
use task_master.Proto.{Command, terminate}
use task_master.Response.{Response}
use task_master.Signal
use task_master.Socket.Address
use task_master.Socket.Address.{create, zeros, path_size}
use task_master.Socket.Bounds.{create_unix}
use task_master.System
use task_master.System.{Kernel, Syscall, exit_status, process_changed}
use task_master.Daemon.Events.{IsAt, handle_readable, handle_event_stopping}
use task_master.Daemon.Waiting.{idle_rounds, IsMarked, wait_jobs-IsMarked}
use task_master.Base.Assoc.{lookup}
use task_master.Base.Text.{text_key, text_beq}
use task_master.Base.Int.{int_key}
use task_master.Exec.{returned}
use task_master.Job.{Job}
use task_master.Job.Callbacks
use task_master.Job.Callbacks.{Seat, seated, manager_on_stop}
use task_master.Job.Stopping.{pending}
use task_master.Process
use task_master.Daemon.Startup.{IsUnsplit, serve-IsUnsplit}
use task_master.Process.Frame.{forks}
use task_master.Exec.{thrown, null_path}
use task_master.Tests.{proc_in, web, web_job, calm-IsWilling, calm, quiet}
use task_master.Tests.Files.{small, exists, file}
use task_master.Tests.Messages.{hello, slow}

abbrev pub k : Kernel
k = calm (exit_status 0)

abbrev pub split : Text → List Text
split text = text ∷ []

abbrev pub ask_end : Text → Option Command
ask_end text = some (record { kind = terminate; args = [] })

abbrev pub greeting : Response → Option Text
greeting r = some hello

abbrev pub sends : List Syscall → ℤ → Received
sends trace fd = bytes hello

abbrev pub before : World
before = (
  record {
    manager = record { jobs = []; config = [] };
    system = quiet;
    listener = record { fd = System.minus_one; kind = System.unix };
    clients = [];
  },
  Signal.State.running,
)

-- A client comes, is read, and is answered; then the daemon shuts down.
abbrev rounds : List Waited
rounds =
    ready (record { fd = pos 3; readable = true; writable = false } ∷ [])
    ∷ interrupted
    ∷ ready (record { fd = pos 3; readable = true; writable = true } ∷ [])
    ∷ []

-- The same rounds, with a SIGHUP during each, and a SIGINT behind them.
abbrev with_signals : List Waited → List Round
with_signals [] = record { before = 2 ∷ []; wait = interrupted; during = [] } ∷ []
with_signals (wait ∷ waits) =
    record { before = []; wait = wait; during = 1 ∷ [] } ∷ with_signals waits

abbrev signalled : List Round
signalled = with_signals rounds

main-Named_example :
    WorldNamed
      (Daemon.main k split
        (read_config small (λ trace. exists) (λ trace. some file))
        ask_end
        greeting
        (λ fd. slow)
        sends
        (codes "/tmp/taskmasterd.sock")
        (pos 16)
        signalled
        rounds
        before).1
main-Named_example =
    main-Named small (λ trace. exists) (λ trace. some file) k split ask_end greeting (λ fd. slow)
      sends (codes "/tmp/taskmasterd.sock") (pos 16) signalled rounds before
      (record { jobs_named = tt; jobs_distinct = tt; config_named = tt })

abbrev no_pton : Address.Family → Text → Option Text
no_pton family text = none

create_unix_example :
    let path = codes "/tmp/taskmasterd.sock" in
    ((path_size ≤ length path)
      × (create no_pton Address.Family.unix path 0 ≡ inr (path_too_long path)))
    ⊎ ((length path < path_size)
        × (create no_pton Address.Family.unix path 0
            ≡ inl (record {
              family = Address.Family.unix;
              address = path;
              addr = Address.SockAddr.local (path ++ zeros (path_size - length path));
              addrlen = 2 + length path + 1;
            }))
        × (length (path ++ zeros (path_size - length path)) ≡ path_size)
        × (0 < path_size - length path)
        × (2 + length path + 1 ≤ 110))
create_unix_example = create_unix no_pton (codes "/tmp/taskmasterd.sock") 0

-- The first process of the job has been asked to stop and ends; the second has stopped before.
abbrev last : Seat
last = record {
  state = Callbacks.State.stopping;
  before = [];
  proc = proc_in Process.State.stopping;
  after = record (proc_in Process.State.stopped) { name = codes "web_1" } ∷ [];
}

abbrev ending : Job
ending = record web_job { state = Callbacks.State.stopping; processes = seated last }

abbrev working : Hub
working = record before.0 {
  manager = record { jobs = (codes "web", ending) ∷ []; config = (codes "web", web) ∷ [] };
  system = record quiet { read_callbacks = (pos 9, some (process_changed (codes "web_0"))) ∷ [] };
}

last-IsAt : IsAt working.manager (codes "web_0") (codes "web") ending last
unfolding Daemon.holder Daemon.locate text_beq lookup
last-IsAt = record { held = refl; found = refl; placed = refl; state = refl }

handle_event_stopping_example :
    let v =
      handle_readable k split
        (λ trace. inl [])
        ask_end
        greeting
        (λ fd. slow)
        sends
        (pos 9)
        (working, Signal.State.running) in
    (v.0 ≡ returned tt)
    × (v.1.1 ≡ Signal.State.running)
    × ((j' : Job) × (lookup (codes "web") v.1.0.manager.jobs ≡ some j')
        × (j'.config ≡ web)
        × (pending j'.processes + 1 ≡ pending ending.processes)
        × (j'.state ≡ (
            if nat_beq (pending j'.processes) 0
            then manager_on_stop working.manager.config web Callbacks.State.stopped
            else Callbacks.State.stopping)))
    × (lookup (codes "db") v.1.0.manager.jobs ≡ (
        if codes "web" == codes "db"
        then lookup (codes "web") v.1.0.manager.jobs
        else lookup (codes "db") working.manager.jobs))
unfolding lookup
handle_event_stopping_example =
    handle_event_stopping k split (λ trace. inl []) ask_end greeting (λ fd. slow) sends
      (calm-IsWilling (exit_status 0)) working Signal.State.running (pos 9) (codes "web_0")
      (codes "web") (codes "db") ending last refl last-IsAt refl refl (λ n h. cc)

-- A descriptor that nobody is called for; SIGHUP and then SIGINT come meanwhile.
abbrev strange : Waited
strange = ready (record { fd = pos 3; readable = true; writable = true } ∷ [])

main_loop_signalled_example :
    (e : Hub) × (Daemon.main_loop k split
        (λ trace. inl [])
        ask_end
        greeting
        (λ fd. slow)
        sends
        (record { before = []; wait = strange; during = 1 ∷ 2 ∷ [] }
          ∷ record { before = []; wait = interrupted; during = [] }
          ∷ signalled)
        (working, Signal.State.running)
      ≡ (returned false, (e, Signal.State.terminated)))
unfolding turn turn_in deliver handle_events handle_each handle_event call update_jobs update_job
    for_names lookup text_beq
main_loop_signalled_example =
    main_loop_signalled k split (λ trace. inl []) ask_end greeting (λ fd. slow) sends strange
      interrupted [] (1 ∷ []) 2 signalled working refl tt

-- A reload has taken the job out of the configuration while it was stopping.
abbrev dropped : Hub
dropped = record working { manager = record { jobs = (codes "web", ending) ∷ []; config = [] } }

dropped-IsAt : IsAt dropped.manager (codes "web_0") (codes "web") ending last
unfolding Daemon.holder Daemon.locate text_beq lookup
dropped-IsAt = record { held = refl; found = refl; placed = refl; state = refl }

wait_jobs-IsMarked_example :
    let ends = ready (record { fd = pos 9; readable = true; writable = false } ∷ []) in
    let v =
      Daemon.wait_jobs k split
        (λ trace. inl [])
        ask_end
        greeting
        (λ fd. slow)
        sends
        (codes "web" ∷ [])
        (ends ∷ idle_rounds 1000)
        (dropped, Signal.State.terminated) in
    (v.0 ≡ returned false)
    × ((j' : Job) × (lookup (codes "web") v.1.0.manager.jobs ≡ some j')
        × (pending j'.processes ≡ 0)
        × IsMarked j'.state)
unfolding lookup
wait_jobs-IsMarked_example =
    wait_jobs-IsMarked k split (λ trace. inl []) ask_end greeting (λ fd. slow) sends
      (calm-IsWilling (exit_status 0)) dropped Signal.State.terminated (pos 9) (codes "web_0")
      (codes "web") ending last [] 1000 refl dropped-IsAt refl refl (λ n h. cc) refl (inl refl)

-- `wordexp` refuses the first command.
abbrev piped : Job
piped = record web_job {
  config = record web { cmd = codes "web | log" };
  arg_store = [];
  state = Callbacks.State.empty;
  processes = [];
}

abbrev unsplit : Hub
unsplit = record before.0 {
  manager = record { jobs = (codes "web", piped) ∷ (codes "db", web_job) ∷ []; config = [] };
}

piped-IsUnsplit : IsUnsplit unsplit.manager (codes "web") piped ((codes "db", web_job) ∷ [])
piped-IsUnsplit = record {
  first = refl;
  empty = refl;
  autostarts = refl;
  no_words = refl;
  processes = (1, refl);
}

serve-IsUnsplit_example :
    let r =
      Daemon.serve k split
        (λ trace. inl [])
        ask_end
        greeting
        (λ fd. slow)
        sends
        (codes "/tmp/taskmasterd.sock")
        (pos 5)
        (unsplit, Signal.State.running) in
    (r.0 ≡ thrown null_path) × (forks r.1.0.system.trace ≡ forks quiet.trace)
serve-IsUnsplit_example =
    serve-IsUnsplit k (calm-IsWilling (exit_status 0)) (λ t fd. refl) split (λ trace. inl [])
      ask_end greeting (λ fd. slow) sends (codes "/tmp/taskmasterd.sock") (pos 5)
      (unsplit, Signal.State.running) (codes "web") piped ((codes "db", web_job) ∷ [])
      piped-IsUnsplit
