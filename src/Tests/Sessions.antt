-- ===== src/Tests/Sessions.antt =====
-- The theorems about taskmasterd/src/ipc/Client.cpp, applied.
use task_master.Base.{
  List, [], ◌∷◌, ◌++◌, ◌⊎◌, inr, Option, some, none, ◌≡◌, refl, arith, length, ap,
}
use task_master.Base.Int.{pos, int_key}
use task_master.Base.Text.{Text}
use task_master.Base.Assoc.{lookup}
use task_master.Exec.{returned, Error}
use task_master.Config.{ConfigMap}
use task_master.Proto.{Command, terminate, ok}
use task_master.Signal
use task_master.System.{Kernel, exit_status, client_read}
use task_master.Response.{Response, termination_started}
use task_master.Server.{on_command, parse_command}
use task_master.Framing.Writer.{idle}
use task_master.Framing.Reader.{fresh}
use task_master.Framing.RoundTrip.{frame}
use task_master.Session.{Client, Daemon, handle_message, drain}
use task_master.Session.Requests.{handle_message-drain}
use task_master.Tests.{calm, calm_succeeds, quiet}
use task_master.Tests.Messages.{hello, slow, slow_size, slow_piece}

abbrev pub k : Kernel
k = calm (exit_status 0)

abbrev pub split : Text → List Text
split text = text ∷ []

abbrev pub no_file : ConfigMap ⊎ Error
no_file = inr Error.epoll_wait_failed

abbrev no_command : Text → Option Command
no_command text = none

abbrev pub greeting : Response → Option Text
greeting r = some hello

abbrev pub guest : Client
guest = record { fd = pos 7; reader = fresh; writer = idle; sent = [] }

abbrev pub daemon : Daemon
daemon = record {
  manager = record { jobs = []; config = [] };
  system = quiet;
  state = Signal.State.running;
}

abbrev pub farewell : Command
farewell = record { kind = terminate; args = [] }

handle_message-drain_example :
    let s =
      drain k split no_file no_command greeting slow 6
        (handle_message k split no_file no_command greeting slow farewell (guest, daemon)).1 in
    (s.0 ≡ returned tt)
    × (s.1.0.sent ≡ [] ++ frame hello)
    × (s.1.0.writer ≡ idle)
    × (lookup (pos 7) s.1.1.system.read_callbacks ≡ some (some (client_read (pos 7))))
    × (s.1.1.manager ≡ daemon.manager)
    × (s.1.1.state ≡ Signal.State.terminated)
    × (s.1.0.reader ≡ fresh)
    × (s.1.0.fd ≡ pos 7)
unfolding on_command parse_command
handle_message-drain_example =
    handle_message-drain k split no_file no_command greeting slow (λ t c. calm_succeeds c)
      (slow_size, slow_piece) farewell guest daemon farewell
      (record { status = ok; message = termination_started }) hello refl refl refl
      (λ h. ground (arith, ap length h)) (omega arith)
