-- ===== src/Tests/Exchanges.antt =====
-- A command that goes from taskmasterctl to taskmasterd in two pieces, and its response back.
use task_master.Base.{List, [], ◌∷◌, ◌++◌, Option, some, ◌≡◌, refl, arith, length, ap}
use task_master.Base.Int.{pos, int_key}
use task_master.Base.Text.{Text, codes}
use task_master.Ctl
use task_master.Ctl.{Ctl, Reply}
use task_master.Exchange.{IsIdle, served, sends, Answered, exchange}
use task_master.Framing.{htonl, ntohl}
use task_master.Framing.Writer.{init, write, send_all, write_size, write_piece, send, finish, clear}
use task_master.Exec.{◌>>=◌}
use task_master.Framing.RoundTrip.{concat}
use task_master.Proto.{Command, ok}
use task_master.Response.{termination_started}
use task_master.Server.{on_command, parse_command}
use task_master.Session
use task_master.Session.{Client, Daemon, listen, drain, handle_read, handle_write, handle_message}
use task_master.Framing.Reader
use task_master.Base.Assoc.{lookup, insert, erase}
use task_master.Session.Listening.{AreSome}
use task_master.System.{client_read, register_event, unregister_event}
use task_master.Tests.{calm_succeeds, quiet}
use task_master.Tests.Clients.{user, encode, decode, encoding, what}
use task_master.Tests.Messages.{hello, slow, slow_size, slow_piece}
use task_master.Tests.Sessions.{k, split, no_file, greeting, guest, daemon, farewell}

abbrev parse : Text → Option Command
parse text = some farewell

abbrev listening : Daemon
listening = record daemon {
  system = record quiet { read_callbacks = (pos 7, some (client_read (pos 7))) ∷ [] };
}

-- The way there, and the way back.
abbrev arriving : List Text
arriving = (0 ∷ 0 ∷ 0 ∷ []) ∷ (5 ∷ hello) ∷ []

abbrev returning : Text → List Text
returning sent = (0 ∷ 0 ∷ 0 ∷ 5 ∷ codes "hel") ∷ codes "lo" ∷ []

arriving-AreSome : AreSome arriving
arriving-AreSome = (λ h. cc, (λ h. cc, tt))

abbrev outgoing : Ctl
outgoing =
    (sends k split no_file parse greeting slow encode slow decode returning what encoding farewell
      user).1

up : user.sent ++ concat arriving ≡ outgoing.sent
unfolding Ctl.send_command init htonl send_all write write_size write_piece send finish clear
up = refl

abbrev answering : Client × Daemon
answering = served k split no_file parse greeting slow arriving 6 (guest, listening)

down : guest.sent ++ concat (returning outgoing.sent) ≡ answering.0.sent
unfolding listen drain handle_read handle_write handle_message Session.after_read
    Session.after_write Session.unregister Session.register Session.answer Session.prepare
    Session.disconnect Session.close on_command parse_command lookup insert erase Reader.read
    Reader.complete ntohl init write write_size write_piece send finish clear htonl register_event
    unregister_event
down = refl

waits : IsIdle guest listening
unfolding lookup
waits = record { reading = refl; writing = refl; listening = refl }

exchange_example :
    ((sends k split no_file parse greeting slow encode slow decode returning what encoding farewell
          >>= Ctl.ask encode slow decode returning what farewell)
        user
      ≡ Ctl.answered encode slow decode returning what farewell
          (some (record { status = some ok; message = codes "Bye" }))
          outgoing)
    × Answered k split no_file parse greeting slow farewell farewell hello guest listening answering
unfolding on_command parse_command
exchange_example =
    exchange k split no_file parse greeting slow encode slow decode returning what encoding
      (λ t c. calm_succeeds c) (slow_size, slow_piece) (slow_size, slow_piece) farewell user
      arriving guest listening farewell (record { status = ok; message = termination_started })
      hello (record { status = some ok; message = codes "Bye" }) waits
      (refl, λ h. ground (arith, ap length h), omega arith) refl refl refl
      (λ h. ground (arith, ap length h)) (omega arith) refl arriving-AreSome up down
