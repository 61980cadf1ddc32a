-- ===== src/Exchange.antt =====
-- A command on its way from taskmasterctl (taskmasterctl/src/ipc/Client.cpp) to taskmasterd
-- (taskmasterd/src/ipc/Client.cpp), and the response on its way back.
use mathlib.Core.List.{append_cancel_left}
use task_master.Base.{
  ℕ, suc, ◌<◌, List, [], ◌++◌, subst, ◌⊎◌, Option, some, ◌≡◌, ◌≢◌, sym, ap, ◌∙◌, false, Bool,
  length, ◌==◌,
}
use task_master.Base.Int.{int_key}
use task_master.Base.Text.{Text}
use task_master.Base.Assoc.{lookup}
use task_master.Config.{ConfigMap}
use task_master.Ctl
use task_master.Ctl.{Ctl, Reply, Run, send_command}
use task_master.Ctl.Dialogue.{IsCoded, send_command_lem, ask_lem}
use task_master.Exec.{Error, ◌>>=◌}
use task_master.Framing.{word}
use task_master.Framing.Reader.{fresh}
use task_master.Framing.RoundTrip.{concat, frame}
use task_master.Framing.Sending.{IsOpen}
use task_master.Framing.Writer
use task_master.Framing.Writer.{idle}
use task_master.Proto.{Command}
use task_master.Response.{Response}
use task_master.Session.{Client, Daemon, listen, drain}
use task_master.Session.Draining.{state_after}
use task_master.Session.Listening.{AreSome, listen-frame}
use task_master.Session.Requests.{handler, reply, handle_message_waits, handle_message-drain}
use task_master.System.{Kernel, Syscall, client_read, minus_one}

-- The client's connection waits for a command.
pub record IsIdle (c : Client) (d : Daemon) : Type 0 where
  pub reading : c.reader ≡ fresh
  pub writing : c.writer ≡ idle
  pub listening : lookup c.fd d.system.read_callbacks ≡ some (some (client_read c.fd))

-- The daemon, with the codec and the socket of its side.
module _ (k : Kernel) (split_shell : Text → List Text) (file : ConfigMap ⊎ Error)
    (parse : Text → Option Command) (serialize : Response → Option Text)
    (socket : Writer.Socket) where
  abbrev pub served : List Text → ℕ → Client × Daemon → Client × Daemon
  served pieces turns s =
      (drain k split_shell file parse serialize socket turns
        (listen k split_shell file parse serialize socket pieces s).1).1

  -- The connection, and the daemon, when the command has been answered with the text.
  abbrev pub Answered : Command → Command → Text → Client → Daemon → Client × Daemon → Type 0
  Answered cmd changed text c d v =
      (v.0.sent ≡ c.sent ++ frame text)
      × IsIdle v.0 v.1
      × (v.1.manager ≡ (handler k split_shell file cmd c d).1.0)
      × (v.1.state ≡ state_after changed.kind d.state)

  -- The daemon's side: the frame of a command arrives, in any pieces, and the response leaves.
  served_lem :
      ((t : List Syscall) (s : Syscall) → (k.answer t s == minus_one) ≡ false)
      → IsOpen socket
      → (m : Text) (cmd : Command) (pieces : List Text) (c : Client) (d : Daemon)
        (changed : Command) (r : Response) (text : Text)
      → IsIdle c d
      → length m < word
      → parse m ≡ some cmd
      → AreSome pieces
      → concat pieces ≡ frame m
      → reply cmd (handler k split_shell file cmd c d).0 ≡ some (changed, r)
      → serialize r ≡ some text
      → text ≢ []
      → length text < word
      → let v = served pieces (suc (length text)) (c, d) in
        (v.0.sent ≡ c.sent ++ frame text)
        × IsIdle v.0 v.1
        × (v.1.manager ≡ (handler k split_shell file cmd c d).1.0)
        × (v.1.state ≡ state_after changed.kind d.state)
  served_lem succeeds o m cmd pieces c d changed r text i fits parsed some_bytes q h e n l =
      let c' : Client = record c { reader = fresh } in
      let waits =
        handle_message_waits k split_shell file parse serialize socket succeeds cmd c' d changed r
          text i.writing h e in
      let heard =
        listen-frame k split_shell file parse serialize socket m cmd pieces c d _ fits parsed
          some_bytes q (c.fd, i.listening) i.reading waits in
      let (ret, sent, w, on, man, st, rd, fd) =
        handle_message-drain k split_shell file parse serialize socket succeeds o cmd c' d changed r
          text i.writing h e n l in
      subst
        (λ x.
          Answered cmd changed text c d
            (drain k split_shell file parse serialize socket (suc (length text)) x.1).1)
        (waits ∙ sym heard)
        (sent, record { reading = rd; writing = w; listening = rw (fd) on }, man, st)

  -- The client's side: its codec and socket, the pieces of the answer, and the texts of the exceptions.
  module _ (encode : Command → Option Text) (out : Writer.Socket) (decode : Text → Option Reply)
      (pieces : Text → List Text) (what : Error → Text) (bytes : Command → Text) where
    abbrev pub sends : Command → Run Bool
    sends = send_command encode out decode pieces what

    -- A command that the client sends over an open connection, and that the daemon can parse, is the one that
    -- the daemon's handler gets, and the response of this handler, if the client can parse it, is the one
    -- that the client judges, however the bytes are cut on the two ways. Both sockets take the size whole and
    -- at least one byte of each piece, both messages have 1 to 2 ^ 32 - 1 bytes, the kernel refuses no call,
    -- and the connection waits for a command. It does so again afterwards, and the daemon has changed as the
    -- handler says.
    pub exchange :
        ((t : List Syscall) (s : Syscall) → (k.answer t s == minus_one) ≡ false)
        → IsOpen socket
        → IsOpen out
        → (cmd : Command) (s : Ctl) (arriving : List Text) (c : Client) (d : Daemon)
          (changed : Command) (r : Response) (text : Text) (answer : Reply)
        → IsIdle c d
        → IsCoded encode bytes cmd
        → parse (bytes cmd) ≡ some cmd
        → reply cmd (handler k split_shell file cmd c d).0 ≡ some (changed, r)
        → serialize r ≡ some text
        → text ≢ []
        → length text < word
        → decode text ≡ some answer
        → let t = (sends cmd s).1 in
          let v = served arriving (suc (length text)) (c, d) in
          AreSome arriving
          → s.sent ++ concat arriving ≡ t.sent
          → c.sent ++ concat (pieces t.sent) ≡ v.0.sent
          → ((sends cmd >>= Ctl.ask encode out decode pieces what cmd) s
              ≡ Ctl.answered encode out decode pieces what cmd (some answer) t)
            × Answered cmd changed text c d v
    exchange succeeds open_in open_out cmd s arriving c d changed r text answer i coded parsed h e n
          l decoded some_bytes up down =
        let (t, sent, lines, out_sent) =
          send_command_lem encode out decode pieces what bytes (λ x. answer) open_out cmd s coded in
        let arrives : concat arriving ≡ frame (bytes cmd) =
          append_cancel_left s.sent _ _ (up ∙ ap (λ x. x.1.sent) sent ∙ out_sent) in
        let done =
          served_lem succeeds open_in (bytes cmd) cmd arriving c d changed r text i coded.2 parsed
            some_bytes arrives h e n l in
        let returns : concat (pieces t.sent) ≡ frame text =
          append_cancel_left c.sent _ _
            (ap (λ x. c.sent ++ concat (pieces x.1.sent)) (sym sent) ∙ down ∙ done.0) in
        let asked =
          ask_lem encode out decode pieces what bytes (λ x. answer) open_out cmd t
            (text, returns, l, decoded) in
        (rw (sent) asked, done)
