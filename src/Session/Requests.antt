-- ===== src/Session/Requests.antt =====
-- A command of a client, from its arrival to the last byte of its response
-- (taskmasterd/src/ipc/Client.cpp).
use task_master.Base.{
  ℕ, suc, ◌<◌, List, [], ◌∷◌, ◌++◌, ◌⊎◌, inl, inr, Option, some, none, true, false, ◌≡◌, ◌≢◌, refl,
  ◌∙◌, length, ◌==◌, ap,
}
use mathlib.Core.Option.{some-injective}
use task_master.Base.Int.{ℤ, int_key, int_beq_iff}
use task_master.Base.Text.{Text}
use task_master.Base.Assoc.{lookup, insert, erase, lookup-insert}
use task_master.Exec.{Outcome, Error, returned, thrown}
use task_master.Config.{ConfigMap}
use task_master.Manager.{Manager}
use task_master.Proto.{Command, error}
use task_master.Server.{on_command}
use task_master.System.{
  System, Kernel, Syscall, Callback, client_read, client_write, minus_one, register_event,
  unregister_event, epoll_add, epoll_del,
}
use task_master.Response.{Response, internal_error}
use task_master.Framing.{word}
use task_master.Framing.Writer.{Socket, idle, init, clear}
use task_master.Framing.RoundTrip.{frame}
use task_master.Framing.Sending.{IsOpen}
use task_master.Session
use task_master.Session.{Client, Daemon, Session, handle_message, drain}
use task_master.Session.Draining.{state_after, drain_response}

abbrev error_response : Error → Response
error_response x = record { status = error; message = internal_error x }

-- The command as it is kept, and the response, by how the server's handler ends.
abbrev pub reply : Command → Outcome (Command × Option Response) → Option (Command × Response)
reply cmd (returned (changed, some r)) = some (changed, r)
reply cmd (thrown x) = some (cmd, error_response x)
reply cmd _ = none

-- epoll no longer reads from the client.
abbrev pub paused : ℤ → System → System
paused fd sys = record {
  trace = epoll_del fd ∷ sys.trace;
  read_callbacks = erase fd sys.read_callbacks;
  write_callbacks = erase fd sys.write_callbacks;
}

-- epoll waits until the client can be written to.
abbrev pub resumed : ℤ → Command → System → System
resumed fd cmd sys = record {
  trace = epoll_add fd false true ∷ sys.trace;
  read_callbacks = insert fd none sys.read_callbacks;
  write_callbacks = insert fd (some (client_write fd cmd)) sys.write_callbacks;
}

module _ (k : Kernel) (split_shell : Text → List Text) (file : ConfigMap ⊎ Error) where
  abbrev pub handler :
      Command → Client → Daemon → Outcome (Command × Option Response) × (Manager × System)
  handler cmd c d = on_command k split_shell file cmd (d.manager, paused c.fd d.system)

  module _ (parse : Text → Option Command) (serialize : Response → Option Text)
      (socket : Socket) where
    abbrev on_message : Command → Session Unit
    on_message = handle_message k split_shell file parse serialize socket

    abbrev run : ℕ → Session Unit
    run = drain k split_shell file parse serialize socket

    -- The client and the daemon when the response waits to be written.
    abbrev pub waiting : Command → Text → Client → Daemon → Manager × System → Client × Daemon
    waiting changed text c d m = (
      record c { writer = record idle { serialized_message = text } },
      record d { manager = m.0; system = resumed c.fd changed m.1 },
    )

    unregister_lem :
        ((t : List Syscall) (s : Syscall) → (k.answer t s == minus_one) ≡ false)
        → (c : Client) (d : Daemon)
        → Session.unregister k split_shell file parse serialize socket (c, d)
          ≡ (returned tt, (c, record d { system = paused c.fd d.system }))
    unfolding Session.unregister unregister_event
    unregister_lem succeeds c d = rw (succeeds d.system.trace (epoll_del c.fd)) refl

    register_lem :
        ((t : List Syscall) (s : Syscall) → (k.answer t s == minus_one) ≡ false)
        → (cmd : Command) (c : Client) (d : Daemon)
        → Session.register k split_shell file parse serialize socket
            (λ fd. none)
            (λ fd. some (client_write fd cmd))
            (c, d)
          ≡ (returned tt, (c, record d { system = resumed c.fd cmd d.system }))
    unfolding Session.register register_event
    register_lem succeeds cmd c d = rw (succeeds d.system.trace (epoll_add c.fd false true)) refl

    -- The response is in the writer, and the command is the one to keep.
    abbrev Loaded : Command → Text → Client → Outcome Command × (Client × Daemon) → Daemon → Type 0
    Loaded changed text c r d =
        r ≡ (returned changed, (record c { writer = record idle { serialized_message = text } }, d))

    answer_returned :
        (cmd changed : Command) (r : Response) (text : Text) (c : Client) (d : Daemon)
        → c.writer ≡ idle
        → serialize r ≡ some text
        → Loaded changed text c
            (Session.answer k split_shell file parse serialize socket cmd
              (inl (changed, some r))
              (c, d))
            d
    unfolding Session.answer Session.prepare init
    answer_returned cmd changed r text c d w e = rw (w, e) refl

    answer_thrown :
        (cmd : Command) (x : Error) (text : Text) (c : Client) (d : Daemon)
        → serialize (record { status = error; message = internal_error x }) ≡ some text
        → Loaded cmd text c
            (Session.answer k split_shell file parse serialize socket cmd (inr x) (c, d))
            d
    unfolding Session.answer Session.recover Session.prepare init clear
    answer_thrown cmd x text c d e = rw e refl

    pub handle_message_waits :
        ((t : List Syscall) (s : Syscall) → (k.answer t s == minus_one) ≡ false)
        → (cmd : Command) (c : Client) (d : Daemon) (changed : Command) (r : Response) (text : Text)
        → c.writer ≡ idle
        → reply cmd (handler cmd c d).0 ≡ some (changed, r)
        → serialize r ≡ some text
        → on_message cmd (c, d) ≡ (returned tt, waiting changed text c d (handler cmd c d).1)
    unfolding handle_message
    handle_message_waits succeeds cmd c d changed r text w h e = go (handler cmd c d) refl h
      where
        go :
            (x : Outcome (Command × Option Response) × (Manager × System))
            → handler cmd c d ≡ x
            → reply cmd x.0 ≡ some (changed, r)
            → on_message cmd (c, d) ≡ (returned tt, waiting changed text c d x.1)
        go (returned (ch, some s), m) q h =
            let p = some-injective (ch, s) (changed, r) h in
            rw
              (
                unregister_lem succeeds c d,
                q,
                ap (λ y. y.0) p,
                ap (λ y. y.1) p,
                answer_returned cmd changed r text c (record d { manager = m.0; system = m.1 }) w e,
                register_lem succeeds changed
                    (record c { writer = record idle { serialized_message = text } })
                    (record d { manager = m.0; system = m.1 }),
              )
              refl
        go (thrown x, m) q h =
            let p = some-injective (cmd, error_response x) (changed, r) h in
            rw
              (
                unregister_lem succeeds c d,
                q,
                answer_thrown cmd x text c (record d { manager = m.0; system = m.1 })
                    (ap (λ y. serialize y.1) p ∙ e),
                ap (λ y. y.0) p,
                register_lem succeeds changed
                    (record c { writer = record idle { serialized_message = text } })
                    (record d { manager = m.0; system = m.1 }),
              )
              refl
        go (returned (ch, none), m) q h = cc
        go (Outcome.terminated, m) q h = cc
        go (Outcome.exited n, m) q h = cc
        go (Outcome.replaced, m) q h = cc

    same_fd :
        (fd : ℤ) (cb : Option Callback) (m : List (ℤ × Option Callback))
        → lookup fd (insert fd cb m) ≡ some cb
    same_fd fd cb m = lookup-insert fd fd cb m ∙ rw ((int_beq_iff fd fd).1 refl) refl

    -- With an idle writer, over a socket that takes the size whole and at least one byte of each piece,
    -- and with a kernel that refuses no call: if the server's handler returns a response or throws, and
    -- the response (of 1 to 2 ^ 32 - 1 bytes; the one for an internal error after a throw) can be
    -- serialized, then the command and the turns to write behind it send exactly that response, framed;
    -- the client is read from again, with its reader as before, the manager is as the handler left it, and the
    -- daemon is TERMINATED if the command that the handler left is `terminate`, and else in the state of before.
    pub handle_message-drain :
        ((t : List Syscall) (s : Syscall) → (k.answer t s == minus_one) ≡ false)
        → IsOpen socket
        → (cmd : Command) (c : Client) (d : Daemon) (changed : Command) (r : Response) (text : Text)
        → c.writer ≡ idle
        → reply cmd (handler cmd c d).0 ≡ some (changed, r)
        → serialize r ≡ some text
        → text ≢ []
        → length text < word
        → let s = run (suc (length text)) (on_message cmd (c, d)).1 in
          (s.0 ≡ returned tt)
          × (s.1.0.sent ≡ c.sent ++ frame text)
          × (s.1.0.writer ≡ idle)
          × (lookup c.fd s.1.1.system.read_callbacks ≡ some (some (client_read c.fd)))
          × (s.1.1.manager ≡ (handler cmd c d).1.0)
          × (s.1.1.state ≡ state_after changed.kind d.state)
          × (s.1.0.reader ≡ c.reader)
          × (s.1.0.fd ≡ c.fd)
    handle_message-drain succeeds o cmd c d changed r text w h e n l =
        let s = waiting changed text c d (handler cmd c d).1 in
        rw
          (
            handle_message_waits succeeds cmd c d changed r text w h e,
            drain_response k split_shell file parse serialize socket succeeds o changed s.0 s.1 text
                (
                  c.fd,
                  same_fd c.fd (some (client_write c.fd changed))
                      (handler cmd c d).1.1.write_callbacks,
                )
                refl n l,
          )
          (refl, refl, refl, same_fd c.fd (some (client_read c.fd)) _, refl, refl, refl, refl)
