-- ===== src/Session/Draining.antt =====
-- How a response leaves the daemon (taskmasterd/src/ipc/Client.cpp).
use task_master.Base.{
  ℕ, zero, suc, ◌<◌, List, [], ◌∷◌, ◌++◌, ◌⊎◌, Option, some, none, Bool, true, false, ◌≡◌, ◌≢◌,
  refl, append_assoc, subst, sym, ◌∙◌, length, ◌==◌, ap,
}
use task_master.Base.Int.{ℤ, int_key, int_beq_iff}
use task_master.Base.Text.{Text}
use task_master.Base.Assoc.{lookup, insert, erase, lookup-insert}
use task_master.Exec.{Returns, Outcome, Error, returned, thrown, terminated, exited, replaced}
use task_master.Config.{ConfigMap}
use task_master.Proto.{Command, CommandType, terminate}
use task_master.Signal
use task_master.System.{
  Kernel, Syscall, client_read, client_write, minus_one, register_event, unregister_event,
  epoll_add, epoll_del,
}
use task_master.Response.{Response}
use task_master.Framing.{htonl, word}
use task_master.Framing.Writer.{Writer, Socket, idle, write, send_all, clear}
use task_master.Framing.RoundTrip.{frame}
use task_master.Framing.Sending.{IsOpen, send-frame}
use task_master.Session
use task_master.Session.{Client, Daemon, Session, handle_write, drain}

abbrev pub state_after : CommandType → Signal.State → Signal.State
state_after terminate st = Signal.State.terminated
state_after _ st = st

-- The daemon once the client has got its response: it is read from again.
abbrev pub served : Command → ℤ → Daemon → Daemon
served cmd fd d = record d {
  system = record {
    trace = epoll_add fd true false ∷ epoll_del fd ∷ d.system.trace;
    read_callbacks = insert fd (some (client_read fd)) (erase fd d.system.read_callbacks);
    write_callbacks = insert fd none (erase fd d.system.write_callbacks);
  };
  state = state_after cmd.kind d.state;
}

module _ (k : Kernel) (split_shell : Text → List Text) (file : ConfigMap ⊎ Error) where
  module _ (parse : Text → Option Command) (serialize : Response → Option Text)
      (socket : Socket) where
    abbrev on_write : Command → Session Unit
    on_write = handle_write k split_shell file parse serialize socket

    abbrev run : ℕ → Session Unit
    run = drain k split_shell file parse serialize socket

    handle_write_more :
        (cmd : Command) (c : Client) (d : Daemon) (w : Writer) (out : Text)
        → write socket (c.writer, c.sent) ≡ (returned false, (w, out))
        → on_write cmd (c, d) ≡ (returned tt, (record c { writer = w; sent = out }, d))
    unfolding handle_write Session.after_write
    handle_write_more cmd c d w out e = rw e refl

    finished_lem :
        (kind : CommandType) (s : Client × Daemon)
        → Session.finished k split_shell file parse serialize socket kind s
          ≡ (returned tt, (s.0, record s.1 { state = state_after kind s.1.state }))
    finished_lem terminate s = refl
    finished_lem _ s = refl

    after_write_done :
        ((t : List Syscall) (s : Syscall) → (k.answer t s == minus_one) ≡ false)
        → (kind : CommandType) (args : List Text) (c : Client) (d : Daemon)
        → Session.after_write k split_shell file parse serialize socket
            (record { kind = kind; args = args })
            true
            (c, d)
          ≡ (
            returned tt,
            (record c { writer = idle }, served (record { kind = kind; args = args }) c.fd d),
          )
    unfolding Session.after_write Session.unregister Session.register clear register_event
        unregister_event
    after_write_done succeeds kind args c d =
        let one = succeeds d.system.trace (epoll_del c.fd) in
        let two = succeeds (epoll_del c.fd ∷ d.system.trace) (epoll_add c.fd true false) in
        rw (one, two) (finished_lem kind _)

    handle_write_done :
        ((t : List Syscall) (s : Syscall) → (k.answer t s == minus_one) ≡ false)
        → (cmd : Command) (c : Client) (d : Daemon) (w : Writer) (out : Text)
        → write socket (c.writer, c.sent) ≡ (returned true, (w, out))
        → on_write cmd (c, d)
          ≡ (returned tt, (record c { writer = idle; sent = out }, served cmd c.fd d))
    unfolding handle_write
    handle_write_done succeeds cmd c d w out e =
        rw (e, after_write_done succeeds cmd.kind cmd.args (record c { writer = w; sent = out }) d)
          refl

    -- The client has no more turns to write.
    lookup-served :
        (cmd : Command) (fd : ℤ) (d : Daemon)
        → lookup fd (served cmd fd d).system.write_callbacks ≡ some none
    lookup-served cmd fd d =
        lookup-insert fd fd none (erase fd d.system.write_callbacks)
        ∙ rw ((int_beq_iff fd fd).1 refl) refl

    drain_served :
        (n : ℕ) (cmd : Command) (c : Client) (d : Daemon)
        → run n (c, served cmd c.fd d) ≡ (returned tt, (c, served cmd c.fd d))
    unfolding drain
    drain_served zero cmd c d = refl
    drain_served (suc n) cmd c d = rw (lookup-served cmd c.fd d) refl

    abbrev IsWriting : Command → Client → Daemon → Type 0
    IsWriting cmd c d =
        (f : ℤ) × (lookup c.fd d.system.write_callbacks ≡ some (some (client_write f cmd)))

    drain_all :
        ((t : List Syscall) (s : Syscall) → (k.answer t s == minus_one) ≡ false)
        → (fuel : ℕ) (cmd : Command) (c : Client) (d : Daemon) (w : Writer) (out : Text)
        → IsWriting cmd c d
        → send_all socket fuel (c.writer, c.sent) ≡ (returned true, (w, out))
        → run fuel (c, d)
          ≡ (returned tt, (record c { writer = idle; sent = out }, served cmd c.fd d))
    unfolding drain send_all
    drain_all succeeds zero cmd c d w out p e = cc
    drain_all succeeds (suc fuel) cmd c d w out p e =
        go (write socket (c.writer, c.sent)) refl
          (λ c p e. drain_all succeeds fuel cmd c d w out p e)
      where
        go :
            (r : Outcome Bool × (Writer × Text))
            → write socket (c.writer, c.sent) ≡ r
            → ((c : Client)
                → IsWriting cmd c d
                → send_all socket fuel (c.writer, c.sent) ≡ (returned true, (w, out))
                → run fuel (c, d)
                  ≡ (returned tt, (record c { writer = idle; sent = out }, served cmd c.fd d)))
            → run (suc fuel) (c, d)
              ≡ (returned tt, (record c { writer = idle; sent = out }, served cmd c.fd d))
        go (returned true, s) q again =
            let e : (returned true, s) ≡ (returned true, (w, out)) = rw q at e in
            rw (p.1, handle_write_done succeeds cmd c d s.0 s.1 q)
              (drain_served fuel cmd (record c { writer = idle; sent = s.1 }) d
                ∙ ap
                    (λ r.
                      (returned tt, (record c { writer = idle; sent = r.1.1 }, served cmd c.fd d)))
                    e)
        go (returned false, s) q again =
            rw (p.1, handle_write_more cmd c d s.0 s.1 q)
              (again (record c { writer = s.0; sent = s.1 }) p (rw q at e))
        go (thrown x, s) q again = absurd (subst Returns (sym (rw q at e)) tt)
        go (terminated, s) q again = absurd (subst Returns (sym (rw q at e)) tt)
        go (exited n, s) q again = absurd (subst Returns (sym (rw q at e)) tt)
        go (replaced, s) q again = absurd (subst Returns (sym (rw q at e)) tt)

    -- A response of 1 to 2 ^ 32 - 1 bytes that waits in an idle client, over a socket that takes the
    -- size whole and at least one byte of each piece, and with a kernel that refuses no call: the turns
    -- to write, one for each byte and one for the size at most, send the size and the bytes, leave the
    -- writer idle and the client to be read from again, and change no job; the daemon is TERMINATED if
    -- the command was `terminate`, and else in the state of before.
    pub drain_response :
        ((t : List Syscall) (s : Syscall) → (k.answer t s == minus_one) ≡ false)
        → IsOpen socket
        → (cmd : Command) (c : Client) (d : Daemon) (m : Text) → IsWriting cmd c d
        → c.writer ≡ record idle { serialized_message = m }
        → m ≢ []
        → length m < word
        → run (suc (length m)) (c, d)
          ≡ (returned tt, (record c { writer = idle; sent = c.sent ++ frame m }, served cmd c.fd d))
    unfolding frame
    drain_response succeeds o cmd c d m p e w h =
        drain_all succeeds (suc (length m)) cmd c d idle (c.sent ++ frame m) p (
          ap (λ v. send_all socket (suc (length m)) (v, c.sent)) e
          ∙ send-frame socket o m c.sent w h
          ∙ ap (λ s. (returned true, (idle, s))) (append_assoc c.sent (htonl (length m)) m))
