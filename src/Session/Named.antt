-- ===== src/Session/Named.antt =====
-- The jobs stay under their names through everything that a client does
-- (taskmasterd/src/ipc/Client.cpp).
use task_master.Base.{List, Option, some, none, Bool, true, false, ◌⊎◌, inl, inr, ◌≡◌, All}
use task_master.Base.Int.{ℤ}
use task_master.Base.Text.{Text}
use task_master.Exec.{Error, pure, catch, ◌>>=◌, ◌>>◌}
use task_master.Exec.Keeps.{Keeps, bind-Keeps, then-Keeps, catch-Keeps}
use task_master.Config.{ConfigMap}
use task_master.Framing.Reader
use task_master.Framing.Reader.{Received, bytes, closed, would_block, failed}
use task_master.Framing.Writer
use task_master.Framing.Writer.{clear}
use task_master.Manager.Names.{IsNamed}
use task_master.Proto.{Command, CommandType, terminate, error}
use task_master.Response.{Response, internal_error}
use task_master.Server.{on_command}
use task_master.Server.Replies.{on_command-Named}
use task_master.Session
use task_master.Session.{Client, Daemon, Session, handle_read, handle_write, handle_message}
use task_master.System.{Kernel, Callback, client_write, close_fd}

abbrev pub SessionNamed : Client × Daemon → Type 0
SessionNamed s = IsNamed s.1.manager

module _ (k : Kernel) (split_shell : Text → List Text) (file : ConfigMap ⊎ Error) where
  module _ (parse : Text → Option Command) (serialize : Response → Option Text)
      (socket : Writer.Socket) where
    abbrev unregister : Session Unit
    unregister = Session.unregister k split_shell file parse serialize socket

    abbrev register : (ℤ → Option Callback) → (ℤ → Option Callback) → Session Unit
    register = Session.register k split_shell file parse serialize socket

    abbrev disconnect : Session Unit
    disconnect = Session.disconnect k split_shell file parse serialize socket

    abbrev close : Session Unit
    close = Session.close k split_shell file parse serialize socket

    unregister-Named : Keeps SessionNamed unregister
    unfolding Session.unregister
    unregister-Named s h = h

    register-Named : (r w : ℤ → Option Callback) → Keeps SessionNamed (register r w)
    unfolding Session.register
    register-Named r w s h = h

    close-Named : Keeps SessionNamed close
    unfolding Session.close
    close-Named s =
        then-Keeps SessionNamed (Session.on_system (close_fd k s.0.fd)) Session.forget_fd (λ t g. g)
          (λ t g. g) s

    disconnect-Named : Keeps SessionNamed disconnect
    unfolding Session.disconnect
    disconnect-Named = then-Keeps SessionNamed unregister close unregister-Named close-Named

    finished-Named :
        (kind : CommandType)
        → Keeps SessionNamed (Session.finished k split_shell file parse serialize socket kind)
    finished-Named terminate s h = h
    finished-Named _ s h = h

    after_write-Named :
        (cmd : Command) (done : Bool)
        → Keeps SessionNamed
            (Session.after_write k split_shell file parse serialize socket cmd done)
    unfolding Session.after_write
    after_write-Named cmd true =
        let finished = Session.finished k split_shell file parse serialize socket cmd.kind in
        let on_read = Session.read_back k split_shell file parse serialize socket in
        let on_write = Session.never k split_shell file parse serialize socket in
        let read_back = register on_read on_write in
        then-Keeps SessionNamed unregister (read_back >> (Session.on_writer clear >> finished))
          unregister-Named
          (then-Keeps SessionNamed read_back (Session.on_writer clear >> finished)
            (register-Named on_read on_write)
            (then-Keeps SessionNamed (Session.on_writer clear) finished (λ t g. g)
              (finished-Named cmd.kind)))
    after_write-Named cmd false = λ s h. h

    pub handle_write-Named :
        (cmd : Command)
        → Keeps SessionNamed (handle_write k split_shell file parse serialize socket cmd)
    unfolding handle_write
    handle_write-Named cmd =
        let after = Session.after_write k split_shell file parse serialize socket cmd in
        catch-Keeps SessionNamed (Session.on_writer (Writer.write socket) >>= after)
          (λ e. disconnect)
          (bind-Keeps SessionNamed (Session.on_writer (Writer.write socket)) after (λ s h. h)
            (after_write-Named cmd))
          (λ e. disconnect-Named)

    prepare-Named :
        (r : Option Response)
        → Keeps SessionNamed (Session.prepare k split_shell file parse serialize socket r)
    unfolding Session.prepare
    prepare-Named none s h = h
    prepare-Named (some r) s h = h

    recover-Named :
        (e : Error)
        → Keeps SessionNamed (Session.recover k split_shell file parse serialize socket e)
    unfolding Session.recover
    recover-Named e =
        let r : Option Response = some (record { status = error; message = internal_error e }) in
        then-Keeps SessionNamed (Session.on_writer clear)
          (Session.prepare k split_shell file parse serialize socket r) (λ t g. g) (prepare-Named r)

    answer-Named :
        (cmd : Command) (r : (Command × Option Response) ⊎ Error)
        → Keeps SessionNamed (Session.answer k split_shell file parse serialize socket cmd r)
    unfolding Session.answer
    answer-Named cmd (inr e) =
        then-Keeps SessionNamed (Session.recover k split_shell file parse serialize socket e)
          (pure cmd) (recover-Named e) (λ t g. g)
    answer-Named cmd (inl (changed, r)) =
        let prepared = Session.prepare k split_shell file parse serialize socket r in
        let recover = Session.recover k split_shell file parse serialize socket in
        then-Keeps SessionNamed (catch prepared recover) (pure changed)
          (catch-Keeps SessionNamed prepared recover (prepare-Named r) recover-Named) (λ t g. g)

    module _
        (named : (configs : ConfigMap)
          → file ≡ inl configs
          → All (λ entry. entry.1.name ≡ entry.0) configs) where
      ask-Named :
          (cmd : Command)
          → Keeps SessionNamed (Session.ask k split_shell file parse serialize socket cmd)
      ask-Named cmd =
          let served = Session.on_server (on_command k split_shell file cmd) in
          let asked = served >>= λ r. pure (inl r) in
          catch-Keeps SessionNamed asked (λ e. pure (inr e))
            (bind-Keeps SessionNamed served (λ r. pure (inl r))
              (λ s h. on_command-Named k split_shell file named cmd (s.1.manager, s.1.system) h)
              (λ r t g. g))
            (λ e t g. g)

      pub handle_message-Named :
          (cmd : Command)
          → Keeps SessionNamed (handle_message k split_shell file parse serialize socket cmd)
      unfolding handle_message
      handle_message-Named cmd =
          let ask = Session.ask k split_shell file parse serialize socket cmd in
          let answer = Session.answer k split_shell file parse serialize socket cmd in
          let on_read = Session.never k split_shell file parse serialize socket in
          let on_write = λ (changed : Command) (fd : ℤ). some (client_write fd changed) in
          let resume = λ (changed : Command). register on_read (on_write changed) in
          then-Keeps SessionNamed unregister (ask >>= λ r. answer r >>= resume) unregister-Named (
            bind-Keeps SessionNamed ask (λ r. answer r >>= resume) (ask-Named cmd)
              (λ r.
                bind-Keeps SessionNamed (answer r) resume (answer-Named cmd r)
                  (λ changed. register-Named on_read (on_write changed))))

      after_read-Named :
          (received : Received) (m : Option Command)
          → Keeps SessionNamed
              (Session.after_read k split_shell file parse serialize socket received m)
      unfolding Session.after_read
      after_read-Named closed m = disconnect-Named
      after_read-Named (bytes b) none = λ s h. h
      after_read-Named would_block none = λ s h. h
      after_read-Named failed none = λ s h. h
      after_read-Named (bytes b) (some cmd) = handle_message-Named cmd
      after_read-Named would_block (some cmd) = handle_message-Named cmd
      after_read-Named failed (some cmd) = handle_message-Named cmd

      pub handle_read-Named :
          (received : Received)
          → Keeps SessionNamed (handle_read k split_shell file parse serialize socket received)
      unfolding handle_read
      handle_read-Named received =
          let got = Session.on_reader (Reader.read parse received) in
          let after = Session.after_read k split_shell file parse serialize socket received in
          catch-Keeps SessionNamed (got >>= after) (λ e. disconnect)
            (bind-Keeps SessionNamed got after (λ s h. h) (after_read-Named received))
            (λ e. disconnect-Named)
