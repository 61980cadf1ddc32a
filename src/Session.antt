-- ===== src/Session.antt =====
-- taskmasterd/src/ipc/Client.cpp: a connected client, whose command is read, answered by the server, and
-- the response written, each when epoll says that the socket is ready.
pub mod Draining
pub mod Listening
pub mod Requests
pub mod Named
use task_master.Base.{
  ℕ, zero, suc, List, [], ◌∷◌, ◌⊎◌, inl, inr, Option, some, none, Bool, true, false, if◌then◌else◌,
  ◌==◌,
}
use task_master.Base.Int.{ℤ, int_key}
use task_master.Base.Text.{Text}
use task_master.Base.Assoc.{lookup}
use task_master.Exec.{
  Exec, Outcome, Error, pure, throw, catch, within, destructor, ◌>>=◌, ◌>>◌, returned, terminated,
}
use task_master.Config.{ConfigMap}
use task_master.Proto.{Command, CommandType, terminate, error}
use task_master.Signal
use task_master.System.{
  System, Kernel, Callback, client_read, client_write, minus_one, register_event, unregister_event,
  close_fd,
}
use task_master.Response.{Response, internal_error}
use task_master.Timer.{Method}
use task_master.Manager.{Manager}
use task_master.Server.{on_command}
use task_master.Framing.Writer
use task_master.Framing.Writer.{Writer, Socket, init, clear}
use task_master.Framing.Reader
use task_master.Framing.Reader.{Reader, Received, bytes, closed}

-- `sent` is what the socket has taken so far.
pub record Client : Type 0 where
  pub fd : ℤ
  pub reader : Reader
  pub writer : Writer
  pub sent : Text

-- What the methods of a client reach: the manager behind the server, epoll, and `g_state`.
pub record Daemon : Type 0 where
  pub manager : Manager
  pub system : System
  pub state : Signal.State

abbrev pub Session : Type 0 → Type 0
Session A = Exec (Client × Daemon) A

abbrev this : Session Client
this s = (returned s.0, s)

abbrev pub on_system : {A : Type 0} → Exec System A → Session A
on_system = within (λ s. s.1.system) (λ s sys. (s.0, record s.1 { system = sys }))

abbrev pub on_server : {A : Type 0} → Method Manager A → Session A
on_server =
    within (λ s. (s.1.manager, s.1.system))
      (λ s m. (s.0, record s.1 { manager = m.0; system = m.1 }))

abbrev pub on_reader : {A : Type 0} → Exec Reader A → Session A
on_reader = within (λ s. s.0.reader) (λ s r. (record s.0 { reader = r }, s.1))

abbrev pub on_writer : {A : Type 0} → Exec (Writer × Text) A → Session A
on_writer =
    within (λ s. (s.0.writer, s.0.sent)) (λ s w. (record s.0 { writer = w.0; sent = w.1 }, s.1))

abbrev pub forget_fd : Session Unit
forget_fd s = (returned tt, (record s.0 { fd = minus_one }, s.1))

abbrev set_terminated : Session Unit
set_terminated s = (returned tt, (s.0, record s.1 { state = Signal.State.terminated }))

module _ (k : Kernel) (split_shell : Text → List Text) (file : ConfigMap ⊎ Error) where
  module _ (parse : Text → Option Command) (serialize : Response → Option Text)
      (socket : Socket) where
    unfoldable pub unregister : Session Unit
    unregister = do c ← this; on_system (unregister_event k c.fd)

    unfoldable pub register : (ℤ → Option Callback) → (ℤ → Option Callback) → Session Unit
    register on_read on_write = do
      c ← this
      on_system (register_event k c.fd (on_read c.fd) (on_write c.fd))

    unfoldable pub close : Session Unit
    close = do c ← this; on_system (close_fd k c.fd); forget_fd

    unfoldable pub disconnect : Session Unit
    unfolding unregister close
    disconnect = do unregister; close

    abbrev pub never : ℤ → Option Callback
    never fd = none

    abbrev pub read_back : ℤ → Option Callback
    read_back fd = some (client_read fd)

    -- The constructor.
    unfoldable pub connect : Session Unit
    unfolding register
    connect = register read_back never

    -- The destructor, with the one of its socket.
    unfoldable pub destroy : Session Unit
    unfolding unregister
    destroy = do
      c ← this
      if c.fd == minus_one then pure tt else (do destructor unregister; on_system (close_fd k c.fd))

    abbrev pub finished : CommandType → Session Unit
    finished terminate = set_terminated
    finished _ = pure tt

    unfoldable pub after_write : Command → Bool → Session Unit
    unfolding unregister register clear
    after_write cmd true = do
      unregister
      register read_back never
      on_writer clear
      finished cmd.kind
    after_write cmd false = pure tt

    unfoldable pub handle_write : Command → Session Unit
    unfolding after_write disconnect
    handle_write cmd = catch (on_writer (Writer.write socket) >>= after_write cmd) (λ e. disconnect)

    -- What the server answers: a command, as it leaves it, and a response, or an exception.
    abbrev pub ask : Command → Session ((Command × Option Response) ⊎ Error)
    ask cmd =
        catch (do r ← on_server (on_command k split_shell file cmd); pure (inl r))
          (λ e. pure (inr e))

    -- `none` is a command for which the server's behaviour is undefined.
    unfoldable pub prepare : Option Response → Session Unit
    unfolding init
    prepare none s = (terminated, s)
    prepare (some r) s = on_writer (init (serialize r)) s

    unfoldable pub recover : Error → Session Unit
    unfolding prepare clear
    recover e = do
      on_writer clear
      prepare (some (record { status = error; message = internal_error e }))

    unfoldable pub answer : Command → (Command × Option Response) ⊎ Error → Session Command
    unfolding prepare recover
    answer cmd (inr e) = do recover e; pure cmd
    answer cmd (inl (changed, r)) = do catch (prepare r) recover; pure changed

    unfoldable pub handle_message : Command → Session Unit
    unfolding unregister answer register
    handle_message cmd = do
      unregister
      r ← ask cmd
      changed ← answer cmd r
      register never (λ fd. some (client_write fd changed))

    unfoldable pub after_read : Received → Option Command → Session Unit
    unfolding disconnect
    after_read closed m = disconnect
    after_read received none = pure tt
    after_read received (some cmd) = handle_message cmd

    unfoldable pub handle_read : Received → Session Unit
    unfolding after_read disconnect
    handle_read received =
        catch (on_reader (Reader.read parse received) >>= after_read received) (λ e. disconnect)

    abbrev run_write : Option (Option Callback) → (Command → Session Unit) → Session Unit
    run_write (some (some (client_write fd cmd))) again = do handle_write cmd; again cmd
    run_write _ again = pure tt

    -- The client's turns in `EventManager::handleEvents` while its socket can be written.
    unfoldable pub drain : ℕ → Session Unit
    drain zero s = (returned tt, s)
    drain (suc n) s = run_write (lookup s.0.fd s.1.system.write_callbacks) (λ cmd. drain n) s

    abbrev run_read : Text → Option (Option Callback) → Session Unit → Session Unit
    run_read piece (some (some (client_read fd))) again = do handle_read (bytes piece); again
    run_read piece _ again = pure tt

    -- The client's turns in `EventManager::handleEvents` while these pieces arrive and its socket is read.
    unfoldable pub listen : List Text → Session Unit
    listen [] s = (returned tt, s)
    listen (piece ∷ pieces) s =
        run_read piece (lookup s.0.fd s.1.system.read_callbacks) (listen pieces) s
