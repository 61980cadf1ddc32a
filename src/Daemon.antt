-- ===== src/Daemon.antt =====
-- The daemon as a whole (taskmasterd/src/main.cpp): the manager, the server with its clients
-- (taskmasterd/src/ipc/Server.cpp), and what each callback that epoll knows leads to.
pub mod Objects
pub mod Named
pub mod Events
pub mod Seats
pub mod Coming
pub mod Exits
pub mod Ending
pub mod Killing
pub mod Halting
pub mod Leaving
pub mod Closing
pub mod Orders
pub mod Startup
pub mod Waiting
pub mod Signals
pub mod Scopes
pub mod Whole
use task_master.Base.{
  ℕ, zero, suc, List, [], ◌∷◌, ◌++◌, Option, some, none, Bool, true, false, not, ◌⊎◌, inl, inr,
  if◌then◌else◌, ◌==◌, any,
}
use task_master.Base.Int.{ℤ, pos, int_key}
use task_master.Base.Text.{Text, text_key}
use task_master.Base.Assoc.{lookup}
use task_master.Exec.{
  Exec, Error, pure, throw, catch, within, destructor, ◌>>=◌, ◌>>◌, returned, terminated,
}
use task_master.Config.{ConfigMap}
use task_master.Job
use task_master.Job.{Job, program}
use task_master.Job.Callbacks
use task_master.Job.Callbacks.{Program, Seat, seated}
use task_master.Loop
use task_master.Loop.{Waited, Round}
use task_master.Manager
use task_master.Manager.{Manager, at_job, keys}
use task_master.Process.{Process}
use task_master.Proto.{Command}
use task_master.Response.{Response}
use task_master.Session
use task_master.Session.{Client, Daemon, Session, connect, handle_read, handle_write}
use task_master.Signal
use task_master.Socket
use task_master.Framing.Reader.{Received, fresh}
use task_master.Framing.Writer.{idle}
use task_master.Framing.Writer
use task_master.System
use task_master.System.{
  System, Kernel, Syscall, Callback, process_changed, timer_expired, accept_client, client_read,
  client_write, minus_one, register_event, unregister_event, close_fd,
}
use task_master.Timer.{Method}
pub use Objects.{
  Hub, World, Main, on_system, on_manager, Place, further, SeatMethod, seat_run, dangling,
  run_found, holds, at_holder, session_run, state_over,
}
unfoldable pub use Objects.{
  locate, at_process, holder, call_process, find_client, at_client, connected,
}

module _ (k : Kernel) (split_shell : Text → List Text)
    (read_file : List Syscall → ConfigMap ⊎ Error) (parse : Text → Option Command)
    (serialize : Response → Option Text) (socket : ℤ → Writer.Socket)
    (incoming : List Syscall → ℤ → Received) where
  -- What is thrown in a constructor ends with the destructor of the base, which closes the descriptor.
  abbrev pub or_close : {A : Type 0} → ℤ → Main A → Main A
  or_close fd m = catch m (λ e. do on_system (close_fd k fd); throw e)

  -- `Client(std::move(clientSocket), *this)`
  abbrev pub new_client : ℤ → Client
  new_client fd = record { fd = fd; reader = fresh; writer = idle; sent = [] }

  abbrev pub register_client : ℤ → Main Unit
  register_client fd = on_system (register_event k fd (some (client_read fd)) none)

  abbrev pub update_clients : (List Client → List Client) → Main Unit
  update_clients f w = (returned tt, (record w.0 { clients = f w.0.clients }, w.1))

  abbrev pub this : Main Hub
  this w = (returned w.0, w)

  -- `Server::onAccept`
  unfoldable pub on_accept : Main Unit
  unfolding connected
  on_accept = do
    h ← this
    s ← on_system (Socket.accept k h.listener)
    or_close s.fd (register_client s.fd)
    update_clients (λ cs. cs ++ new_client s.fd ∷ [])
    update_clients connected

  abbrev pub set_listener : Socket.Socket → Main Unit
  set_listener s w = (returned tt, (record w.0 { listener = s; clients = [] }, w.1))

  -- The constructor of `Server`.
  unfoldable pub serve : Text → ℤ → Main Unit
  serve path backlog = do
    s ← on_system (Socket.create k System.unix)
    set_listener s
    or_close s.fd (do
      on_system (Socket.bind k s path)
      on_system (Socket.listen k s backlog)
      on_system (register_event k s.fd (some accept_client) none)
      on_manager (Manager.start_all k))

  -- The destructor of the server: itself, its clients, its socket.
  abbrev pub leave_client : Client → Main Unit
  leave_client c = do
    if c.fd == minus_one then pure tt else destructor (on_system (unregister_event k c.fd))
    on_system (close_fd k c.fd)

  unfoldable pub leave_clients : List Client → Main Unit
  leave_clients [] = pure tt
  leave_clients (c ∷ cs) = do leave_client c; leave_clients cs

  unfoldable pub leave : Main Unit
  unfolding leave_clients
  leave = do
    h ← this
    destructor (on_system (unregister_event k h.listener.fd))
    leave_clients h.clients
    on_system (close_fd k h.listener.fd)

  -- The reading of the file, `recv` and `send` are at the calls made so far.
  abbrev pub reading : Main (ConfigMap ⊎ Error)
  reading w = (returned (read_file w.0.system.trace), w)

  abbrev pub receiving : ℤ → Main Received
  receiving fd w = (returned (incoming w.0.system.trace fd), w)

  -- A bound member function, called.
  unfoldable pub run : Callback → Main Unit
  unfolding call_process at_client on_accept
  run (process_changed name) =
      on_manager (call_process name (λ configs prog. Callbacks.process_changed k configs prog))
  run (timer_expired name) =
      on_manager (call_process name (λ configs prog. Callbacks.process_alarm k configs prog))
  run accept_client = on_accept
  run (client_read fd) = do
    received ← receiving fd
    file ← reading
    at_client fd (handle_read k split_shell file parse serialize (socket fd) received)
  run (client_write fd cmd) = do
    file ← reading
    at_client fd (handle_write k split_shell file parse serialize (socket fd) cmd)

  abbrev pub update : Main Unit
  update = on_manager (Manager.update_jobs k split_shell)

  abbrev pub drop_response : Main Response → Main Unit
  drop_response m = do r ← m; pure tt

  abbrev pub reload : Main Unit
  reload = do file ← reading; drop_response (on_manager (Manager.reload k split_shell file))

  -- The loop of `main`, with what `epoll_wait` gives and the signals that come in its rounds.
  unfoldable pub main_loop : List Round → Main Bool
  unfolding run
  main_loop = Loop.main_loop (λ (h : Hub). h.system) run update reload

  abbrev pub is_over : Option Job → Bool
  is_over none = true
  is_over (some j) = state_over j.state

  -- The loop of `~JobManager`, over the jobs and the waits to come: false when these are used up and a
  -- job is still waited for.
  unfoldable pub wait_jobs : List Text → List Waited → Main Bool
  unfolding run
  wait_jobs [] waits w = (returned true, w)
  wait_jobs (name ∷ names) [] w = elim (is_over (lookup name w.0.manager.jobs)) [
    | true ↦ wait_jobs names [] w
    | false ↦ (returned false, w)
  ]
  wait_jobs (name ∷ names) (wait ∷ waits) w = elim (is_over (lookup name w.0.manager.jobs)) [
    | true ↦ wait_jobs names (wait ∷ waits) w
    | false ↦
        (Loop.handle_events (λ (h : Hub). h.system) run wait >>= λ _.
        wait_jobs (name ∷ names) waits)
          w
  ]

  -- `~JobManager`
  unfoldable pub shut_down : List Waited → Main Bool
  unfolding wait_jobs
  shut_down waits =
      destructor (do on_manager (Manager.kill k); h ← this; wait_jobs (keys h.manager.jobs) waits)

  abbrev pub set_manager : Manager → Main Unit
  set_manager m w = (returned tt, (record w.0 { manager = m }, w.1))

  -- The ends of the scopes of `main`: `none` while the manager still waits for its jobs.
  abbrev pub unwind_manager : List Waited → ℕ → Main (Option ℕ)
  unwind_manager waits code = do done ← shut_down waits; pure (if done then some code else none)

  abbrev pub unwind : List Waited → ℕ → Main (Option ℕ)
  unwind waits code = do leave; unwind_manager waits code

  abbrev pub after_loop : List Waited → Bool → Main (Option ℕ)
  after_loop waits true = pure none
  after_loop waits false = unwind waits 0

  abbrev pub opened : List Round → List Waited → Bool → Main (Option ℕ)
  opened rounds last true = catch (main_loop rounds >>= after_loop last) (λ e. unwind last 1)
  opened rounds last false = unwind_manager last 1

  abbrev pub managed : Text → ℤ → List Round → List Waited → ConfigMap ⊎ Error → Main (Option ℕ)
  managed path backlog rounds last (inr e) = pure (some 1)
  managed path backlog rounds last (inl configs) = do
    set_manager (Manager.create split_shell configs)
    listening ← catch (do serve path backlog; pure true) (λ e. pure false)
    opened rounds last listening

  -- `main`, with the rounds of its loop, each with its signals, and what `epoll_wait` gives in those of the
  -- last destructor, where nothing reads `g_state`: the exit code, or `none` when these are used up before.
  unfoldable pub main : Text → ℤ → List Round → List Waited → Main (Option ℕ)
  unfolding serve main_loop leave shut_down
  main path backlog rounds last = reading >>= managed path backlog rounds last
