-- ===== src/Daemon/Named.antt =====
-- Which job sits under which name, through every event of the daemon (taskmasterd/src/main.cpp).
use task_master.Base.{List, [], ◌∷◌, ◌++◌, Option, some, none, ◌⊎◌, inl, ◌≡◌, All}
use task_master.Base.Int.{ℤ, int_key}
use task_master.Base.Text.{Text}
use task_master.Exec.{Error, ◌>>=◌, ◌>>◌, pure, throw}
use task_master.Exec.Keeps.{Keeps, bind-Keeps, then-Keeps, catch-Keeps}
use task_master.Config.{ConfigMap}
use task_master.Daemon
use task_master.Daemon.{Hub, World, Main, Place, SeatMethod}
use task_master.Framing.Reader.{Received}
use task_master.Framing.Writer
use task_master.Job.Callbacks
use task_master.Loop.{Round}
use task_master.Manager
use task_master.Manager.{Manager}
use task_master.Manager.Names
use task_master.Manager.Names.{
  IsNamed, Named, KeepsConfig, at_job-Named, update_jobs-Named, kill-Named, start_all-Named,
}
use task_master.Process.{Process}
use task_master.Proto.{Command}
use task_master.Response.{Response}
use task_master.Session.{Client, Session, handle_read, handle_write}
use task_master.Session.Named.{SessionNamed, handle_read-Named, handle_write-Named}
use task_master.Socket
use task_master.Loop.Keeping.{main_loop-Keeps}
use task_master.System.{
  Kernel, Syscall, Callback, close_fd, process_changed, timer_expired, accept_client, client_read,
  client_write,
}
use task_master.Timer.{Method}

abbrev pub WorldNamed : World → Type 0
WorldNamed w = IsNamed w.0.manager

-- A callback of a process leaves the configuration of its job alone.
at_process-KeepsConfig : (name : Text) (f : SeatMethod) → KeepsConfig (Daemon.at_process name f)
unfolding Daemon.at_process
at_process-KeepsConfig name f configs c s h = go (Daemon.locate name s.0.processes)
  where
    go : (o : Option (Place Process)) → (Daemon.run_found f configs o s).1.0.config ≡ c
    go none = h
    go (some place) = h

call_process-Named : (name : Text) (f : SeatMethod) → Keeps Named (Daemon.call_process name f)
unfolding Daemon.call_process
call_process-Named name f s h = go (Daemon.holder name s.0.jobs)
  where
    go : (o : Option Text) → Named (Daemon.at_holder name f o s).1
    go none = h
    go (some key) = at_job-Named key (Daemon.at_process name f) (at_process-KeepsConfig name f) s h

pub on_manager-Named :
    {A : Type 0} (m : Method Manager A) → Keeps Named m → Keeps WorldNamed (Daemon.on_manager m)
on_manager-Named m km w h = km (w.0.manager, w.0.system) h

at_client-Named :
    (fd : ℤ) (m : Session Unit) → Keeps SessionNamed m → Keeps WorldNamed (Daemon.at_client fd m)
unfolding Daemon.at_client
at_client-Named fd m km w h = go (Daemon.find_client fd w.0.clients)
  where
    go : (o : Option (Place Client)) → WorldNamed (Daemon.session_run m o w).1
    go none = h
    go (some (before, c, after)) =
        km (c, record { manager = w.0.manager; system = w.0.system; state = w.1 }) h

module _ (k : Kernel) (split_shell : Text → List Text)
    (read_file : List Syscall → ConfigMap ⊎ Error) (parse : Text → Option Command)
    (serialize : Response → Option Text) (socket : ℤ → Writer.Socket)
    (incoming : List Syscall → ℤ → Received) where
  pub or_close-Named :
      (fd : ℤ) (m : Main Unit)
      → Keeps WorldNamed m
      → Keeps WorldNamed
          (Daemon.or_close k split_shell read_file parse serialize socket incoming fd m)
  or_close-Named fd m km =
      let closes = λ (e : Error). Daemon.on_system (close_fd k fd) >> throw e in
      catch-Keeps WorldNamed m closes km (λ e.
        then-Keeps WorldNamed (Daemon.on_system (close_fd k fd)) (throw e) (λ w h. h) (λ w h. h))

  pub reading-Named :
      (f : ConfigMap ⊎ Error → Main Unit)
      → ((trace : List Syscall) → Keeps WorldNamed (f (read_file trace)))
      → Keeps WorldNamed
          (Daemon.reading k split_shell read_file parse serialize socket incoming >>= f)
  reading-Named f kf w h = kf w.0.system.trace w h

module _ (k : Kernel) (split_shell : Text → List Text)
    (read_file : List Syscall → ConfigMap ⊎ Error) (parse : Text → Option Command)
    (serialize : Response → Option Text) (socket : ℤ → Writer.Socket)
    (incoming : List Syscall → ℤ → Received)
    (named : (trace : List Syscall) (configs : ConfigMap)
      → read_file trace ≡ inl configs
      → All (λ entry. entry.1.name ≡ entry.0) configs) where
  abbrev this : Main Hub
  this = Daemon.this k split_shell read_file parse serialize socket incoming

  abbrev update_clients : (List Client → List Client) → Main Unit
  update_clients = Daemon.update_clients k split_shell read_file parse serialize socket incoming

  abbrev new_client : ℤ → Client
  new_client = Daemon.new_client k split_shell read_file parse serialize socket incoming

  abbrev register_client : ℤ → Main Unit
  register_client = Daemon.register_client k split_shell read_file parse serialize socket incoming

  on_accept-Named :
      Keeps WorldNamed (Daemon.on_accept k split_shell read_file parse serialize socket incoming)
  unfolding Daemon.on_accept
  on_accept-Named w =
      let add = λ (s : Socket.Socket). update_clients (λ cs. cs ++ new_client s.fd ∷ []) in
      let registered = λ (s : Socket.Socket).
        Daemon.or_close k split_shell read_file parse serialize socket incoming s.fd
          (register_client s.fd) in
      let drop = update_clients Daemon.connected in
      bind-Keeps WorldNamed (Daemon.on_system (Socket.accept k w.0.listener))
        (λ s. registered s >> (add s >> drop)) (λ v h. h)
        (λ s.
          then-Keeps WorldNamed (registered s) (add s >> drop)
            (or_close-Named k split_shell read_file parse serialize socket incoming s.fd
              (register_client s.fd) (λ v h. h))
            (then-Keeps WorldNamed (add s) drop (λ v h. h) (λ v h. h)))
        w

  pub run-Named :
      (cb : Callback)
      → Keeps WorldNamed (Daemon.run k split_shell read_file parse serialize socket incoming cb)
  unfolding Daemon.run
  run-Named (process_changed name) =
      let f : SeatMethod = λ configs prog. Callbacks.process_changed k configs prog in
      on_manager-Named (Daemon.call_process name f) (call_process-Named name f)
  run-Named (timer_expired name) =
      let f : SeatMethod = λ configs prog. Callbacks.process_alarm k configs prog in
      on_manager-Named (Daemon.call_process name f) (call_process-Named name f)
  run-Named accept_client = on_accept-Named
  run-Named (client_read fd) = λ w.
      let received = incoming w.0.system.trace fd in
      let reads = λ (file : ConfigMap ⊎ Error).
        handle_read k split_shell file parse serialize (socket fd) received in
      reading-Named k split_shell read_file parse serialize socket incoming
        (λ file. Daemon.at_client fd (reads file))
        (λ trace. at_client-Named fd (reads (read_file trace)) (
          handle_read-Named k split_shell (read_file trace) parse serialize (socket fd)
            (named trace) received))
        w
  run-Named (client_write fd cmd) =
      let writes = λ (file : ConfigMap ⊎ Error).
        handle_write k split_shell file parse serialize (socket fd) cmd in
      reading-Named k split_shell read_file parse serialize socket incoming
        (λ file. Daemon.at_client fd (writes file))
        (λ trace.
          at_client-Named fd (writes (read_file trace))
            (handle_write-Named k split_shell (read_file trace) parse serialize (socket fd) cmd))

  update-Named :
      Keeps WorldNamed (Daemon.update k split_shell read_file parse serialize socket incoming)
  update-Named =
      on_manager-Named (Manager.update_jobs k split_shell) (update_jobs-Named k split_shell)

  reload-Named :
      Keeps WorldNamed (Daemon.reload k split_shell read_file parse serialize socket incoming)
  reload-Named =
      let again =
        λ (file : ConfigMap ⊎ Error). Daemon.on_manager (Manager.reload k split_shell file) in
      reading-Named k split_shell read_file parse serialize socket incoming
        (λ file.
          Daemon.drop_response k split_shell read_file parse serialize socket incoming (again file))
        (λ trace.
          then-Keeps WorldNamed (again (read_file trace)) (pure tt)
            (on_manager-Named (Manager.reload k split_shell (read_file trace))
              (Names.reload-Named k split_shell (read_file trace) (named trace)))
            (λ w h. h))

  pub main_loop-Named :
      (rounds : List Round)
      → Keeps WorldNamed
          (Daemon.main_loop k split_shell read_file parse serialize socket incoming rounds)
  unfolding Daemon.main_loop
  main_loop-Named =
      main_loop-Keeps (λ (h : Hub). h.system)
        (Daemon.run k split_shell read_file parse serialize socket incoming)
        (λ h. IsNamed h.manager) run-Named
        (Daemon.update k split_shell read_file parse serialize socket incoming)
        (Daemon.reload k split_shell read_file parse serialize socket incoming) update-Named
        reload-Named
