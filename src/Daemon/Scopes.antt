-- ===== src/Daemon/Scopes.antt =====
-- What the constructors and destructors that `main` of taskmasterd/src/main.cpp runs keep.
use task_master.Base.{
  ℕ, List, [], ◌∷◌, Option, some, none, Bool, true, false, ◌⊎◌, inl, ◌≡◌, All, if◌then◌else◌, ◌==◌,
}
use task_master.Base.Int.{ℤ, int_key}
use task_master.Base.Text.{Text, text_key}
use task_master.Base.Assoc.{lookup}
use task_master.Exec.{
  Outcome, Error, destructor, handle, returned, thrown, terminated, exited, replaced, ◌>>=◌, ◌>>◌,
  pure,
}
use task_master.Exec.Keeps.{Keeps, bind-Keeps, then-Keeps, catch-Keeps, if-Keeps}
use task_master.Config.{ConfigMap}
use task_master.Daemon
use task_master.Daemon.{Hub, World, Main}
use task_master.Daemon.Named.{
  WorldNamed, on_manager-Named, or_close-Named, run-Named, main_loop-Named,
}
use task_master.Framing.Reader.{Received}
use task_master.Framing.Writer
use task_master.Job.{Job}
use task_master.Loop
use task_master.Loop.{Waited, Round}
use task_master.Loop.Keeping.{handle_events-Keeps}
use task_master.Manager
use task_master.Manager.{Manager, keys}
use task_master.Manager.Names.{IsNamed, kill-Named, start_all-Named}
use task_master.Proto.{Command}
use task_master.Response.{Response}
use task_master.Session.{Client}
use task_master.Socket
use task_master.System
use task_master.System.{
  System, Kernel, Syscall, register_event, unregister_event, close_fd, accept_client, minus_one,
}

destructor-Named : {A : Type 0} (m : Main A) → Keeps WorldNamed m → Keeps WorldNamed (destructor m)
destructor-Named {A} m km w h = go (m w) (km w h)
  where
    go : (r : Outcome A × World) → WorldNamed r.1 → WorldNamed (handle r (λ e t. (terminated, t))).1
    go (returned a, v) now = now
    go (thrown e, v) now = now
    go (terminated, v) now = now
    go (exited n, v) now = now
    go (replaced, v) now = now

either-Named :
    {A : Type 0} (b : Bool) (m n : Main A)
    → Keeps WorldNamed m
    → Keeps WorldNamed n
    → Keeps {A = A} WorldNamed (λ w. elim b [ true ↦ m w | false ↦ n w ])
either-Named true m n km kn = km
either-Named false m n km kn = kn

module _ (k : Kernel) (split_shell : Text → List Text)
    (read_file : List Syscall → ConfigMap ⊎ Error) (parse : Text → Option Command)
    (serialize : Response → Option Text) (socket : ℤ → Writer.Socket)
    (incoming : List Syscall → ℤ → Received) where
  abbrev this : Main Hub
  this = Daemon.this k split_shell read_file parse serialize socket incoming

  pub serve-Named :
      (path : Text) (backlog : ℤ)
      → Keeps WorldNamed
          (Daemon.serve k split_shell read_file parse serialize socket incoming path backlog)
  unfolding Daemon.serve
  serve-Named path backlog =
      let opens = λ (s : Socket.Socket).
        Daemon.on_system (Socket.bind k s path)
        >> (Daemon.on_system (Socket.listen k s backlog)
            >> (Daemon.on_system (register_event k s.fd (some accept_client) none)
                >> Daemon.on_manager (Manager.start_all k))) in
      let keep = λ (s : Socket.Socket).
        Daemon.set_listener k split_shell read_file parse serialize socket incoming s in
      let guarded = λ (s : Socket.Socket).
        Daemon.or_close k split_shell read_file parse serialize socket incoming s.fd (opens s) in
      bind-Keeps WorldNamed (Daemon.on_system (Socket.create k System.unix))
        (λ s. keep s >> guarded s) (λ w h. h)
        (λ s.
          then-Keeps WorldNamed (keep s) (guarded s) (λ w h. h)
            (or_close-Named k split_shell read_file parse serialize socket incoming s.fd (opens s)
              (opens-Named s)))
    where
      opens-Named :
          (s : Socket.Socket)
          → Keeps WorldNamed (
              Daemon.on_system (Socket.bind k s path)
              >> (Daemon.on_system (Socket.listen k s backlog)
                  >> (Daemon.on_system (register_event k s.fd (some accept_client) none)
                      >> Daemon.on_manager (Manager.start_all k))))
      opens-Named s =
          let starts = Daemon.on_manager (Manager.start_all k) in
          let registers = Daemon.on_system (register_event k s.fd (some accept_client) none) in
          let listens = Daemon.on_system (Socket.listen k s backlog) in
          then-Keeps WorldNamed (Daemon.on_system (Socket.bind k s path))
            (listens >> (registers >> starts)) (λ w h. h)
            (then-Keeps WorldNamed listens (registers >> starts) (λ w h. h)
              (then-Keeps WorldNamed registers starts (λ w h. h)
                (on_manager-Named (Manager.start_all k) (start_all-Named k))))

  leave_client-Named :
      (c : Client)
      → Keeps WorldNamed
          (Daemon.leave_client k split_shell read_file parse serialize socket incoming c)
  leave_client-Named c =
      let goes = destructor (Daemon.on_system (unregister_event k c.fd)) in
      let first = if c.fd == minus_one then pure tt else goes in
      then-Keeps WorldNamed first (Daemon.on_system (close_fd k c.fd))
        (if-Keeps WorldNamed (c.fd == minus_one) (pure tt) goes (λ w h. h)
          (destructor-Named (Daemon.on_system (unregister_event k c.fd)) (λ w h. h)))
        (λ w h. h)

  leave_clients-Named :
      (cs : List Client)
      → Keeps WorldNamed
          (Daemon.leave_clients k split_shell read_file parse serialize socket incoming cs)
  unfolding Daemon.leave_clients
  leave_clients-Named [] = λ w h. h
  leave_clients-Named (c ∷ cs) =
      then-Keeps WorldNamed
        (Daemon.leave_client k split_shell read_file parse serialize socket incoming c)
        (Daemon.leave_clients k split_shell read_file parse serialize socket incoming cs)
        (leave_client-Named c) (leave_clients-Named cs)

  leave-Named :
      Keeps WorldNamed (Daemon.leave k split_shell read_file parse serialize socket incoming)
  unfolding Daemon.leave
  leave-Named w =
      let fd = w.0.listener.fd in
      let goes = destructor (Daemon.on_system (unregister_event k fd)) in
      let all =
        Daemon.leave_clients k split_shell read_file parse serialize socket incoming w.0.clients in
      then-Keeps WorldNamed goes (all >> Daemon.on_system (close_fd k fd))
        (destructor-Named (Daemon.on_system (unregister_event k fd)) (λ v h. h))
        (then-Keeps WorldNamed all (Daemon.on_system (close_fd k fd))
          (leave_clients-Named w.0.clients) (λ v h. h))
        w

  module _
      (named : (trace : List Syscall) (configs : ConfigMap)
        → read_file trace ≡ inl configs
        → All (λ entry. entry.1.name ≡ entry.0) configs) where
    abbrev handle_events : Waited → Main Unit
    handle_events =
        Loop.handle_events (λ (h : Hub). h.system)
          (Daemon.run k split_shell read_file parse serialize socket incoming)

    abbrev is_over : Option Job → Bool
    is_over = Daemon.is_over k split_shell read_file parse serialize socket incoming

    handle_events-Named : (wait : Waited) → Keeps WorldNamed (handle_events wait)
    handle_events-Named =
        handle_events-Keeps (λ (h : Hub). h.system)
          (Daemon.run k split_shell read_file parse serialize socket incoming)
          (λ h. IsNamed h.manager)
          (run-Named k split_shell read_file parse serialize socket incoming named)

    wait_jobs-Named :
        (names : List Text) (waits : List Waited)
        → Keeps WorldNamed
            (Daemon.wait_jobs k split_shell read_file parse serialize socket incoming names waits)
    unfolding Daemon.wait_jobs
    wait_jobs-Named [] waits w h = h
    wait_jobs-Named (name ∷ names) [] w h =
        either-Named (is_over (lookup name w.0.manager.jobs))
          (Daemon.wait_jobs k split_shell read_file parse serialize socket incoming names [])
          (λ v. (returned false, v)) (wait_jobs-Named names []) (λ v g. g) w h
    wait_jobs-Named (name ∷ names) (wait ∷ waits) w h =
        let again =
          Daemon.wait_jobs k split_shell read_file parse serialize socket incoming (name ∷ names)
            waits in
        either-Named (is_over (lookup name w.0.manager.jobs))
          (Daemon.wait_jobs k split_shell read_file parse serialize socket incoming names
            (wait ∷ waits))
          (handle_events wait >>= λ _. again) (wait_jobs-Named names (wait ∷ waits))
          (then-Keeps WorldNamed (handle_events wait) again (handle_events-Named wait)
            (wait_jobs-Named (name ∷ names) waits))
          w h

    shut_down-Named :
        (waits : List Waited)
        → Keeps WorldNamed
            (Daemon.shut_down k split_shell read_file parse serialize socket incoming waits)
    unfolding Daemon.shut_down
    shut_down-Named waits =
        let kills = Daemon.on_manager (Manager.kill k) in
        let looks = λ (h : Hub).
          Daemon.wait_jobs k split_shell read_file parse serialize socket incoming
            (keys h.manager.jobs) waits in
        destructor-Named (kills >> (this >>= looks)) (
          then-Keeps WorldNamed kills (this >>= looks)
            (on_manager-Named (Manager.kill k) (kill-Named k))
            (bind-Keeps WorldNamed this looks (λ w h. h)
              (λ h. wait_jobs-Named (keys h.manager.jobs) waits)))

    unwind_manager-Named :
        (waits : List Waited) (code : ℕ)
        → Keeps WorldNamed (
            Daemon.unwind_manager k split_shell read_file parse serialize socket incoming waits
              code)
    unwind_manager-Named waits code =
        bind-Keeps WorldNamed
          (Daemon.shut_down k split_shell read_file parse serialize socket incoming waits)
          (λ done. pure (if done then some code else none)) (shut_down-Named waits) (λ d w h. h)

    unwind-Named :
        (waits : List Waited) (code : ℕ)
        → Keeps WorldNamed
            (Daemon.unwind k split_shell read_file parse serialize socket incoming waits code)
    unwind-Named waits code =
        then-Keeps WorldNamed (Daemon.leave k split_shell read_file parse serialize socket incoming)
          (Daemon.unwind_manager k split_shell read_file parse serialize socket incoming waits code)
          leave-Named (unwind_manager-Named waits code)

    pub opened-Named :
        (rounds : List Round) (last : List Waited) (b : Bool)
        → Keeps WorldNamed
            (Daemon.opened k split_shell read_file parse serialize socket incoming rounds last b)
    opened-Named rounds last false = unwind_manager-Named last 1
    opened-Named rounds last true =
        let loop =
          Daemon.main_loop k split_shell read_file parse serialize socket incoming rounds in
        let after =
          Daemon.after_loop k split_shell read_file parse serialize socket incoming last in
        catch-Keeps WorldNamed (loop >>= after)
          (λ e. Daemon.unwind k split_shell read_file parse serialize socket incoming last 1)
          (bind-Keeps WorldNamed loop after
            (main_loop-Named k split_shell read_file parse serialize socket incoming named rounds)
            after_loop-Named)
          (λ e. unwind-Named last 1)
      where
        after_loop-Named :
            (b : Bool)
            → Keeps WorldNamed
                (Daemon.after_loop k split_shell read_file parse serialize socket incoming last b)
        after_loop-Named true = λ w h. h
        after_loop-Named false = unwind-Named last 0
