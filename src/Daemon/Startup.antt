-- ===== src/Daemon/Startup.antt =====
-- The start of the daemon (Server::Server, taskmasterd/src/ipc/Server.cpp), and a job that cannot be started.
use task_master.Base.{
  if◌then◌else◌, Bool-cases, inl, inr, ℕ, suc, List, [], ◌∷◌, Option, some, none, true, false, ◌≡◌,
  refl, sym, subst, ap, ◌∙◌, ◌⊎◌, ◌==◌,
}
use task_master.Base.Int.{ℤ, pos, int_key}
use task_master.Base.Text.{Text, text_key}
use task_master.Base.Assoc.{lookup}
use task_master.Config.{ConfigMap}
use task_master.Daemon
use task_master.Daemon.{Hub, World}
use task_master.Exec.{Error, pure, Exec, returned, thrown, null_path}
use task_master.Framing.Reader.{Received}
use task_master.Framing.Writer
use task_master.Job
use task_master.Job.{Job}
use task_master.Job.Callbacks
use task_master.Job.Words.{start_no_words}
use task_master.Manager
use task_master.Manager.{Manager}
use task_master.Manager.Commands.{at_job_found}
use task_master.Process.Frame.{forks}
use task_master.Process.Willing.{IsWilling}
use task_master.Proto.{Command}
use task_master.Response.{Response}
use task_master.Socket
use task_master.Timer.{Method}
use task_master.System
use task_master.System.{
  minus_one, System, Kernel, Syscall, register_event, close_fd, accept_client, set_reuse_address,
}

-- The first job, which is to be started with the daemon and whose command has no words.
pub record IsUnsplit (m : Manager) (name : Text) (j : Job) (rest : List (Text × Job)) : Type 0 where
  pub first : m.jobs ≡ (name, j) ∷ rest
  pub empty : j.state ≡ Callbacks.State.empty
  pub autostarts : j.config.autostart ≡ true
  pub no_words : j.arg_store ≡ []
  pub processes : (n : ℕ) × (j.config.numprocs ≡ pos (suc n))

-- A throw ends the loop over the names.
for_names_throws :
    (f : Text → Method Manager Unit) (ns : List Text) (name : Text) (names : List Text)
    (s t : Manager × System) (x : Error)
    → ns ≡ name ∷ names
    → f name s ≡ (thrown x, t)
    → Manager.for_names f ns s ≡ (thrown x, t)
unfolding Manager.for_names
for_names_throws f ns name names s t x e q =
    subst (λ l. Manager.for_names f l s ≡ (thrown x, t)) (sym e) (rw q refl)

module _ (k : Kernel) where
  start_all-IsUnsplit :
      (m : Manager) (sys : System) (name : Text) (j : Job) (rest : List (Text × Job))
      → IsUnsplit m name j rest
      → (m' : Manager) × (Manager.start_all k (m, sys) ≡ (thrown null_path, (m', sys)))
  unfolding Manager.start_all Manager.for_names lookup
  start_all-IsUnsplit m sys name j rest h =
      let (j', e) = start_no_words k j sys h.processes.0 h.empty h.no_words h.processes.1 in
      let own : (name == name) ≡ true = (text_key.same_iff name name).1 refl in
      let found : lookup name m.jobs ≡ some j = rw (h.first, own) refl in
      let auto : Manager.autostart k m.config (j, sys) ≡ (thrown null_path, (j', sys)) =
        ap (λ b. (if b then Job.start k else pure tt) (j, sys)) h.autostarts ∙ e in
      let at =
        at_job_found (Manager.autostart k) name m sys j found
        ∙ ap (λ r. (r.0, (Manager.put_job name m r.1.0, r.1.1))) auto in
      (
        Manager.put_job name m j',
        for_names_throws (λ key. Manager.at_job key (Manager.autostart k)) (Manager.keys m.jobs)
            name (Manager.keys rest) (m, sys) (Manager.put_job name m j', sys) null_path
            (ap Manager.keys h.first) at,
      )

  -- It returns, and forks nothing.
  abbrev Opens : {A : Type 0} → Exec System A → Type 0
  Opens {A} m =
      (sys : System)
      → (a : A) × (t : System) × (m sys ≡ (returned a, t)) × (forks t.trace ≡ forks sys.trace)

  module _ (willing : IsWilling k)
      (reuses : (t : List Syscall) (fd : ℤ) → k.answer t (set_reuse_address fd) ≡ pos 0) where
    create-Opens :
        (sys : System)
        → (fd : ℤ) × (t : System) × (Socket.create k System.unix sys
            ≡ (returned (record { fd = fd; kind = System.unix }), t))
          × (forks t.trace ≡ forks sys.trace)
    unfolding Socket.create System.invoke
    create-Opens sys =
        rw (willing.succeeds sys.trace (System.open_socket System.unix)) (_, _, refl, refl)

    bind-Opens :
        (s : Socket.Socket) (path : Text) → s.kind ≡ System.unix → Opens (Socket.bind k s path)
    unfolding Socket.bind System.invoke
    bind-Opens s path kind sys =
        rw
          (
            reuses sys.trace s.fd,
            kind,
            willing.succeeds (System.unlink path ∷ set_reuse_address s.fd ∷ sys.trace)
                (System.bind s.fd path),
          )
          (_, _, refl, refl)

    listen-Opens : (s : Socket.Socket) (backlog : ℤ) → Opens (Socket.listen k s backlog)
    unfolding Socket.listen System.invoke
    listen-Opens s backlog sys =
        rw (willing.succeeds sys.trace (System.listen s.fd backlog)) (_, _, refl, refl)

    register-Opens : (fd : ℤ) → Opens (register_event k fd (some accept_client) none)
    unfolding register_event System.update_internal System.invoke System.store_callbacks
    register-Opens fd sys =
        rw (willing.succeeds sys.trace (System.epoll_add fd true false)) (_, _, refl, refl)

    close-Opens : (fd : ℤ) → Opens (close_fd k fd)
    unfolding close_fd System.invoke
    close-Opens fd sys = elim (Bool-cases (fd == minus_one)) [
      | inl e ↦ rw e (_, sys, refl, refl)
      | inr e ↦ rw e (_, _, refl, refl)
    ]

    -- If the first job is to be started with the daemon, has a process, and its command has no words, the
    -- constructor of the server throws, whatever the other jobs are, and nothing has been forked. The
    -- kernel refuses no call.
    pub serve-IsUnsplit :
        (split_shell : Text → List Text) (read_file : List Syscall → ConfigMap ⊎ Error)
        (parse : Text → Option Command) (serialize : Response → Option Text)
        (socket : ℤ → Writer.Socket) (incoming : List Syscall → ℤ → Received) (path : Text)
        (backlog : ℤ) (w : World) (name : Text) (j : Job) (rest : List (Text × Job))
        → IsUnsplit w.0.manager name j rest
        → let r =
            Daemon.serve k split_shell read_file parse serialize socket incoming path backlog w in
          (r.0 ≡ thrown null_path) × (forks r.1.0.system.trace ≡ forks w.0.system.trace)
    unfolding Daemon.serve
    serve-IsUnsplit split_shell read_file parse serialize socket incoming path backlog w name j rest
          h =
        let (fd, s1, e1, f1) = create-Opens w.0.system in
        let listener : Socket.Socket = record { fd = fd; kind = System.unix } in
        let (a2, s2, e2, f2) = bind-Opens listener path refl s1 in
        let (a3, s3, e3, f3) = listen-Opens listener backlog s2 in
        let (a4, s4, e4, f4) = register-Opens fd s3 in
        let (m', e5) = start_all-IsUnsplit w.0.manager s4 name j rest h in
        let (a6, s6, e6, f6) = close-Opens fd s4 in
        rw (e1, e2, e3, e4, e5, e6) (refl, f6 ∙ f4 ∙ f3 ∙ f2 ∙ f1)
