-- ===== src/Daemon/Whole.antt =====
-- The jobs stay under their names from the reading of the configuration file to the end of the daemon
-- (`main` of taskmasterd/src/main.cpp, the constructors and destructors that it runs).
use task_master.Base.{List, Option, Bool, true, false, ◌⊎◌, inl, inr, ◌≡◌, refl, All}
use task_master.Base.Int.{ℤ, int_key}
use task_master.Base.Text.{Text, text_key}
use task_master.Exec.{Error, catch, ◌>>◌, pure}
use task_master.Exec.Keeps.{Keeps, bind-Keeps, then-Keeps, catch-Keeps}
use task_master.Config.{ConfigMap}
use task_master.Daemon
use task_master.Daemon.{Hub, World, Main}
use task_master.Daemon.Named.{WorldNamed}
use task_master.Framing.Reader.{Received}
use task_master.Framing.Writer
use task_master.Loop.{Waited, Round}
use task_master.Manager
use task_master.Manager.{Manager, keys}
use task_master.Options.{Yaml}
use task_master.Options.File.{get_job_configs}
use task_master.Proto.{Command}
use task_master.Response.{Response}
use task_master.Server.FromFile.{loaded, create-IsNamed, loaded_success, loaded_named}
use task_master.System.{Kernel, Syscall}
use task_master.Daemon.Scopes.{serve-Named, opened-Named}

-- What `main` reads of its configuration file.
module _ {Node : Type 0} (yaml : Yaml Node) (exists : List Syscall → Text → Option Bool)
    (root : List Syscall → Option Node) where
  abbrev pub read_config : List Syscall → ConfigMap ⊎ Error
  read_config trace = loaded (get_job_configs yaml (exists trace) (root trace))

  -- If the jobs stand under their names before (there are none yet), they do so from the reading of the
  -- configuration file to the end, on every path through `main`, with whatever clients, signals in the
  -- rounds of the loop, and failing calls come: each job under the name of its configuration, and the names
  -- distinct.
  pub main-Named :
      (k : Kernel) (split_shell : Text → List Text) (parse : Text → Option Command)
      (serialize : Response → Option Text) (socket : ℤ → Writer.Socket)
      (incoming : List Syscall → ℤ → Received) (path : Text) (backlog : ℤ) (rounds : List Round)
      (last : List Waited)
      → Keeps WorldNamed (
          Daemon.main k split_shell read_config parse serialize socket incoming path backlog rounds
            last)
  unfolding Daemon.main
  main-Named k split_shell parse serialize socket incoming path backlog rounds last w h =
      managed-Named (read_config w.0.system.trace) refl
    where
      named :
          (trace : List Syscall) (configs : ConfigMap)
          → read_config trace ≡ inl configs
          → All (λ entry. entry.1.name ≡ entry.0) configs
      named trace = loaded_named split_shell yaml (exists trace) (root trace)

      managed-Named :
          (file : ConfigMap ⊎ Error)
          → read_config w.0.system.trace ≡ file
          → WorldNamed
              (Daemon.managed k split_shell read_config parse serialize socket incoming path backlog
                rounds last file w).1
      managed-Named (inr x) e = h
      managed-Named (inl configs) e =
          let serves =
            Daemon.serve k split_shell read_config parse serialize socket incoming path backlog in
          let opens =
            Daemon.opened k split_shell read_config parse serialize socket incoming rounds last in
          bind-Keeps WorldNamed (catch (serves >> pure true) (λ x. pure false)) opens
            (catch-Keeps WorldNamed (serves >> pure true) (λ x. pure false)
              (then-Keeps WorldNamed serves (pure true)
                (serve-Named k split_shell read_config parse serialize socket incoming path backlog)
                (λ v g. g))
              (λ x v g. g))
            (opened-Named k split_shell read_config parse serialize socket incoming named rounds
              last)
            (record w.0 { manager = Manager.create split_shell configs }, w.1)
            (create-IsNamed split_shell yaml (exists w.0.system.trace) (root w.0.system.trace)
              configs
              (loaded_success
                (get_job_configs yaml (exists w.0.system.trace) (root w.0.system.trace)) configs e))
