-- ===== src/Daemon/Signals.antt =====
-- A signal and the loop of the daemon (taskmasterd/src/main.cpp, src/jobs/Signal.cpp).
use task_master.Base.{ℕ, List, [], ◌∷◌, ◌++◌, Option, ◌⊎◌, ◌≡◌, refl, Bool, false, nat_beq}
use task_master.Base.Int.{ℤ}
use task_master.Base.Text.{Text}
use task_master.Config.{ConfigMap}
use task_master.Daemon
use task_master.Daemon.{Hub, World}
use task_master.Exec.{Error, Outcome, Returns, returned}
use task_master.Framing.Reader.{Received}
use task_master.Framing.Writer
use task_master.Loop.{Round, Waited, turn}
use task_master.Loop.Turns.{main_loop_ends}
use task_master.Proto.{Command}
use task_master.Response.{Response}
use task_master.Signal
use task_master.System.{Kernel, Syscall}

module _ (k : Kernel) (split_shell : Text → List Text)
    (read_file : List Syscall → ConfigMap ⊎ Error) (parse : Text → Option Command)
    (serialize : Response → Option Text) (socket : ℤ → Writer.Socket)
    (incoming : List Syscall → ℤ → Received) where
  abbrev pub daemon_turn : Round → World → Outcome Bool × World
  daemon_turn =
      turn (λ (h : Hub). h.system)
        (Daemon.run k split_shell read_file parse serialize socket incoming)
        (Daemon.update k split_shell read_file parse serialize socket incoming)
        (Daemon.reload k split_shell read_file parse serialize socket incoming)

  -- A SIGINT or SIGQUIT (any signal but SIGHUP) that comes last among the signals during a round of RUNNING
  -- ends the loop of the daemon at the next `switch`, whatever the rounds to come would bring: the round
  -- returns, whatever its events and `update` do, and no other signal comes before the `switch`.
  pub main_loop_signalled :
      (wait next : Waited) (later ns : List ℕ) (n : ℕ) (rest : List Round) (h : Hub)
      → nat_beq n 1 ≡ false
      → let round : Round = record { before = []; wait = wait; during = ns ++ n ∷ [] } in
        let last : Round = record { before = []; wait = next; during = later } in
        let w : World = (h, Signal.State.running) in
        Returns (daemon_turn round w)
        → (e : Hub) × (Daemon.main_loop k split_shell read_file parse serialize socket incoming
              (round ∷ last ∷ rest)
              w
            ≡ (returned false, (e, Signal.State.terminated)))
  unfolding Daemon.main_loop
  main_loop_signalled wait next later ns n rest h other r =
      main_loop_ends (λ (h : Hub). h.system)
        (Daemon.run k split_shell read_file parse serialize socket incoming)
        (Daemon.update k split_shell read_file parse serialize socket incoming)
        (Daemon.reload k split_shell read_file parse serialize socket incoming) (λ s. refl) wait
        next later ns n rest h other r
