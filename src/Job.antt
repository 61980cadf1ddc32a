-- ===== src/Job.antt =====
-- taskmasterd/include/jobs/Job.hpp and src/jobs/Job.cpp: a job and its processes.
pub mod Callbacks
pub mod Restarts
pub mod Restarting
pub mod Frame
pub mod Stopping
pub mod Crashes
pub mod Table
pub mod Columns
pub mod Words
pub mod Starting
pub mod Ending
pub mod Asking
pub mod Signalling
pub mod Destroying
use task_master.Base.{
  ℕ, zero, suc, ◌+◌, ◌/◌, ◌%◌, List, [], ◌∷◌, ◌++◌, map, Option, some, none, Bool, true, false,
  ◌||◌, ◌&&◌, if◌then◌else◌, ◌==◌, all,
}
use task_master.Base.Int.{ℤ, pos, int_key, pos_part}
use task_master.Base.Text.{Text, codes, to_decimal}
use task_master.Exec.{
  Exec, Outcome, pure, for_each, ◌>>=◌, ◌>>◌, returned, thrown, terminated, exited, replaced,
}
use task_master.Config.{JobConfig, EnvMap, ConfigMap}
use task_master.System.{System, Kernel}
use task_master.Process
use task_master.Process.{Process}
use task_master.Timer.{Method, this, update}
use Callbacks.{
  State, empty, starting, running, stopping, stopped, Seat, seated, in_seat, launch, deliver,
  manager_on_stop,
}

pub record Job : Type 0 where
  pub config : JobConfig
  pub arg_store : List Text
  pub env_store : List Text
  pub state : State
  pub pgid : ℤ
  pub processes : List Process

-- `split_shell` is libs/utils over `wordexp`, which is not part of the repository.
module _ (split_shell : Text → List Text) where
  parse_arguments : JobConfig → List Text
  parse_arguments config = split_shell config.cmd

  parse_environment : EnvMap → List Text
  parse_environment env = map (λ entry. entry.0 ++ codes "=" ++ entry.1) env

  unfoldable pub create : JobConfig → Job
  unfolding parse_arguments parse_environment
  create config = record {
    config = config;
    arg_store = parse_arguments config;
    env_store = parse_environment config.env;
    state = empty;
    pgid = pos 0;
    processes = [];
  }

abbrev pub program : Job → Callbacks.Program
program j = record { config = j.config; argv = j.arg_store; env = j.env_store }

abbrev set_state : State → Method Job Unit
set_state st = update (λ j. record j { state = st })

abbrev restartable : Process.State → Bool
restartable Process.State.stopped = true
restartable Process.State.exited = true
restartable Process.State.backoff = true
restartable _ = false

-- The destructor, of the processes of a job.
unfoldable pub destroy : Kernel → List Process → Exec System Unit
unfolding Process.destroy
destroy k [] = pure tt
destroy k (p ∷ ps) = do Process.destroy k p; destroy k ps

module _ (k : Kernel) where
  -- `emplace_back` and `proc->start`: the process stays in the job when its start throws.
  start_new : ℕ → Method Job Unit
  unfolding launch Process.create to_decimal
  start_new i s =
      let j = s.0 in
      let fresh = Process.create (j.config.name ++ codes "_" ++ to_decimal i) j.pgid in
      let (r, u) = launch k (program j) (fresh, s.1) in
      (r, (record j { processes = j.processes ++ u.0 ∷ [] }, u.1))

  -- The pid of the process that was started last.
  abbrev last_pid : List Process → ℤ
  last_pid [] = pos 0
  last_pid (p ∷ []) = p.pid
  last_pid (p ∷ q ∷ ps) = last_pid (q ∷ ps)

  set_group : Method Job Unit
  set_group = update (λ j. if j.pgid == pos 0 then record j { pgid = last_pid j.processes } else j)

  -- The loop of `startProcesses`, by the rounds that are left.
  start_loop : ℕ → ℕ → Method Job Unit
  unfolding start_new set_group
  start_loop zero i = pure tt
  start_loop (suc n) i = do start_new i; set_group; start_loop n (i + 1)

  start_processes : Method Job Unit
  unfolding start_loop
  start_processes = do j ← this; start_loop (pos_part j.config.numprocs) 0

  restart_one : Callbacks.Program → Method Process Unit
  unfolding launch Process.reset_restarts
  restart_one prog = do
    update Process.reset_restarts
    p ← this
    if restartable p.state then launch k prog else pure tt

  restart_processes : Method Job Unit
  unfolding for_each restart_one
  restart_processes s =
      let j = s.0 in
      let (r, u) = for_each (restart_one (program j)) j.processes s.1 in
      (r, (record j { processes = u.0 }, u.1))

  start_in : State → Method Job Unit
  unfolding start_processes restart_processes
  start_in stopping = restart_processes
  start_in stopped = restart_processes
  start_in empty = start_processes
  start_in _ = pure tt

  unfoldable pub start : Method Job Unit
  unfolding start_in
  start = do j ← this; start_in j.state; set_state starting

-- The rest of the stop loop after a round: a throw leaves the later processes as they are.
abbrev pub next_stop :
    Outcome (Unit {0}) × (Seat × System)
    → (Process → State → System → Outcome (Unit {0}) × ((State × List Process) × System))
    → Outcome (Unit {0}) × ((State × List Process) × System)
next_stop (returned _, (s, sys)) rest = rest s.proc s.state sys
next_stop (thrown e, (s, sys)) rest = (thrown e, ((s.state, seated s), sys))
next_stop (terminated, (s, sys)) rest = (terminated, ((s.state, seated s), sys))
next_stop (exited n, (s, sys)) rest = (exited n, ((s.state, seated s), sys))
next_stop (replaced, (s, sys)) rest = (replaced, ((s.state, seated s), sys))

module _ (k : Kernel) (configs : ConfigMap) where
  unfoldable pub stop_one : Callbacks.Program → Method Seat Unit
  unfolding deliver
  stop_one prog = do
    call ← in_seat (Process.stop k prog.config.stop_time prog.config.stop_signal)
    deliver k configs prog call

  unfoldable pub stop_loop :
      Callbacks.Program
      → List Process
      → List Process
      → State
      → System
      → Outcome (Unit {0}) × ((State × List Process) × System)
  stop_loop prog before [] st sys = (returned tt, ((st, before), sys))
  stop_loop prog before (p ∷ ps) st sys =
      next_stop (stop_one prog (record { state = st; before = before; proc = p; after = ps }, sys))
        (λ q. stop_loop prog (before ++ q ∷ []) ps)

  stop_processes : Method Job Unit
  stop_processes s =
      let j = s.0 in
      let (r, u) = stop_loop (program j) [] j.processes j.state s.1 in
      (r, (record j { state = u.0.0; processes = u.0.1 }, u.1))

  notify_manager : Method Job Unit
  unfolding manager_on_stop
  notify_manager = update (λ j. record j { state = manager_on_stop configs j.config j.state })

  stop_in : State → Method Job Unit
  unfolding stop_processes notify_manager
  stop_in stopping = pure tt
  stop_in empty = notify_manager
  stop_in stopped = notify_manager
  stop_in _ = do set_state stopping; stop_processes

  unfoldable pub stop : Method Job Unit
  unfolding stop_in
  stop = do j ← this; stop_in j.state
