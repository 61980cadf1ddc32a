-- ===== src/Job/Callbacks.antt =====
-- The methods of taskmasterd/src/jobs/Job.cpp that a process calls, and `JobManager::onStop` that they
-- call. The reference to the process is its seat among the processes of the job.
use task_master.Base.{
  ℕ, List, [], ◌∷◌, ◌++◌, Option, some, none, Bool, true, false, not, if◌then◌else◌, ◌==◌, all, any,
}
use task_master.Base.Int.{ℤ, pos, int_key}
use task_master.Base.Text.{Text, text_key}
use task_master.Base.Assoc.{lookup}
use task_master.Exec.{pure, throw, ◌>>=◌, ◌>>◌, null_path}
use task_master.Config.{JobConfig, ConfigMap, config_beq, RestartPolicy, never, always, on_failure}
use task_master.System.{Kernel}
use task_master.Process
use task_master.Process.{
  Process, Call, no_call, on_exit, on_stop, on_surpassed_start_time, backoff, exited,
}
use task_master.Timer.{Method, this, update}

pub data State : Type 0 where
  empty starting running stopping stopped replaced removed : State

-- A process of a job, with the state of the job and the processes before and behind it.
pub record Seat : Type 0 where
  pub state : State
  pub before : List Process
  pub proc : Process
  pub after : List Process

abbrev pub seated : Seat → List Process
seated s = s.before ++ s.proc ∷ s.after

-- What a job is started with: `_config`, `_argv` and `_env`.
pub record Program : Type 0 where
  pub config : JobConfig
  pub argv : List Text
  pub env : List Text

-- Equality of process states, for `std::find`.
unfoldable pub state_beq : Process.State → Process.State → Bool
state_beq Process.State.stopped Process.State.stopped = true
state_beq Process.State.starting Process.State.starting = true
state_beq Process.State.running Process.State.running = true
state_beq Process.State.backoff Process.State.backoff = true
state_beq Process.State.stopping Process.State.stopping = true
state_beq Process.State.exited Process.State.exited = true
state_beq Process.State.fatal Process.State.fatal = true
state_beq Process.State.unknown Process.State.unknown = true
state_beq _ _ = false

unfoldable pub all_processes_in_states : List Process → List Process.State → Bool
unfolding state_beq
all_processes_in_states procs states = all (λ p. any (λ st. state_beq p.state st) states) procs

abbrev pub ended_states : List Process.State
ended_states = exited ∷ backoff ∷ Process.State.stopped ∷ []

abbrev pub contains_code : ℕ → List ℤ → Bool
contains_code code = any (λ c. c == pos code)

-- Run a method of the process where it sits.
abbrev pub in_seat : {A : Type 0} → Method Process A → Method Seat A
in_seat m s = let (r, u) = m (s.0.proc, s.1) in (r, (record s.0 { proc = u.0 }, u.1))

abbrev pub set_state : State → Method Seat Unit
set_state st = update (λ s. record s { state = st })

-- `JobManager::onStop`, for the job that the manager keeps under the name: the state that it leaves.
marked : ConfigMap → JobConfig → Option JobConfig → State → State
marked configs config none st = removed
marked configs config (some c) st = if not (config_beq c config) then replaced else st

unfoldable pub manager_on_stop : ConfigMap → JobConfig → State → State
unfolding marked lookup config_beq
manager_on_stop configs config st = marked configs config (lookup config.name configs) st

module _ (k : Kernel) where
  unfoldable pub launch_with : JobConfig → List Text → List Text → Method Process Unit
  launch_with config [] env = throw null_path
  launch_with config (path ∷ args) env = Process.start k path (path ∷ args) env config

  -- `proc->start(_argv[0], _argv.data(), _env.data(), _config)`. A command without words has a null
  -- `_argv[0]`, from which no `std::string` can be made.
  unfoldable pub launch : Program → Method Process Unit
  unfolding launch_with
  launch prog = launch_with prog.config prog.argv prog.env

module _ (k : Kernel) (configs : ConfigMap) (prog : Program) where
  on_stop_in : State → Method Seat Unit
  unfolding manager_on_stop
  on_stop_in starting = in_seat (launch k prog)
  on_stop_in stopping = do
    s ← this
    if not (all_processes_in_states (seated s) (Process.State.stopped ∷ [])) then pure tt else (do
      set_state stopped
      update (λ t. record t { state = manager_on_stop configs prog.config t.state }))
  on_stop_in _ = pure tt

  -- `Job::onStop`
  unfoldable pub on_stop_call : Method Seat Unit
  unfolding on_stop_in
  on_stop_call = do s ← this; on_stop_in s.state

  -- The end of `Job::onExit`.
  settle : Method Seat Unit
  settle = do
    s ← this
    if all_processes_in_states (seated s) ended_states then set_state stopped else pure tt

  restart_process : Method Seat Unit
  restart_process = do set_state starting; in_seat (launch k prog)

  count_restart : Method Seat Unit
  unfolding Process.add_restart
  count_restart = in_seat (update Process.add_restart)

  -- The `switch` on the restart policy.
  apply_policy : ℕ → RestartPolicy → Method Seat Unit
  unfolding settle restart_process count_restart
  apply_policy code never = settle
  apply_policy code always = do count_restart; restart_process
  apply_policy code on_failure = do
    count_restart
    if contains_code code prog.config.exit_codes then settle else restart_process

  -- `Job::onExit`
  unfoldable pub on_exit_call : ℕ → Method Seat Unit
  unfolding settle apply_policy
  on_exit_call code = do
    s ← this
    if s.proc.restarts == prog.config.start_retries
        then settle
        else apply_policy code prog.config.restart_policy

  -- `Job::onProcessSurpassedStartTime`
  unfoldable pub on_surpassed_call : Method Seat Unit
  on_surpassed_call = do
    s ← this
    if all_processes_in_states (seated s) (Process.State.running ∷ [])
        then set_state running
        else pure tt

  -- The call of the job that a method of the process ends with.
  unfoldable pub deliver : Call → Method Seat Unit
  unfolding on_stop_call on_exit_call on_surpassed_call
  deliver no_call = pure tt
  deliver (on_exit code) = on_exit_call code
  deliver on_stop = on_stop_call
  deliver on_surpassed_start_time = on_surpassed_call

  -- The pidfd of the process is readable: the process has ended.
  unfoldable pub process_changed : Method Seat Unit
  unfolding deliver
  process_changed = do call ← in_seat (Process.on_state_change k); deliver call

  -- The timer of the process has run out.
  unfoldable pub process_alarm : Method Seat Unit
  unfolding deliver
  process_alarm = do call ← in_seat (Process.on_timer k); deliver call
