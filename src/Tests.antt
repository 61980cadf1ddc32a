-- ===== src/Tests.antt =====
-- A daemon to try the model on: a kernel that refuses nothing, a job and its processes.
mod Processes
pub mod Jobs
mod Managers
mod Reloads
pub mod Messages
pub mod Files
pub mod Sessions
mod Rounds
mod Lines
pub mod Clients
pub mod Daemons
pub mod Descriptors
mod Exchanges
mod Endings
use task_master.Base.{ℕ, List, [], ◌∷◌, none, some, ◌≡◌, refl, true, false, Bool, arith, ◌==◌}
use task_master.Base.Int.{ℤ, pos, int_key}
use task_master.Base.Text.{Text, codes}
use task_master.Config.{JobConfig, ConfigMap, never, on_failure, RestartPolicy}
use task_master.Signal
use task_master.System.{
  System, Kernel, Syscall, fork, timerfd_create, timerfd_read, pidfd_open, Status, exit_status,
  killed_by, minus_one,
}
use task_master.Process
use task_master.Process.{Process}
use task_master.Process.Willing.{IsWilling}
use task_master.Timer
use task_master.Timer.{Timer, start_time}
use task_master.Job.{Job}
use task_master.Job.Callbacks
use task_master.Job.Callbacks.{Program, Seat}

abbrev pub calm_answer : Syscall → ℤ
calm_answer fork = pos 100
calm_answer timerfd_create = pos 5
calm_answer (timerfd_read fd) = pos 8
calm_answer (pidfd_open pid) = pos 6
calm_answer _ = pos 0

abbrev pub calm : Status → Kernel
calm st = record { answer = λ t c. calm_answer c; status = λ t. st }

pub calm_succeeds : (c : Syscall) → (calm_answer c == minus_one) ≡ false
calm_succeeds fork = refl
calm_succeeds _ = refl

pub calm-IsWilling : (st : Status) → IsWilling (calm st)
calm-IsWilling st = record {
  succeeds = λ t c. calm_succeeds c;
  forks_child = λ t. (99, refl);
  reads = λ t fd. refl;
}

abbrev pub quiet : System
quiet = record { trace = []; read_callbacks = []; write_callbacks = [] }

abbrev pub web : JobConfig
web = record {
  name = codes "web";
  cmd = codes "/bin/web -p 80";
  working_dir = codes ".";
  numprocs = pos 2;
  umask = 18;
  autostart = true;
  restart_policy = on_failure;
  exit_codes = pos 0 ∷ [];
  start_retries = pos 3;
  start_time = pos 1;
  stop_time = pos 10;
  stop_signal = Signal.Signals.term;
  out = none;
  err = none;
  env = [];
}

abbrev pub argv : List Text
argv = codes "/bin/web" ∷ codes "-p" ∷ codes "80" ∷ []

abbrev pub web_program : Program
web_program = record { config = web; argv = argv; env = [] }

abbrev pub proc_in : Process.State → Process
proc_in st = record {
  name = codes "web_0";
  pid = pos 41;
  pgid = pos 41;
  state = st;
  restarts = pos 0;
  fd = pos 9;
  timer = none;
}

abbrev pub seat_in : Callbacks.State → Process.State → Seat
seat_in job_state proc_state = record {
  state = job_state;
  before = [];
  proc = proc_in proc_state;
  after = proc_in Process.State.stopped ∷ [];
}

abbrev pub web_job : Job
web_job = record {
  config = web;
  arg_store = argv;
  env_store = [];
  state = Callbacks.State.running;
  pgid = pos 41;
  processes = proc_in Process.State.running ∷ proc_in Process.State.running ∷ [];
}
