-- ===== src/Process.antt =====
-- taskmasterd/include/jobs/Process.hpp and src/jobs/Process.cpp. A method that ends in a call of a
-- method of the job returns that call, and the job makes it (Job.Callbacks).
pub mod Lifecycle
pub mod Frame
pub mod Willing
pub mod Launching
pub mod Ending
pub mod Asking
pub mod Events
use task_master.Base.{ℕ, List, Option, some, none, Bool, true, false, if◌then◌else◌, ◌==◌}
use task_master.Base.Int.{ℤ, pos, int_key, negsuc, increment}
use task_master.Base.Text.{Text}
use task_master.Exec.{
  Exec, pure, throw, exit, replace_image, catch, ◌>>=◌, ◌>>◌, returned, fork_failed, pidfd_failed,
  signal_failed, kill_failed, wait_failed, open_failed, dup_failed, working_dir_failed,
}
use task_master.Signal.{Signals}
use task_master.Signal
use task_master.Config.{JobConfig}
use task_master.System.{
  System, Kernel, Status, exit_status, killed_by, other_status, fork, getgid, getuid, setgid,
  setuid, setpgid, open_file, dup2, close, chdir, set_umask, execve, pidfd_open, waitpid,
  pidfd_send_signal, process_changed, minus_one, invoke, register_event, unregister_event, close_fd,
}
use task_master.Timer
use task_master.Timer.{Timer, Alarm, Method, system, this, update, start_time, stop_timeout}

pub data State : Type 0 where
  stopped starting running backoff stopping exited fatal unknown : State

pub record Process : Type 0 where
  pub name : Text
  pub pid : ℤ
  pub pgid : ℤ
  pub state : State
  pub restarts : ℤ
  pub fd : ℤ
  pub timer : Option Timer

-- The method of the job that a method of the process ends with.
pub data Call : Type 0 where
  no_call : Call
  on_exit : ℕ → Call
  on_stop : Call
  on_surpassed_start_time : Call

unfoldable pub create : Text → ℤ → Process
create name pgid = record {
  name = name;
  pid = minus_one;
  pgid = pgid;
  state = stopped;
  restarts = pos 0;
  fd = minus_one;
  timer = none;
}

unfoldable pub add_restart : Process → Process
unfolding increment
add_restart p = record p { restarts = increment p.restarts }

unfoldable pub reset_restarts : Process → Process
reset_restarts p = record p { restarts = pos 0 }

abbrev pub is_negative : ℤ → Bool
is_negative (pos n) = false
is_negative (negsuc n) = true

abbrev pub set_state : State → Method Process Unit
set_state st = update (λ p. record p { state = st })

module _ (k : Kernel) where
  abbrev pub destroy_timer : Option Timer → Exec System Unit
  destroy_timer none = pure tt
  destroy_timer (some t) = Timer.destroy k t

  -- `_timer.reset(next)`: the old timer dies when the new one is in place.
  unfoldable pub reset_timer : Option Timer → Method Process Unit
  unfolding Timer.destroy
  reset_timer next = do
    p ← this
    update (λ q. record q { timer = next })
    system (destroy_timer p.timer)

  -- `_timer.reset(new Timer(interval, …))`
  unfoldable pub replace_timer : ℤ → Alarm → Method Process Unit
  unfolding Timer.create reset_timer
  replace_timer interval alarm = do t ← system (Timer.create k interval alarm); reset_timer (some t)

  -- The destructor: the timer, then the pidfd of the base.
  unfoldable pub destroy : Process → Exec System Unit
  unfolding Timer.destroy close_fd
  destroy p = do destroy_timer p.timer; close_fd k p.fd

  abbrev put_timer : Process → Timer → Process
  put_timer p t = record p { timer = some t }

  abbrev with_timer : {A : Type 0} → A → Method Timer A → Option Timer → Method Process A
  with_timer a m none = pure a
  with_timer a m (some t) = λ s. let (r, u) = m (t, s.1) in (r, (put_timer s.0 u.0, u.1))

  -- `_timer->start()`
  unfoldable pub start_timer : Method Process Unit
  unfolding Timer.start
  start_timer = do p ← this; with_timer tt (Timer.start k p.name) p.timer

  dup_path : ℤ → Text → Exec System Unit
  unfolding invoke
  dup_path std path = do
    fd ← invoke k (open_file path)
    if is_negative fd then throw open_failed else (do
      r ← invoke k (dup2 fd std)
      if is_negative r
          then (do invoke k (close fd); throw dup_failed)
          else (do invoke k (close fd); pure tt))

  unfoldable pub redirect : ℤ → Option Text → Exec System Unit
  unfolding dup_path
  redirect std none = pure tt
  redirect std (some path) = dup_path std path

  -- `exit(-1)` leaves the status 255.
  abbrev exit_failure : ℕ
  exit_failure = 255

  unfoldable pub enter_directories : JobConfig → Exec System Unit
  unfolding invoke
  enter_directories config =
      catch
        (do
          redirect (pos 2) config.err
          redirect (pos 1) config.out
          r ← invoke k (chdir config.working_dir)
          if r == pos 0 then pure tt else throw working_dir_failed)
        (λ e. exit exit_failure)

  unfoldable pub run_image : Text → List Text → List Text → Exec System Unit
  unfolding invoke
  run_image path argv env = do
    r ← invoke k (execve path argv env)
    if r == minus_one then exit 1 else replace_image

  -- The branch `_pid == 0` of `start`.
  unfoldable pub child : ℤ → Text → List Text → List Text → JobConfig → Exec System Unit
  unfolding invoke
  child pgid path argv env config = do
    gid ← invoke k getgid
    g ← invoke k (setgid gid)
    if g == minus_one then exit exit_failure else (do
      uid ← invoke k getuid
      u ← invoke k (setuid uid)
      if u == minus_one then exit exit_failure else (do
        invoke k (setpgid pgid)
        enter_directories config
        invoke k (set_umask config.umask)
        run_image path argv env))

  -- The branch of the daemon.
  unfoldable pub parent : Method Process Unit
  unfolding invoke
  parent = do
    set_state starting
    start_timer
    p ← this
    fd ← system (invoke k (pidfd_open p.pid))
    update (λ q. record q { fd = fd })
    if fd == minus_one
        then throw (pidfd_failed p.name)
        else system (register_event k fd (some (process_changed p.name)) none)

  unfoldable pub start : Text → List Text → List Text → JobConfig → Method Process Unit
  unfolding invoke
  start path argv env config = do
    replace_timer config.start_time start_time
    pid ← system (invoke k fork)
    update (λ q. record q { pid = pid })
    p ← this
    if pid == minus_one
        then throw (fork_failed p.name)
        else (if pid == pos 0 then system (child p.pgid path argv env config) else parent)

  unfoldable pub kill : Method Process Unit
  unfolding invoke
  kill = do
    p ← this
    r ← system (invoke k (pidfd_send_signal p.fd 9))
    if r == minus_one then throw (kill_failed p.name) else set_state stopping

  abbrev ended_before_stop : State → Bool
  ended_before_stop backoff = true
  ended_before_stop exited = true
  ended_before_stop _ = false

  -- The part of `stop` for a process that is not known to have ended.
  unfoldable pub request_stop : ℤ → Signals → Method Process Call
  unfolding invoke Signal.number
  request_stop timeout stop_signal = do
    p ← this
    r ← system (invoke k (pidfd_send_signal p.fd (Signal.number stop_signal)))
    if r == minus_one
        then throw (signal_failed p.name)
        else (do set_state stopping; replace_timer timeout stop_timeout; start_timer; pure no_call)

  unfoldable pub stop : ℤ → Signals → Method Process Call
  unfolding request_stop
  stop timeout stop_signal = do
    p ← this
    if ended_before_stop p.state
        then (do set_state stopped; pure on_stop)
        else request_stop timeout stop_signal

  -- `onExit`, by the state that the process is in.
  on_exit_in : ℕ → State → Method Process Call
  on_exit_in code stopping = do set_state stopped; pure on_stop
  on_exit_in code starting = do set_state backoff; pure (on_exit code)
  on_exit_in code running = do set_state exited; pure (on_exit code)
  on_exit_in code _ = pure no_call

  on_forced_exit : Method Process Call
  on_forced_exit = do set_state stopped; pure on_stop

  on_status : Status → Method Process Call
  unfolding on_exit_in on_forced_exit
  on_status (exit_status code) = do p ← this; on_exit_in code p.state
  on_status (killed_by signum) = on_forced_exit
  on_status (other_status n) = do set_state unknown; pure no_call

  abbrev wait_status : Exec System Status
  wait_status s = (returned (k.status s.trace), s)

  unfoldable pub on_state_change : Method Process Call
  unfolding invoke on_status
  on_state_change = do
    p ← this
    r ← system (invoke k (waitpid p.pid))
    if r == minus_one then throw (wait_failed p.name) else (do
      status ← system wait_status
      reset_timer none
      system (unregister_event k p.fd)
      on_status status)

  abbrev is_stopping : State → Bool
  is_stopping stopping = true
  is_stopping _ = false

  on_start_time : Method Process Call
  on_start_time = do set_state running; pure on_surpassed_start_time

  -- The function that `stop` gives to its timer.
  on_stop_timeout : Method Process Call
  unfolding kill
  on_stop_timeout = do
    p ← this
    if is_stopping p.state then (do kill; pure no_call) else pure no_call

  sound : Alarm → Method Process Call
  unfolding on_start_time on_stop_timeout
  sound start_time = on_start_time
  sound stop_timeout = on_stop_timeout

  expire : Option Timer → Method Process Call
  unfolding Timer.on_expire sound
  expire none = pure no_call
  expire (some t) = do alarm ← with_timer start_time (Timer.on_expire k) (some t); sound alarm

  -- `Timer::onExpire` of the process's timer, and the callback that it ends with.
  unfoldable pub on_timer : Method Process Call
  unfolding expire
  on_timer = do p ← this; expire p.timer
