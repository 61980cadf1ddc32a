-- ===== src/Timer.antt =====
-- taskmasterd/src/core/Timer.cpp: a timerfd with a callback. A method runs on the timer and the
-- system; the callbacks of the two timers of a process are named, and run by the process.
use task_master.Base.{some, none, if◌then◌else◌, ◌==◌}
use task_master.Base.Int.{ℤ, int_key}
use task_master.Base.Text.{Text}
use task_master.Exec.{
  Exec, pure, throw, within, destructor, ◌>>=◌, ◌>>◌, returned, timer_create_failed,
  timer_set_failed, timer_read_failed,
}
use task_master.System.{
  System, Kernel, timerfd_create, timerfd_settime, timerfd_read, timer_expired, minus_one, invoke,
  register_event, unregister_event, close_fd,
}

pub data State : Type 0 where
  stopped running : State

-- What the timer calls: `Process::onStartTime`, or the function that `Process::stop` hands over.
pub data Alarm : Type 0 where
  start_time stop_timeout : Alarm

pub record Timer : Type 0 where
  pub fd : ℤ
  pub interval : ℤ
  pub state : State
  pub alarm : Alarm

-- A method of an object: it runs on the object and the system.
abbrev pub Method : Type 0 → Type 0 → Type 0
Method P A = Exec (P × System) A

abbrev pub system : {P A : Type 0} → Exec System A → Method P A
system = within (λ s. s.1) (λ s sys. (s.0, sys))

abbrev pub this : {P : Type 0} → Method P P
this s = (returned s.0, s)

abbrev pub update : {P : Type 0} → (P → P) → Method P Unit
update f s = (returned tt, (f s.0, s.1))

module _ (k : Kernel) where
  unfoldable pub create : ℤ → Alarm → Exec System Timer
  unfolding invoke
  create interval alarm = do
    fd ← invoke k timerfd_create
    if fd == minus_one
        then throw timer_create_failed
        else pure (record { fd = fd; interval = interval; state = stopped; alarm = alarm })

  abbrev unregister_running : State → ℤ → Exec System Unit
  unregister_running running fd = unregister_event k fd
  unregister_running stopped fd = pure tt

  unfoldable pub destroy : Timer → Exec System Unit
  unfolding unregister_event close_fd
  destroy t = do destructor (unregister_running t.state t.fd); close_fd k t.fd

  -- `owner` is the process that the registered callback leads to.
  unfoldable pub start : Text → Method Timer Unit
  unfolding invoke register_event
  start owner = do
    t ← this
    r ← system (invoke k (timerfd_settime t.fd t.interval))
    if r == minus_one then throw timer_set_failed else (do
      system (register_event k t.fd (some (timer_expired owner)) none)
      update (λ u. record u { state = running }))

  -- Returns the callback, which the source calls last.
  unfoldable pub on_expire : Method Timer Alarm
  unfolding invoke unregister_event
  on_expire = do
    update (λ u. record u { state = stopped })
    t ← this
    -- the kernel answers with the number of bytes, 8 on success
    r ← system (invoke k (timerfd_read t.fd))
    if r == ℤ.pos 8
        then (do system (unregister_event k t.fd); pure t.alarm)
        else throw timer_read_failed
