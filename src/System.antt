-- ===== src/System.antt =====
-- The kernel's side of the daemon, and taskmasterd/src/core/EventManager.cpp: the table of callbacks
-- behind epoll. The kernel is a parameter: any function from the calls made so far and the next call
-- to its answer, which is -1 on failure.
use task_master.Base.{ℕ, List, ◌∷◌, Option, some, none, Bool, true, false, if◌then◌else◌, ◌==◌}
use task_master.Base.Int.{ℤ, negsuc, int_key}
use task_master.Base.Text.{Text}
use task_master.Base.Assoc.{insert, erase}
use task_master.Exec.{
  Exec, pure, throw, ◌>>=◌, ◌>>◌, returned, epoll_update_failed, epoll_remove_failed,
}
use task_master.Proto.{Command}

-- `Socket::Type`
pub data SocketType : Type 0 where
  tcp udp unix : SocketType

pub data Syscall : Type 0 where
  fork getgid getuid timerfd_create : Syscall
  setgid setuid setpgid : ℤ → Syscall
  open_file chdir : Text → Syscall
  dup2 : ℤ → ℤ → Syscall
  close : ℤ → Syscall
  set_umask : ℕ → Syscall
  execve : Text → List Text → List Text → Syscall
  pidfd_open waitpid timerfd_read : ℤ → Syscall
  pidfd_send_signal : ℤ → ℕ → Syscall
  timerfd_settime : ℤ → ℤ → Syscall
  epoll_add epoll_mod : ℤ → Bool → Bool → Syscall
  epoll_del : ℤ → Syscall
  open_socket : SocketType → Syscall
  set_reuse_address accept : ℤ → Syscall
  unlink : Text → Syscall
  bind connect : ℤ → Text → Syscall
  listen : ℤ → ℤ → Syscall

-- The status that `waitpid` writes, as its macros read it.
pub data Status : Type 0 where
  exit_status : ℕ → Status
  killed_by : ℕ → Status
  other_status : ℕ → Status

pub record Kernel : Type 0 where
  pub answer : List Syscall → Syscall → ℤ
  pub status : List Syscall → Status

-- A bound member function, by the object that it is bound to: a process (or the timer of one) by the
-- name of the process, a client by its descriptor.
pub data Callback : Type 0 where
  process_changed timer_expired : Text → Callback
  accept_client : Callback
  client_read : ℤ → Callback
  client_write : ℤ → Command → Callback

abbrev pub CallbackMap : Type 0
CallbackMap = List (ℤ × Option Callback)

-- `trace` holds the calls made, newest first.
pub record System : Type 0 where
  pub trace : List Syscall
  pub read_callbacks : CallbackMap
  pub write_callbacks : CallbackMap

abbrev pub minus_one : ℤ
minus_one = negsuc 0

abbrev pub is_some : Option Callback → Bool
is_some none = false
is_some (some c) = true

module _ (k : Kernel) where
  unfoldable pub invoke : Syscall → Exec System ℤ
  invoke c s = (returned (k.answer s.trace c), record s { trace = c ∷ s.trace })

  unfoldable pub store_callbacks : ℤ → Option Callback → Option Callback → Exec System Unit
  store_callbacks fd on_read on_write s = (
    returned tt,
    record s {
      read_callbacks = insert fd on_read s.read_callbacks;
      write_callbacks = insert fd on_write s.write_callbacks;
    },
  )

  unfoldable pub erase_callbacks : ℤ → Exec System Unit
  erase_callbacks fd s = (
    returned tt,
    record s {
      read_callbacks = erase fd s.read_callbacks;
      write_callbacks = erase fd s.write_callbacks;
    },
  )

  -- `updateEventInternal`, with the operation's call.
  unfoldable pub update_internal :
      (ℤ → Bool → Bool → Syscall) → ℤ → Option Callback → Option Callback → Exec System Unit
  unfolding invoke store_callbacks insert
  update_internal operation fd on_read on_write = do
    r ← invoke (operation fd (is_some on_read) (is_some on_write))
    if r == minus_one then throw epoll_update_failed else store_callbacks fd on_read on_write

  unfoldable pub register_event : ℤ → Option Callback → Option Callback → Exec System Unit
  unfolding update_internal
  register_event = update_internal epoll_add

  unfoldable pub update_event : ℤ → Option Callback → Option Callback → Exec System Unit
  unfolding update_internal
  update_event = update_internal epoll_mod

  unfoldable pub unregister_event : ℤ → Exec System Unit
  unfolding invoke erase_callbacks erase
  unregister_event fd = do
    r ← invoke (epoll_del fd)
    if r == minus_one then throw epoll_remove_failed else erase_callbacks fd

  -- libs/ipc/src/FileDescriptor.cpp: the destructor and `close`.
  unfoldable pub close_fd : ℤ → Exec System Unit
  unfolding invoke
  close_fd fd = if fd == minus_one then pure tt else (do invoke (close fd); pure tt)
