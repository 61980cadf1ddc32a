-- ===== src/Socket.antt =====
-- libs/ipc/src/Socket.cpp: a socket, over calls that may fail. A call names an address by its text.
pub mod Address
pub mod Bounds
pub mod Descriptor
pub mod Owners
use task_master.Base.{if◌then◌else◌, ◌==◌}
use task_master.Base.Int.{ℤ, pos, int_key}
use task_master.Base.Text.{Text}
use task_master.Exec.{
  Exec, pure, throw, ◌>>=◌, ◌>>◌, socket_failed, reuse_failed, bind_failed, listen_failed,
  connect_failed, accept_failed,
}
use task_master.System
use task_master.System.{System, Kernel, SocketType, tcp, udp, unix, minus_one, invoke}

pub record Socket : Type 0 where
  pub fd : ℤ
  pub kind : SocketType

module _ (k : Kernel) where
  -- `Socket(Type)`
  unfoldable pub create : SocketType → Exec System Socket
  unfolding invoke
  create kind = do
    fd ← invoke k (System.open_socket kind)
    if fd == minus_one then throw socket_failed else pure (record { fd = fd; kind = kind })

  abbrev unlink_first : SocketType → Text → Exec System Unit
  unlink_first unix path = do invoke k (System.unlink path); pure tt
  unlink_first _ path = pure tt

  unfoldable pub bind : Socket → Text → Exec System Unit
  unfolding invoke
  bind socket address = do
    r ← invoke k (System.set_reuse_address socket.fd)
    if r == pos 0
        then (do
          unlink_first socket.kind address
          b ← invoke k (System.bind socket.fd address)
          if b == minus_one then throw bind_failed else pure tt)
        else throw reuse_failed

  unfoldable pub listen : Socket → ℤ → Exec System Unit
  unfolding invoke
  listen socket backlog = do
    r ← invoke k (System.listen socket.fd backlog)
    if r == minus_one then throw listen_failed else pure tt

  unfoldable pub connect : Socket → Text → Exec System Unit
  unfolding invoke
  connect socket address = do
    r ← invoke k (System.connect socket.fd address)
    if r == minus_one then throw connect_failed else pure tt

  unfoldable pub accept : Socket → Exec System Socket
  unfolding invoke
  accept socket = do
    fd ← invoke k (System.accept socket.fd)
    if fd == minus_one then throw accept_failed else pure (record { fd = fd; kind = socket.kind })
