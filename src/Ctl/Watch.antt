-- ===== src/Ctl/Watch.antt =====
-- The thread of taskmasterctl that watches the socket (src/ipc/CheckSocketState.cpp).
use task_master.Base.{List, [], ◌∷◌, Bool, true, false, any}

-- What `epoll_wait` gives: for each event, whether it is a hangup.
pub data Waited : Type 0 where
  ready : List Bool → Waited
  interrupted refused : Waited

-- One round of the loop; `g_exitChecker`, which the main thread sets, at the test of the loop and at the
-- one before `raise`.
pub record Moment : Type 0 where
  pub exiting : Bool
  pub wait : Waited
  pub exiting_then : Bool

-- What the thread does: it goes on, returns, returns after `raise(SIGINT)`, or throws, which ends the
-- program.
pub data Watched : Type 0 where
  watching left raised threw : Watched

abbrev raise_unless : Bool → Watched
raise_unless true = left
raise_unless false = raised

abbrev after_wait : Waited → Bool → Watched → Watched
after_wait (ready events) exiting rest = elim (any (λ hangup. hangup) events) [
  | true ↦ raise_unless exiting
  | false ↦ rest
]
after_wait interrupted exiting rest = left
after_wait refused exiting rest = threw

unfoldable pub watch : List Moment → Watched
watch [] = watching
watch (m ∷ moments) =
    let rest = watch moments in
    elim m.exiting [ true ↦ left | false ↦ after_wait m.wait m.exiting_then rest ]

-- `checkSocketState`, by whether `epoll_create1` and `epoll_ctl` succeed.
unfoldable pub check_socket_state : Bool → Bool → List Moment → Watched
unfolding watch
check_socket_state false added moments = threw
check_socket_state true false moments = threw
check_socket_state true true moments = watch moments
