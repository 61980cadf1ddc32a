-- ===== src/Tests/Rounds.antt =====
-- The theorems about taskmasterd/src/main.cpp, applied.
use task_master.Base.{ℕ, List, [], ◌∷◌, some}
use task_master.Base.Int.{pos, int_key}
use task_master.Exec.{Exec, throw, returned, recv_failed}
use task_master.Signal
use task_master.System.{System, Callback, accept_client, client_read}
use task_master.Loop.{Round, interrupted}
use task_master.Tests.{quiet}

-- The listening socket, and a client.
abbrev watched : System
watched = record quiet {
  read_callbacks = (pos 3, some accept_client) ∷ (pos 7, some (client_read (pos 7))) ∷ [];
}

abbrev same : System → System
same sys = sys

-- A client asks for the end; the server cannot accept.
abbrev run : Callback → Exec (System × Signal.State) Unit
run (client_read fd) s = (returned tt, (s.0, Signal.State.terminated))
run _ s = throw recv_failed s

abbrev idle : Exec (System × Signal.State) Unit
idle s = (returned tt, s)

-- SIGHUP and SIGINT.
abbrev both : List ℕ
both = 1 ∷ 2 ∷ []

abbrev hangup : Round
hangup = record { before = 1 ∷ []; wait = interrupted; during = both }
