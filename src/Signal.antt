-- ===== src/Signal.antt =====
-- taskmasterd/include/jobs/Signal.hpp, src/jobs/Signal.cpp, include/core/Globals.hpp: the signals by
-- their Linux numbers, and what a signal does to the daemon.
use task_master.Base.{ℕ, if◌then◌else◌, nat_beq}
use task_master.Base.Text.{Text, codes}

pub data Signals : Type 0 where
  int term hup quit kill usr1 usr2 : Signals

-- `static_cast<i32>(signal)`
unfoldable pub number : Signals → ℕ
number int = 2
number term = 15
number hup = 1
number quit = 3
number kill = 9
number usr1 = 10
number usr2 = 12

-- `g_state`
pub data State : Type 0 where
  running reload terminated : State

unfoldable pub signal_handler : ℕ → State
signal_handler signum = if nat_beq signum 1 then reload else terminated

-- The names that `operator<<` prints; another value of the enumeration prints UNKNOWN SIGNAL.
unfoldable pub to_string : Signals → Text
to_string int = codes "SIGINT"
to_string term = codes "SIGTERM"
to_string hup = codes "SIGHUP"
to_string quit = codes "SIGQUIT"
to_string kill = codes "SIGKILL"
to_string usr1 = codes "SIGUSR1"
to_string usr2 = codes "SIGUSR2"
