-- ===== src/Ctl.antt =====
-- taskmasterctl (src/main.cpp, src/cli/UserInput.cpp, src/ipc/Client.cpp): what the user types is sent to the
-- daemon, command by command, and its answers are shown.
pub mod Completion
pub mod Completing
pub mod Talk
pub mod Reading
pub mod Answers
pub mod Dialogue
pub mod Shown
pub mod Watch
use task_master.Base.{
  ℕ, zero, suc, ◌+◌, List, [], ◌∷◌, ◌++◌, map, Option, some, none, Bool, true, false, ◌⊎◌, inl, inr,
  length, if◌then◌else◌, nat_beq,
}
use task_master.Base.Text.{Text, codes}
use task_master.Cli.{get_token, to_lower, parse_input}
use task_master.Exec.{
  Exec, Outcome, Error, pure, throw, exit, catch, within, returned, exited, ◌>>=◌, ◌>>◌,
  daemon_missing, invalid_status,
}
use task_master.Framing.Reader
use task_master.Framing.Reader.{fresh}
use task_master.Framing.Writer
use task_master.Framing.Writer.{idle, init}
use task_master.Logger
use task_master.Logger.{Output, LogType, LogInterface, log, terminal}
use task_master.Proto.{
  Command, CommandType, CommandStatus, terminate, ok, error, too_many_arguments, argument_error,
  type_error,
}
use task_master.Socket
use task_master.Socket.Address
use task_master.System
use task_master.System.{System, Kernel, close_fd}

-- A response; its status is `none` for a number that has no name.
pub record Reply : Type 0 where
  pub status : Option CommandStatus
  pub message : Text

-- `lines` is what the user will type until the end of the input, `sent` what the socket has taken, `output`
-- what was printed and logged, in this order.
pub record Ctl : Type 0 where
  pub lines : List Text
  pub history : List Text
  pub output : List Output
  pub sent : Text
  pub system : System
  pub exit_checker : Bool

abbrev pub Run : Type 0 → Type 0
Run A = Exec Ctl A

-- `Logger::LogInterface::Initialize(PROGRAM_NAME, Logger::LogLevel::Debug, true)`
abbrev logger : LogInterface
logger = record { log_level = Logger.everything; enable_logging_stdout = true }

abbrev pub write_out : List Output → Run Unit
write_out out s = (returned tt, record s { output = s.output ++ out })

abbrev pub log_line : LogType → Text → Run Unit
log_line kind text = write_out (log logger text kind)

-- `std::cout << text << std::endl`
abbrev pub print : Text → Run Unit
print text = write_out (terminal (text ++ codes "\n") ∷ [])

abbrev pub unless_empty : Text → Run Unit → Run Unit
unless_empty [] m = pure tt
unless_empty (b ∷ text) m = m

abbrev pub is_terminate : CommandType → Bool
is_terminate terminate = true
is_terminate _ = false

-- The switch of `awaitDaemonResponse`: true to exit.
unfoldable pub respond : CommandType → Option CommandStatus → Text → Run Bool
unfolding log
respond kind (some ok) message = do unless_empty message (print message); pure (is_terminate kind)
respond kind (some error) message = do
  unless_empty message (log_line Logger.error message)
  pure false
respond kind (some type_error) message = do
  unless_empty message (log_line Logger.error message)
  pure false
respond kind (some too_many_arguments) message = do
  unless_empty message (log_line Logger.warning message)
  pure false
respond kind (some argument_error) message = do
  unless_empty message (log_line Logger.warning message)
  pure false
respond kind none message = throw invalid_status

-- The log lines of `parseInput`.
abbrev pub first_word : Text → Text
first_word line = to_lower (get_token line).0

abbrev pub log_args : List Text → Run Unit
log_args [] = pure tt
log_args (arg ∷ args) = do log_line Logger.debug (arg ++ codes ": Added as argument"); log_args args

unfoldable pub log_parsed : Text → Option Command → Run Unit
unfolding log
log_parsed line none = log_line Logger.warning (
    codes "Invalid command: "
    ++ first_word line
    ++ codes " - Valid commands: start, stop, restart, status, reload, terminate")
log_parsed line (some cmd) = do
  log_line Logger.debug (first_word line ++ codes ": Added as command type")
  log_args cmd.args

-- The line leaves the input; `add_history` keeps it if it is not empty.
abbrev pub remember : Text → List Text → List Text
remember [] history = history
remember (b ∷ line) history = (b ∷ line) ∷ history

abbrev pub typed : Text → List Text → Ctl → Ctl
typed line rest s = record s { lines = rest; history = remember line s.history }

abbrev pub or_ask_again : Run Command → Option Command → Run Command
or_ask_again again none = again
or_ask_again again (some cmd) = pure cmd

-- `getCommandFromUser`, over the lines to come: at their end `getUserInput` leaves the program.
unfoldable pub command_in : List Text → Run Command
unfolding log_parsed
command_in [] s = exit 0 s
command_in (line ∷ rest) s =
    (log_parsed line (parse_input line) >> or_ask_again (command_in rest) (parse_input line))
      (typed line rest s)

abbrev pub get_command_from_user : Run Command
get_command_from_user s = command_in s.lines s

abbrev pub on_writer : {A : Type 0} → Exec (Writer.Writer × Text) A → Run A
on_writer = within (λ s. (idle, s.sent)) (λ s w. record s { sent = w.1 })

abbrev pub on_system : {A : Type 0} → Exec System A → Run A
on_system = within (λ s. s.system) (λ s sys. record s { system = sys })

-- What a round of the loop of `main` comes to: another one, an exit code, or waiting for the socket.
pub data Round : Type 0 where
  again waiting : Round
  done : ℕ → Round

abbrev pub set_exit_checker : Run Unit
set_exit_checker s = (returned tt, record s { exit_checker = true })

abbrev pub concluded : Bool → Run Round
concluded true = do set_exit_checker; pure (done 0)
concluded false = pure again

-- The generated codec, the socket, the pieces of the response that come when so much has been sent, and the
-- texts of the exceptions.
module _ (serialize : Command → Option Text) (socket : Writer.Socket) (parse : Text → Option Reply)
    (pieces : Text → List Text) (what : Error → Text) where
  abbrev pub log_sent : Bool → Run Bool
  log_sent true = do
    log_line Logger.debug (codes "Successfully sent the command to the daemon")
    pure true
  log_sent false = pure false

  abbrev pub size : Option Text → ℕ
  size none = 0
  size (some text) = length text

  -- `sendCommandToDaemon`; false when the socket has not taken all after a call for each byte and one.
  unfoldable pub send_command : Command → Run Bool
  unfolding init log
  send_command cmd =
      on_writer (init (serialize cmd) >> Writer.send_all socket (suc (size (serialize cmd))))
      >>= log_sent

  abbrev pub receive : Run (Option Reply)
  receive s = let (r, reader) = Reader.await parse (pieces s.sent) fresh in (r, s)

  abbrev pub answered : Command → Option Reply → Run Round
  answered cmd none = pure waiting
  answered cmd (some reply) = respond cmd.kind reply.status reply.message >>= concluded

  abbrev pub ask : Command → Bool → Run Round
  ask cmd false = pure waiting
  ask cmd true = receive >>= answered cmd

  -- The handler of the loop.
  abbrev pub failing : Error → Run Round
  failing e = do set_exit_checker; log_line Logger.error (what e); pure (done 1)

  unfoldable pub round : Run Round
  unfolding command_in send_command respond log
  round = catch (get_command_from_user >>= λ cmd. send_command cmd >>= ask cmd) failing

  abbrev pub then_round : Run (Option ℕ) → Round → Run (Option ℕ)
  then_round rest again = rest
  then_round rest waiting = pure none
  then_round rest (done code) = pure (some code)

  -- The loop of `main`; `none` when it waits for the socket, or the fuel is out.
  unfoldable pub loop : ℕ → Run (Option ℕ)
  unfolding round
  loop zero = pure none
  loop (suc fuel) = round >>= then_round (loop fuel)

  module _ (k : Kernel) (inet_pton : Address.Family → Text → Option Text) where
    abbrev path : Text
    path = codes "/tmp/taskmasterd.sock"

    abbrev or_throw_address : Address.Address ⊎ Error → Exec System Address.Address
    or_throw_address (inl address) = pure address
    or_throw_address (inr e) = throw e

    -- `connectToDaemon`
    unfoldable pub connect_to_daemon : Exec System Socket.Socket
    connect_to_daemon = do
      address ← or_throw_address (Address.create inet_pton Address.unix path 0)
      s ← Socket.create k System.unix
      catch (Socket.connect k s address.address) (λ e. do close_fd k s.fd; throw daemon_missing)
      pure s

    abbrev leave_socket : Socket.Socket → Option ℕ → Run (Option ℕ)
    leave_socket s none = pure none
    leave_socket s (some code) = do on_system (close_fd k s.fd); pure (some code)

    -- `main`, without the thread that watches the socket.
    unfoldable pub main : ℕ → Run (Option ℕ)
    unfolding connect_to_daemon loop log
    main fuel =
        catch (do s ← on_system connect_to_daemon; loop fuel >>= leave_socket s)
          (λ e. do log_line Logger.error (what e); pure (some 1))
