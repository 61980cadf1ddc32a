-- ===== src/Server.antt =====
-- taskmasterd/src/ipc/Server.cpp: the check of a command's arguments, and its dispatch.
pub mod Replies
pub mod FromFile
use task_master.Base.{
  ℕ, zero, suc, List, [], ◌∷◌, Option, some, none, ◌||◌, if◌then◌else◌, ◌⊎◌, length, nat_beq, ltb,
}
use task_master.Base.Text.{Text}
use task_master.Exec.{pure, Error, ◌>>=◌, ◌>>◌}
use task_master.Config.{ConfigMap}
use task_master.Proto.{
  Command, CommandType, start, stop, restart, status, reload, terminate, command_error, unnamed,
  CommandStatus, ok, argument_error, too_many_arguments, type_error,
}
use task_master.System.{Kernel}
use task_master.Manager
use task_master.Manager.{Manager}
use task_master.Response.{
  Message, Response, provide_job, provide_single_job, provide_status, provided_whilst_terminate,
  provided_whilst_reload, not_supported, termination_started,
}
use task_master.Timer.{Method}

abbrev reject : CommandStatus → Message → Option Response
reject st message = some (record { status = st; message = message })

check_job_argument : CommandType → ℕ → Option Response
check_job_argument kind arg_size =
    if nat_beq arg_size 0
    then reject argument_error (provide_job kind)
    else (if ltb 1 arg_size then reject too_many_arguments (provide_single_job kind) else none)

check_no_argument : Message → ℕ → Option Response
check_no_argument message arg_size =
    if ltb 0 arg_size then reject too_many_arguments message else none

-- `parseCommand`: the error response, if the command is refused.
parse_kind : CommandType → ℕ → Option Response
unfolding check_job_argument check_no_argument
parse_kind start n = check_job_argument start n
parse_kind stop n = check_job_argument stop n
parse_kind restart n = check_job_argument restart n
parse_kind status n = if ltb 1 n then reject too_many_arguments provide_status else none
parse_kind terminate n = check_no_argument provided_whilst_terminate n
parse_kind reload n = check_no_argument provided_whilst_reload n
parse_kind command_error n = reject type_error (not_supported command_error)
parse_kind (unnamed c) n = reject type_error (not_supported (unnamed c))

unfoldable pub parse_command : Command → Option Response
unfolding parse_kind
parse_command cmd = parse_kind cmd.kind (length cmd.args)

module _ (k : Kernel) (split_shell : Text → List Text) (file : ConfigMap ⊎ Error) where
  abbrev answer : Method Manager Response → Method Manager (Option Response)
  answer m = do r ← m; pure (some r)

  -- The `switch` of `onCommand`. `none` stands for `std::unreachable()`, and for `args(0)` of a command
  -- without arguments.
  dispatch : CommandType → List Text → Method Manager (Option Response)
  dispatch start (name ∷ rest) = answer (Manager.start_job k name)
  dispatch stop (name ∷ rest) = answer (Manager.stop_job k name)
  dispatch restart (name ∷ rest) = answer (Manager.restart_job k name)
  dispatch status (name ∷ rest) = answer (Manager.status_job name)
  dispatch status [] = answer Manager.status_all
  dispatch reload args = answer (Manager.reload k split_shell file)
  dispatch terminate args = pure (some (record { status = ok; message = termination_started }))
  dispatch _ _ = pure none

  on_parsed : Command → Option Response → Method Manager (Command × Option Response)
  unfolding dispatch
  on_parsed cmd (some r) = pure (record cmd { kind = command_error }, some r)
  on_parsed cmd none = do r ← dispatch cmd.kind cmd.args; pure (cmd, r)

  -- `onCommand`: the response, and the command with the type that the caller sees afterwards.
  unfoldable pub on_command : Command → Method Manager (Command × Option Response)
  unfolding on_parsed parse_command
  on_command cmd = on_parsed cmd (parse_command cmd)
