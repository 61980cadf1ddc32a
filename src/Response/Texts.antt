-- ===== src/Response/Texts.antt =====
-- The texts of the responses (taskmasterd/src/ipc/Server.cpp, src/jobs/JobManager.cpp). The texts of the
-- exceptions, which hold the ones of the system's errors, are a parameter.
use task_master.Base.{List, [], ◌∷◌, ◌++◌, Option, some, none, suc}
use task_master.Base.Int.{ℤ, pos, negsuc}
use task_master.Base.Text.{Text, codes, to_decimal}
use task_master.Exec.{Error}
use task_master.Job.{Job}
use task_master.Job.Table.{table}
use task_master.Proto.{
  CommandType, start, stop, restart, status, reload, terminate, command_error, unnamed,
}
use task_master.Response.{
  Message, put_in_starting, put_in_stopping, put_in_restarting, cannot_find, internal_error,
  reload_failed, reload_started, termination_started, job_tables, job_table, provide_job,
  provide_single_job, provide_status, provided_whilst_terminate, provided_whilst_reload,
  not_supported,
}

-- `commandTypeEnumToString`
unfoldable pub command_name : CommandType → Text
command_name start = codes "start"
command_name stop = codes "stop"
command_name restart = codes "restart"
command_name status = codes "status"
command_name reload = codes "reload"
command_name terminate = codes "terminate"
command_name command_error = codes "invalid"
command_name (unnamed n) = codes "invalid"

-- The number of a command type, and `std::to_string` of it.
type_number : CommandType → ℤ
type_number start = pos 0
type_number stop = pos 1
type_number restart = pos 2
type_number status = pos 3
type_number reload = pos 4
type_number terminate = pos 5
type_number command_error = pos 6
type_number (unnamed n) = n

int_text : ℤ → Text
unfolding to_decimal
int_text (pos n) = to_decimal n
int_text (negsuc n) = codes "-" ++ to_decimal (suc n)

-- A successful command on a job.
abbrev put_in : Text → Text → Text
put_in name state =
    codes "Successfully put job " ++ name ++ codes " in " ++ state ++ codes " state."

abbrev pub text_lines : List Text → Text
text_lines [] = []
text_lines (line ∷ rest) = line ++ codes "\n" ++ text_lines rest

abbrev pub joined : Option (List Text) → Option Text
joined none = none
joined (some lines) = some (text_lines lines)

-- What `operator<<` writes of a job.
unfoldable pub table_text : Job → Option Text
unfolding table
table_text j = joined (table j)

abbrev pub with_rest : Option Text → Option Text → Option Text
with_rest (some t) (some rest) = some (t ++ codes "\n" ++ rest)
with_rest (some t) none = none
with_rest none rest = none

-- The loop of `status()`.
unfoldable pub tables_text : List Job → Option Text
unfolding table_text
tables_text [] = some []
tables_text (j ∷ jobs) = with_rest (table_text j) (tables_text jobs)

-- The text of a response; `none` where a table is undefined behaviour.
unfoldable pub text : (Error → Text) → Message → Option Text
unfolding command_name type_number int_text tables_text
text what (put_in_starting name) = some (put_in name (codes "starting"))
text what (put_in_stopping name) = some (put_in name (codes "stopping"))
text what (put_in_restarting name) = some (put_in name (codes "restarting"))
text what (cannot_find name) =
    some (codes "Invalid argument: '" ++ name ++ codes "' cannot find job")
text what (internal_error e) = some (codes "Internal daemon error: " ++ what e)
text what (reload_failed e) =
    some (codes "Failed to reload new config: fallback to old config! Issue: " ++ what e)
text what reload_started = some (codes "Successfully started a reload of the config file")
text what termination_started = some (codes "Successfully started the termination sequence")
text what (job_tables jobs) = tables_text jobs
text what (job_table j) = table_text j
text what (provide_job kind) =
    some (codes "Please provide a job to " ++ command_name kind ++ codes ".")
text what (provide_single_job kind) =
    some (codes "Please provide one job to " ++ command_name kind ++ codes " at a time.")
text what provide_status = some (
    codes "Please provide one job to get the status from at a time.\n"
    ++ codes "If you wish to see all jobs, request 'status' with no arguments.")
text what provided_whilst_terminate =
    some (codes "You have given arguments for the 'terminate' command, did you mean to 'stop'?")
text what provided_whilst_reload = some (
    codes "You have given arguments for the 'reload' command\n"
    ++ codes "This command does not take a file path"
    ++ codes " but instead reloads the default config file."
    ++ codes " Please run the 'reload' command without arguments.")
text what (not_supported kind) =
    some (codes "Command type " ++ int_text (type_number kind) ++ codes " Not supported ")
