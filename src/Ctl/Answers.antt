-- ===== src/Ctl/Answers.antt =====
-- What an answer of the daemon does to taskmasterctl (src/ipc/Client.cpp).
use task_master.Base.{ℕ, Option, some, none, Bool, true, false, ◌≡◌, refl, if◌then◌else◌}
use task_master.Base.Text.{Text}
use task_master.Ctl
use task_master.Ctl.{Reply, Ctl, Run, Round, respond, command_in, send_command, round, loop}
use task_master.Exec.{◌>>=◌, ◌>>◌, pure}
use task_master.Logger
use task_master.Logger.{Output}
use task_master.Proto.{
  CommandType, CommandStatus, terminate, ok, error, too_many_arguments, argument_error, type_error,
  start, stop, restart, reload, command_error, unnamed,
}
use task_master.Ctl.Talk.{verdict}
use task_master.Ctl.Reading.{Stays, then-Stays, writes-Stays, pure-Stays, unless_empty-Stays}

-- A round that ends by the verdict.
abbrev pub ends : Option ℕ → Round
ends none = Round.again
ends (some code) = Round.done code

abbrev pub accepts : CommandType → CommandStatus → Bool
accepts kind ok = Ctl.is_terminate kind
accepts kind _ = false

logs-Stays :
    (kind : Logger.LogType) (message : Text)
    → Stays false (Ctl.unless_empty message (Ctl.log_line kind message) >> pure false)
logs-Stays kind message =
    then-Stays false (Ctl.unless_empty message (Ctl.log_line kind message)) (pure false)
      (unless_empty-Stays message (Ctl.log_line kind message) (writes-Stays _)) (pure-Stays false)

pub concluded_lem :
    (m : Run Bool) (b : Bool)
    → Stays b m
    → Stays (if b then Round.done 0 else Round.again) (m >>= Ctl.concluded)
concluded_lem m false k s = let (t, e, l, p) = k s in rw e (t, refl, l, p)
concluded_lem m true k s =
    let (t, e, l, p) = k s in rw e (record t { exit_checker = true }, refl, l, p)

pub respond-Stays :
    (kind : CommandType) (status : CommandStatus) (message : Text)
    → Stays (accepts kind status) (respond kind (some status) message)
unfolding respond
respond-Stays kind ok message =
    then-Stays (Ctl.is_terminate kind) (Ctl.unless_empty message (Ctl.print message))
      (pure (Ctl.is_terminate kind))
      (unless_empty-Stays message (Ctl.print message) (writes-Stays _))
      (pure-Stays (Ctl.is_terminate kind))
respond-Stays kind error message = logs-Stays Logger.error message
respond-Stays kind type_error message = logs-Stays Logger.error message
respond-Stays kind too_many_arguments message = logs-Stays Logger.warning message
respond-Stays kind argument_error message = logs-Stays Logger.warning message

pub verdict-accepts :
    (status : CommandStatus) (kind : CommandType)
    → (if accepts kind status then Round.done 0 else Round.again)
      ≡ ends (verdict (some status) kind)
unfolding verdict
verdict-accepts ok terminate = refl
verdict-accepts ok start = refl
verdict-accepts ok stop = refl
verdict-accepts ok restart = refl
verdict-accepts ok CommandType.status = refl
verdict-accepts ok reload = refl
verdict-accepts ok command_error = refl
verdict-accepts ok (unnamed n) = refl
verdict-accepts error kind = refl
verdict-accepts type_error kind = refl
verdict-accepts too_many_arguments kind = refl
verdict-accepts argument_error kind = refl
