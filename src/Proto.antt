-- ===== src/Proto.antt =====
-- libs/ipc/proto/taskmaster.proto. Editions enums are open: a peer may send a number without a name.
use task_master.Base.{List}
use task_master.Base.Int.{ℤ}
use task_master.Base.Text.{Text}

pub data CommandType : Type 0 where
  start stop restart status reload terminate command_error : CommandType
  unnamed : ℤ → CommandType

pub record Command : Type 0 where
  pub kind : CommandType
  pub args : List Text

pub data CommandStatus : Type 0 where
  ok error too_many_arguments argument_error type_error : CommandStatus
