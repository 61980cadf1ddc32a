-- ===== src/Response.antt =====
-- The responses of taskmasterd (`proto::CommandResponse`), with a constructor for each message; its text
-- is a function of it in Response/Texts.antt.
pub mod Texts
use task_master.Base.{List}
use task_master.Base.Text.{Text}
use task_master.Exec.{Error}
use task_master.Proto.{CommandStatus, CommandType}
use task_master.Job.{Job}

pub data Message : Type 0 where
  put_in_starting put_in_stopping put_in_restarting cannot_find : Text → Message
  internal_error reload_failed : Error → Message
  reload_started termination_started : Message
  job_tables : List Job → Message
  job_table : Job → Message
  provide_job provide_single_job : CommandType → Message
  provide_status provided_whilst_terminate provided_whilst_reload : Message
  not_supported : CommandType → Message

pub record Response : Type 0 where
  pub status : CommandStatus
  pub message : Message
