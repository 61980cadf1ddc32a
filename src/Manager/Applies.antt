-- ===== src/Manager/Applies.antt =====
-- A reload of the configuration file (JobManager::reload, taskmasterd/src/jobs/JobManager.cpp), all of its
-- loops.
use task_master.Base.Text.{Text, text_key}
use task_master.System.{System}
use task_master.Job.{Job}
use task_master.Manager
use task_master.Manager.{Manager}
