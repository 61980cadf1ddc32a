-- ===== src/Tests/Reloads.antt =====
-- A reload of taskmasterd/src/jobs/JobManager.cpp that changes a job, adds one and removes one.
use task_master.Base.{false, List, [], ◌∷◌}
use task_master.Base.Text.{Text, text_key, codes}
use task_master.Config.{JobConfig, ConfigMap}
use task_master.System.{exit_status, Kernel}
use task_master.Job.{Job}
use task_master.Job.Callbacks
use task_master.Manager
use task_master.Manager.{Manager}
use task_master.Tests.{calm, web, web_job}

abbrev k : Kernel
k = calm (exit_status 0)

abbrev split : Text → List Text
split text = text ∷ []

-- `web` with another command, and a new job.
abbrev new_web : JobConfig
new_web = record web { cmd = codes "/bin/web -p 8080" }

abbrev proxy : JobConfig
proxy = record web { name = codes "proxy"; autostart = false }

abbrev new_file : ConfigMap
new_file = (codes "web", new_web) ∷ (codes "proxy", proxy) ∷ []

-- The jobs have stopped; `mail` is not in the new file.
abbrev old_web : Job
old_web = record web_job { state = Callbacks.State.stopped }

abbrev mail : Job
mail = record web_job {
  config = record web { name = codes "mail" };
  state = Callbacks.State.empty;
  processes = [];
}

abbrev before : Manager
before = record { jobs = (codes "web", old_web) ∷ (codes "mail", mail) ∷ []; config = [] }
