-- ===== src/Tests/Managers.antt =====
-- The theorems about taskmasterd/src/jobs/JobManager.cpp and src/ipc/Server.cpp, applied.
use task_master.Config.Settings.{settings, config_beq-settings}
use task_master.Base.{
  true, sym, ap, arith, List, [], ◌∷◌, some, none, ◌≡◌, refl, ◌≢◌, All, length, inl, ◌↔◌,
}
use task_master.Base.Text.{Text, text_key, codes, text_beq}
use task_master.Base.Assoc.{lookup}
use task_master.Exec.{returned}
use task_master.Config.{JobConfig, config_beq}
use task_master.Proto.{Command, start, stop, command_error, ok, argument_error}
use task_master.System.{exit_status, Kernel}
use task_master.Job
use task_master.Job.{Job}
use task_master.Job.Callbacks
use task_master.Job.Stopping.{IsStopping}
use task_master.Manager
use task_master.Manager.{Manager}
use task_master.Manager.Names.{IsNamed}
use task_master.Manager.Commands.{Tells, run_command_found}
use task_master.Manager.Reload.{only, reload_keeps_old}
use task_master.Response.{reload_started, put_in_stopping, provide_job}
use task_master.Server.{parse_command, on_command}
use task_master.Server.Replies.{
  on_command_refused, on_command-Answers, Answers, parse_command_iff, IsWellFormed,
}
use task_master.Tests.{calm, calm-IsWilling, quiet, web, web_job}
use task_master.Tests.Jobs.{web-IsLive}

abbrev k : Kernel
k = calm (exit_status 0)

abbrev split : Text → List Text
split text = text ∷ []

-- The same job with another command.
abbrev new_web : JobConfig
new_web = record web { cmd = codes "/bin/web -p 8080" }

reload_keeps_old_example :
    let r =
      Manager.reload k split
        (inl ((codes "web", new_web) ∷ []))
        (only (codes "web") web_job [], quiet) in
    (r.0 ≡ returned (record { status = ok; message = reload_started }))
    × ((j' : Job) × (r.1.0 ≡ only (codes "web") j' ((codes "web", new_web) ∷ []))
        × (j'.config ≡ web)
        × (j'.state ≡ Callbacks.State.starting)
        × All IsStopping j'.processes
        × (length j'.processes ≡ 2))
unfolding config_beq text_beq
reload_keeps_old_example =
    reload_keeps_old k (calm-IsWilling (exit_status 0)) split (codes "web") new_web web_job quiet []
      refl refl tt web-IsLive

abbrev one_job : Manager
one_job = only (codes "web") web_job ((codes "web", web) ∷ [])

run_command_found_example :
    let r = Job.stop k one_job.config (web_job, quiet) in
    let c = Manager.run_command (Job.stop k) put_in_stopping (codes "web") (one_job, quiet) in
    Tells (Job.stop k) (codes "web") one_job quiet put_in_stopping r.0 c.0
    × (lookup (codes "web") c.1.0.jobs ≡ some r.1.0)
    × (c.1.0.config ≡ one_job.config)
    × (c.1.1 ≡ r.1.1)
unfolding lookup text_beq
run_command_found_example =
    run_command_found (Job.stop k) (codes "web") one_job quiet put_in_stopping web_job (codes "web")
      refl

abbrev no_args : Command
no_args = record { kind = start; args = [] }

on_command_refused_example :
    (on_command k split (inl []) no_args (one_job, quiet) ≡ (
      returned (
        record no_args { kind = command_error },
        some (record { status = argument_error; message = provide_job start }),
      ),
      (one_job, quiet),
    ))
    × (argument_error ≢ ok)
unfolding parse_command
on_command_refused_example =
    on_command_refused k split (inl []) no_args
      (record { status = argument_error; message = provide_job start }) (one_job, quiet) refl

abbrev stop_web : Command
stop_web = record { kind = stop; args = codes "web" ∷ [] }

on_command-Answers_example :
    Answers k split (inl []) (on_command k split (inl []) stop_web (one_job, quiet)).0 stop_web
unfolding parse_command
on_command-Answers_example = on_command-Answers k split (inl []) stop_web (one_job, quiet) refl

parse_command_iff_example : (parse_command stop_web ≡ none) ↔ IsWellFormed stop (codes "web" ∷ [])
parse_command_iff_example = parse_command_iff stop_web

one_job-IsNamed : IsNamed one_job
one_job-IsNamed = record {
  jobs_named = (refl, tt);
  jobs_distinct = (tt, tt);
  config_named = (refl, tt);
}

-- The same variables in another order.
abbrev one_way : JobConfig
one_way = record web { env = (codes "TERMINAL", codes "1") ∷ (codes "LANG", codes "2") ∷ [] }

abbrev other_way : JobConfig
other_way = record web { env = (codes "LANG", codes "2") ∷ (codes "TERMINAL", codes "1") ∷ [] }

names_differ : codes "TERMINAL" ≡ codes "LANG" → ⊥
names_differ e = ground (arith, ap length e)

config_beq-settings_example :
    (config_beq one_way other_way ≡ true) ↔ (settings one_way ≡ settings other_way)
config_beq-settings_example =
    config_beq-settings one_way other_way ((λ e. names_differ (sym e), tt), (tt, tt))
      ((names_differ, tt), (tt, tt))
