-- ===== src/Job/Words.antt =====
-- A job whose command has no words (taskmasterd/src/jobs/Job.cpp), as `wordexp` leaves it when it refuses the
-- command.
use task_master.Base.{ℕ, suc, List, [], Option, none, ◌≡◌, refl}
use task_master.Base.Text.{Text}
use task_master.Config.{JobConfig}
use task_master.Utils.{split_shell}
use task_master.Base.Int.{pos}
use task_master.Exec.{thrown, null_path}
use task_master.Job
use task_master.Job.{Job}
use task_master.Job.Callbacks
use task_master.System.{System, Kernel}

-- Its start throws before any call of the system.
pub start_no_words :
    (k : Kernel) (j : Job) (sys : System) (n : ℕ)
    → j.state ≡ Callbacks.State.empty
    → j.arg_store ≡ []
    → j.config.numprocs ≡ pos (suc n)
    → (j' : Job) × (Job.start k (j, sys) ≡ (thrown null_path, (j', sys)))
unfolding Job.start Callbacks.launch Callbacks.launch_with
start_no_words k j sys n st words count = rw (st, count, words) (_, refl)

-- A job is made without words of a command that `wordexp` refuses.
pub create-split_shell :
    (wordexp : Text → Option (List Text)) (config : JobConfig)
    → wordexp config.cmd ≡ none
    → (Job.create (split_shell wordexp) config).arg_store ≡ []
unfolding Job.create split_shell
create-split_shell wordexp config e = rw e refl
