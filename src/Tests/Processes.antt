-- ===== src/Tests/Processes.antt =====
-- The theorems about taskmasterd/src/jobs/Process.cpp, applied.
use task_master.Base.{ℕ, suc, [], some, ◌≡◌, refl, arith}
use task_master.Base.Int.{pos, int_key}
use task_master.Base.Text.{codes}
use task_master.Exec.{Returns}
use task_master.System.{exit_status, process_changed}
use task_master.Process
use task_master.Process.{Process, starting, running}
use task_master.Process.Lifecycle.{IsCoherent, child-IsGone, IsGone}
use task_master.Process.Events.{Edge, starts, alarms, step, step-Edge, step-IsCoherent}
use task_master.Base.Assoc.{lookup}
use task_master.Process.Launching.{start_sets}
use task_master.Timer
use task_master.Timer.{Timer}
use task_master.Tests.{calm, calm-IsWilling, quiet, web, argv, proc_in}

abbrev start_clock : Timer
start_clock = record {
  fd = pos 5;
  interval = pos 1;
  state = Timer.State.running;
  alarm = Timer.Alarm.start_time;
}

-- A process whose start timer runs.
abbrev fresh_start : Process
fresh_start = record (proc_in starting) { timer = some start_clock }

step-Edge_example :
    Edge alarms starting (step (calm (exit_status 0)) alarms (fresh_start, quiet)).1.0.state
step-Edge_example = step-Edge (calm (exit_status 0)) alarms fresh_start quiet refl refl

surpass_test : (step (calm (exit_status 0)) alarms (fresh_start, quiet)).1.0.state ≡ running
unfolding step Process.on_timer
surpass_test = refl

start_sets_example :
    let r =
      Process.start (calm (exit_status 0)) (codes "/bin/web") argv [] web (fresh_start, quiet) in
    Returns r
    × (r.1.0.state ≡ starting)
    × ((n : ℕ) × (r.1.0.pid ≡ pos (suc n)))
    × ((t : Timer) × (r.1.0.timer ≡ some t)
        × (t.interval ≡ web.start_time)
        × (t.alarm ≡ Timer.Alarm.start_time)
        × (t.state ≡ Timer.State.running))
    × (lookup r.1.0.fd r.1.1.read_callbacks ≡ some (some (process_changed (codes "web_0"))))
start_sets_example =
    start_sets (calm (exit_status 0)) (calm-IsWilling (exit_status 0)) (codes "/bin/web") argv []
      web fresh_start quiet

step-IsCoherent_example :
    IsCoherent
      (step (calm (exit_status 0)) (starts (codes "/bin/web") argv [] web) (fresh_start, quiet)).1.0
unfolding step
step-IsCoherent_example =
    step-IsCoherent (calm (exit_status 0)) (starts (codes "/bin/web") argv [] web) fresh_start quiet
      refl (ground (arith, start_sets_example))

child-IsGone_example :
    IsGone (Process.child (calm (exit_status 0)) (pos 0) (codes "/bin/web") argv [] web quiet).0
child-IsGone_example =
    child-IsGone (calm (exit_status 0)) (pos 0) (codes "/bin/web") argv [] web quiet
