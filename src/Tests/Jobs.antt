-- ===== src/Tests/Jobs.antt =====
-- The theorems about taskmasterd/src/jobs/Job.cpp, applied.
use task_master.Job.Table.{table}
use task_master.Job.Columns.{AllFit, Lines, table-Lines}
use task_master.Base.{
  ◌⊎◌, none, ◌+◌, ◌≤◌, [], ◌∷◌, ◌≡◌, refl, ◌≢◌, All, length, arith, if◌then◌else◌, nat_beq,
}
use task_master.Base.Int.{pos}
use task_master.Base.Text.{codes}
use task_master.Exec.{Returns, ◌>>◌}
use task_master.System.{exit_status, killed_by}
use task_master.Process
use task_master.Process.Frame.{forks}
use task_master.Job
use task_master.Job.Callbacks
use task_master.Job.Callbacks.{Seat, seated, process_changed, manager_on_stop}
use task_master.Job.Restarts.{Within, run_exits, run_exits_bounded}
use task_master.Job.Crashes.{crash_rounds, crash_rounds_unbounded}
use task_master.Signal
use task_master.Job.Signalling.{signals, to_each, stop_sends}
use task_master.Job.Stopping.{pending, process_changed_stopping, IsStopping, IsLive}
use task_master.Job.Restarting.{stop-start_up}
use task_master.Tests.{calm, calm-IsWilling, quiet, web, web_program, seat_in, web_job}

abbrev failing : Seat
failing = seat_in Callbacks.State.running Process.State.exited

run_exits_bounded_example :
    let r =
      run_exits (calm (exit_status 1)) [] web_program 3 (1 ∷ 1 ∷ 0 ∷ 2 ∷ []) (failing, quiet) in
    Within 3 r.0.proc.restarts × (forks r.1.trace ≤ 3)
run_exits_bounded_example =
    run_exits_bounded (calm (exit_status 1)) [] web_program 3 (1 ∷ 1 ∷ 0 ∷ 2 ∷ []) failing quiet
      refl (omega arith) (omega arith)

abbrev doomed : Seat
doomed = seat_in Callbacks.State.starting Process.State.starting

crash_rounds_unbounded_example :
    let r = crash_rounds (calm (killed_by 11)) [] web_program 50 (doomed, quiet) in
    (r.0.state ≡ Callbacks.State.starting) × (r.0.proc.restarts ≡ pos 0) × (forks r.1.trace ≡ 50)
crash_rounds_unbounded_example =
    crash_rounds_unbounded (calm (killed_by 11)) (calm-IsWilling (killed_by 11)) web_program
      (codes "/bin/web") (codes "-p" ∷ codes "80" ∷ []) [] 11 50 doomed quiet refl (λ t. refl) refl

abbrev ending : Seat
ending = seat_in Callbacks.State.stopping Process.State.stopping

process_changed_stopping_example :
    let r = process_changed (calm (exit_status 0)) [] web_program (ending, quiet) in
    Returns r
    × (pending (seated r.1.0) + 1 ≡ 1)
    × (r.1.0.state ≡ (
        if nat_beq (pending (seated r.1.0)) 0
        then manager_on_stop [] web Callbacks.State.stopped
        else Callbacks.State.stopping))
process_changed_stopping_example =
    process_changed_stopping (calm (exit_status 0)) (calm-IsWilling (exit_status 0)) [] web_program
      ending quiet refl refl (λ n h. cc)

running_live :
    (Process.State.running ≢ Process.State.backoff) × (Process.State.running ≢ Process.State.exited)
running_live = (λ h. cc, λ h. cc)

pub web-IsLive : All IsLive web_job.processes
web-IsLive = (running_live, (running_live, tt))

stop_sends_example :
    let r = Job.stop (calm (exit_status 0)) [] (web_job, quiet) in
    Returns r
    × (r.1.0.state ≡ Callbacks.State.stopping)
    × All IsStopping r.1.0.processes
    × (length r.1.0.processes ≡ 2)
    × (signals r.1.1.trace ≡ to_each (Signal.number web.stop_signal) web_job.processes [])
stop_sends_example =
    stop_sends (calm (exit_status 0)) (calm-IsWilling (exit_status 0)) [] web_job quiet tt
      web-IsLive

stop-start_up_example :
    let r =
      (Job.stop (calm (exit_status 0)) [] >> Job.start (calm (exit_status 0))) (web_job, quiet) in
    Returns r
    × (r.1.0.state ≡ Callbacks.State.starting)
    × (r.1.0.config ≡ web)
    × All IsStopping r.1.0.processes
    × All (λ p. p.restarts ≡ pos 0) r.1.0.processes
    × (length r.1.0.processes ≡ 2)
stop-start_up_example =
    stop-start_up (calm (exit_status 0)) (calm-IsWilling (exit_status 0)) [] web_job quiet tt
      web-IsLive

abbrev restarting : Seat
restarting = seat_in Callbacks.State.starting Process.State.stopping

table-Lines_example :
    (AllFit web_job × Lines (6 + length web_job.processes) (table web_job))
    ⊎ ((¬ AllFit web_job) × (table web_job ≡ none))
table-Lines_example = table-Lines web_job refl (refl, (refl, tt))
