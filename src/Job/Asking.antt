-- ===== src/Job/Asking.antt =====
-- What `Job::stop` (taskmasterd/src/jobs/Job.cpp) leaves of the processes that it asks to stop, and of the
-- callbacks of all.
use task_master.Base.{
  List, [], ◌∷◌, ◌++◌, ◌≡◌, refl, sym, ◌∙◌, arith, append_assoc, append-nil, All,
}
use task_master.Base.Int.{ℤ, int_key}
use task_master.Config.{ConfigMap}
use task_master.Exec.{returned}
use task_master.System.{System, Kernel}
use task_master.Process
use task_master.Process.{Process, stop}
use task_master.Process.Asking.{IsTaken, stop-Kept, stop_same}
use task_master.Process.Ending.{Spares, reads_of}
use task_master.Process.Lifecycle.{stop_live}
use task_master.Process.Willing.{IsWilling, stop-Returns}
use task_master.Job
use task_master.Job.{Job}
use task_master.Job.Callbacks
use task_master.Job.Callbacks.{Program, Seat}
use task_master.Job.Stopping.{IsLive, IsUp}

-- A process that has been asked to stop, against what it was before.
pub record Asked (k : Kernel) (p q : Process) : Type 0 where
  pub name : q.name ≡ p.name
  pub fd : q.fd ≡ p.fd
  pub state : q.state ≡ Process.State.stopping
  pub timer : (fd : ℤ) → IsTaken k fd → Spares p.timer fd → Spares q.timer fd

abbrev pub AllAsked : Kernel → List Process → List Process → Type 0
AllAsked k [] [] = Unit
AllAsked k (p ∷ ps) (q ∷ qs) = Asked k p q × AllAsked k ps qs
AllAsked k _ _ = ⊥

-- The callbacks of the descriptors in use that are not those of a timer of these processes.
abbrev pub ReadsKept : Kernel → List Process → System → System → Type 0
ReadsKept k ps sys sys' =
    (fd : ℤ)
    → IsTaken k fd
    → All (λ (p : Process). Spares p.timer fd) ps
    → reads_of k fd sys' ≡ reads_of k fd sys

module _ (k : Kernel) (w : IsWilling k) (configs : ConfigMap) (prog : Program) where
  pub stop_one_run :
      (s : Seat) (sys : System)
      → IsLive s.proc
      → let u = (stop k prog.config.stop_time prog.config.stop_signal (s.proc, sys)).1 in
        Job.stop_one k configs prog (s, sys) ≡ (returned tt, (record s { proc = u.0 }, u.1))
  unfolding Job.stop_one
  stop_one_run s sys live =
      let t = prog.config.stop_time in
      let sig = prog.config.stop_signal in
      let r = stop-Returns k w t sig s.proc sys in
      ground (arith, stop_live k t sig s.proc sys live.0 live.1 r)

  stop-Asked :
      (p : Process) (sys : System)
      → IsLive p
      → let u = (stop k prog.config.stop_time prog.config.stop_signal (p, sys)).1 in Asked k p u.0
  stop-Asked p sys live =
      let t = prog.config.stop_time in
      let sig = prog.config.stop_signal in
      let (name, fd) = stop_same k t sig p sys in
      record {
        name = name;
        fd = fd;
        state = (stop_live k t sig p sys live.0 live.1 (stop-Returns k w t sig p sys)).1;
        timer = λ other taken h. (stop-Kept k other taken t sig p sys h).0;
      }

  stop_loop_asked :
      (before ps : List Process) (st : Callbacks.State) (sys : System)
      → All IsLive ps
      → let r = Job.stop_loop k configs prog before ps st sys in
        (qs : List Process) × (r.1.0.1 ≡ before ++ qs) × AllAsked k ps qs × ReadsKept k ps sys r.1.1
  unfolding Job.stop_loop
  stop_loop_asked before [] st sys live = ([], sym (append-nil before), tt, λ fd t h. refl)
  stop_loop_asked before (p ∷ ps) st sys live =
      let t = prog.config.stop_time in
      let sig = prog.config.stop_signal in
      let u = (stop k t sig (p, sys)).1 in
      let s : Seat = record { state = st; before = before; proc = p; after = ps } in
      let (qs, e, asked, reads) = stop_loop_asked (before ++ u.0 ∷ []) ps st u.1 live.1 in
      rw (stop_one_run s sys live.0) (
        u.0 ∷ qs,
        e ∙ append_assoc before (u.0 ∷ []) qs,
        (stop-Asked p sys live.0, asked),
        λ fd taken h. reads fd taken h.1 ∙ (stop-Kept k fd taken t sig p sys h.0).1,
      )

module _ (k : Kernel) (w : IsWilling k) (configs : ConfigMap) where
  pub stop_run :
      (j : Job) (sys : System)
      → IsUp j.state
      → let r =
          Job.stop_loop k configs (Job.program j) [] j.processes Callbacks.State.stopping sys in
        (Job.stop k configs (j, sys)).1 ≡ (record j { state = r.1.0.0; processes = r.1.0.1 }, r.1.1)
  unfolding Job.stop
  stop_run j sys up = ground arith

  -- The processes of a job that is up, and the callbacks, behind a stop of the job.
  pub stop_asked :
      (j : Job) (sys : System)
      → IsUp j.state
      → All IsLive j.processes
      → let r = Job.stop k configs (j, sys) in
        AllAsked k j.processes r.1.0.processes × ReadsKept k j.processes sys r.1.1
  stop_asked j sys up live =
      let (qs, e, asked, reads) =
        stop_loop_asked k w configs (Job.program j) [] j.processes Callbacks.State.stopping sys
          live in
      rw (stop_run j sys up, e) (asked, reads)
