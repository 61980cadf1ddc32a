-- ===== src/Job/Starting.antt =====
-- The start of a job (Job::start, Job::startProcesses and Job::restartProcesses,
-- taskmasterd/src/jobs/Job.cpp) under a kernel that refuses nothing.
use task_master.Base.{ℕ, zero, suc, ◌+◌, List, [], ◌∷◌, ◌++◌, ◌≡◌, refl, arith}
use task_master.Base.Int.{pos_part}
use task_master.Base.Text.{Text, to_decimal, codes}
use task_master.Exec.{Returns, for_each}
use task_master.System.{System, Kernel}
use task_master.Process
use task_master.Process.{Process}
use task_master.Process.Willing.{IsWilling}
use task_master.Job
use task_master.Job.{Job}
use task_master.Job.Callbacks
use task_master.Job.Callbacks.{Program, launch}
use task_master.Job.Crashes.{launch_lem}

-- The command has a word.
abbrev pub HasWords : List Text → Type 0
HasWords [] = ⊥
HasWords (path ∷ args) = Unit

module _ (k : Kernel) (w : IsWilling k) where
  launch-Returns :
      (prog : Program) (p : Process) (sys : System)
      → HasWords prog.argv
      → Returns (launch k prog (p, sys))
  launch-Returns prog p sys h = go prog.argv refl
    where
      go : (words : List Text) → prog.argv ≡ words → Returns (launch k prog (p, sys))
      go [] e = absurd (rw (e) at h)
      go (path ∷ args) e = (launch_lem k w prog path args p sys e).0

  start_new_lem :
      (i : ℕ) (j : Job) (sys : System)
      → HasWords j.arg_store
      → let r = Job.start_new k i (j, sys) in Returns r × (r.1.0.arg_store ≡ j.arg_store)
  unfolding Job.start_new
  start_new_lem i j sys h =
      let fresh = Process.create (j.config.name ++ codes "_" ++ to_decimal i) j.pgid in
      ground (arith, launch-Returns (Job.program j) fresh sys h)

  set_group_lem :
      (j : Job) (sys : System)
      → let r = Job.set_group k (j, sys) in Returns r × (r.1.0.arg_store ≡ j.arg_store)
  unfolding Job.set_group
  set_group_lem j sys = ground arith

  start_loop_lem :
      (n i : ℕ) (j : Job) (sys : System)
      → HasWords j.arg_store
      → let r = Job.start_loop k n i (j, sys) in Returns r × (r.1.0.arg_store ≡ j.arg_store)
  unfolding Job.start_loop
  start_loop_lem zero i j sys h = (tt, refl)
  start_loop_lem (suc n) i j sys h =
      let one = start_new_lem i j sys h in
      let u = (Job.start_new k i (j, sys)).1 in
      let two = set_group_lem u.0 u.1 in
      let v = (Job.set_group k u).1 in
      ground (arith, one, two, start_loop_lem n (i + 1) v.0 v.1 (rw (two.1, one.1) h))

  restart_one-Returns :
      (prog : Program) (p : Process) (sys : System)
      → HasWords prog.argv
      → Returns (Job.restart_one k prog (p, sys))
  unfolding Job.restart_one
  restart_one-Returns prog p sys h =
      ground (arith, launch-Returns prog (Process.reset_restarts p) sys h)

  restart_loop-Returns :
      (prog : Program) (ps : List Process) (sys : System)
      → HasWords prog.argv
      → Returns (for_each (Job.restart_one k prog) ps sys)
  unfolding for_each
  restart_loop-Returns prog [] sys h = tt
  restart_loop-Returns prog (p ∷ ps) sys h =
      let u = (Job.restart_one k prog (p, sys)).1 in
      ground (arith, restart_one-Returns prog p sys h, restart_loop-Returns prog ps u.1 h)

  -- If the kernel refuses no call and the command has a word, a start returns with the job STARTING,
  -- whatever state it was in.
  pub start_lem :
      (j : Job) (sys : System)
      → HasWords j.arg_store
      → let r = Job.start k (j, sys) in
        Returns r × (r.1.0.state ≡ Callbacks.State.starting) × (r.1.0.arg_store ≡ j.arg_store)
  unfolding Job.start
  start_lem j sys h = ground (
    arith,
    start_loop_lem (pos_part j.config.numprocs) 0 j sys h,
    restart_loop-Returns (Job.program j) j.processes sys h,
  )
