-- ===== src/Job/Destroying.antt =====
-- What dies with a job (the destructors of taskmasterd/include/jobs/Process.hpp, src/core/Timer.cpp).
use task_master.Base.{List, [], ◌∷◌, Option, ◌≡◌, refl, arith}
use task_master.Exec.{returned}
use task_master.System.{System, Kernel, unregister_event, close_fd}
use task_master.Timer
use task_master.Timer.{Timer}
use task_master.Process
use task_master.Process.{Process}
use task_master.Process.Willing.{IsWilling}
use task_master.Job

module _ (k : Kernel) (w : IsWilling k) where
  destroy_timer_lem :
      (t : Option Timer) (sys : System)
      → Process.destroy_timer k t sys ≡ (returned tt, (Process.destroy_timer k t sys).1)
  unfolding Timer.destroy unregister_event close_fd
  destroy_timer_lem t sys = grind (arith, w.succeeds)

  destroy_process_lem :
      (p : Process) (sys : System)
      → Process.destroy k p sys ≡ (returned tt, (Process.destroy k p sys).1)
  unfolding Process.destroy close_fd
  destroy_process_lem p sys = ground (arith, destroy_timer_lem p.timer sys)

  -- The destructors return, if the kernel refuses no call.
  pub destroy_lem :
      (ps : List Process) (sys : System)
      → Job.destroy k ps sys ≡ (returned tt, (Job.destroy k ps sys).1)
  unfolding Job.destroy
  destroy_lem [] sys = refl
  destroy_lem (p ∷ ps) sys =
      rw (destroy_process_lem p sys) (destroy_lem ps (Process.destroy k p sys).1)
