-- ===== src/Daemon/Closing.antt =====
-- The whole of ~JobManager (taskmasterd/src/jobs/JobManager.cpp), from running jobs to its end.
use mathlib.Core.List.{Permᴰ}
use task_master.Base.{
  ℕ, List, [], ◌∷◌, map, Option, some, ◌≡◌, ◌≢◌, refl, sym, subst, ◌∙◌, arith, All, true, Bool, ◌⊎◌,
  inl, inr, length,
}
use task_master.Base.Int.{ℤ, int_key}
use task_master.Base.Text.{Text, text_key}
use task_master.Base.Assoc.{lookup, IsFresh, IsMap}
use task_master.Config.{ConfigMap}
use task_master.Daemon
use task_master.Daemon.{Hub, World, Main, state_over}
use task_master.Daemon.Ending.{IsStopping, all_of, reported, is_over, wait_for, wait_jobs_ends}
use task_master.Daemon.Coming.{Exit, AreApart}
use task_master.Daemon.Halting.{
  ends_in, over_over, over_up, AllEnds, ends_in-AllEnds, holder_halted, ends-AreApart, AllTaken,
}
use task_master.Daemon.Killing.{IsStoppable, IsHalted, AllHalted, AllSpare, AllReadsKept, kill_lem}
use task_master.Daemon.Leaving.{IsWatched, IsClosing, ends_in-IsComing, ends_in-Left}
use task_master.Daemon.Orders.{reordered-IsStopping}
use task_master.Exec.{Outcome, Error, handle, returned, thrown, terminated, exited, replaced}
use task_master.Framing.Reader.{Received}
use task_master.Framing.Writer
use task_master.Job.{Job}
use task_master.Job.Asking.{AllAsked}
use task_master.Job.Stopping.{pending}
use task_master.Manager
use task_master.Manager.{Manager, keys}
use task_master.Process.{Process}
use task_master.Process.Asking.{IsTaken}
use task_master.Process.Willing.{IsWilling}
use task_master.Proto.{Command}
use task_master.Response.{Response}
use task_master.Signal
use task_master.System.{System, Kernel, Syscall, other_status, process_changed}

-- The callback of a process leads to it, and its pidfd is that of no timer, and will not be.
pub record IsServed (k : Kernel) (h : Hub) (e : Exit) : Type 0 where
  pub held : Daemon.holder e.1.name h.manager.jobs ≡ some e.0
  pub registered : lookup e.1.fd h.system.read_callbacks ≡ some (some (process_changed e.1.name))
  pub taken : IsTaken k e.1.fd
  pub spared : AllSpare e.1.fd h.manager.jobs

-- A daemon whose jobs are over, or up with processes that have not ended, each with a name and a pidfd of its
-- own.
pub record CanClose (k : Kernel) (h : Hub) : Type 0 where
  pub distinct : IsMap h.manager.jobs
  pub stoppable : All (λ entry. IsStoppable h.manager.config entry.1) h.manager.jobs
  pub served : All (IsServed k h) (ends_in h.manager.jobs)
  pub apart : AreApart (ends_in h.manager.jobs)

found_further :
    (key : Text) (j : Job) (m rest : List (Text × Job))
    → IsFresh key rest
    → All (λ entry. lookup entry.0 m ≡ some entry.1) rest
    → All (λ entry. lookup entry.0 ((key, j) ∷ m) ≡ some entry.1) rest
unfolding lookup
found_further key j m [] fresh h = tt
found_further key j m ((n, x) ∷ rest) fresh h =
    (ground (arith, text_key.same_iff key n, fresh.0, h.0), found_further key j m rest fresh.1 h.1)

all_found : (m : List (Text × Job)) → IsMap m → All (λ entry. lookup entry.0 m ≡ some entry.1) m
unfolding lookup
all_found [] d = tt
all_found ((key, j) ∷ m) d = (
  rw ((text_key.same_iff key key).1 refl, lookup) refl,
  found_further key j m m d.0 (all_found m d.1),
)

module _ (k : Kernel) where
  AllHalted-IsFresh :
      (name : Text) (jobs jobs' : List (Text × Job))
      → AllHalted k jobs jobs'
      → IsFresh name jobs
      → IsFresh name jobs'
  AllHalted-IsFresh name [] [] h f = tt
  AllHalted-IsFresh name [] (e ∷ jobs') h f = absurd h
  AllHalted-IsFresh name (e ∷ jobs) [] h f = absurd h
  AllHalted-IsFresh name (e ∷ jobs) (e' ∷ jobs') h f =
      (λ q. f.0 (sym h.0 ∙ q), AllHalted-IsFresh name jobs jobs' h.2 f.1)

  AllHalted-IsMap :
      (jobs jobs' : List (Text × Job)) → AllHalted k jobs jobs' → IsMap jobs → IsMap jobs'
  AllHalted-IsMap [] [] h d = tt
  AllHalted-IsMap [] (e ∷ jobs') h d = absurd h
  AllHalted-IsMap (e ∷ jobs) [] h d = absurd h
  AllHalted-IsMap ((n, j) ∷ jobs) ((n', j') ∷ jobs') h d =
      (rw (h.0) (AllHalted-IsFresh n jobs jobs' h.2 d.0), AllHalted-IsMap jobs jobs' h.2 d.1)

  keys_halted : (jobs jobs' : List (Text × Job)) → AllHalted k jobs jobs' → keys jobs' ≡ keys jobs
  keys_halted [] [] h = refl
  keys_halted [] (e ∷ jobs') h = absurd h
  keys_halted (e ∷ jobs) [] h = absurd h
  keys_halted ((n, j) ∷ jobs) ((n', j') ∷ jobs') h = rw (h.0, keys_halted jobs jobs' h.2) refl

  counts_asked :
      (ps qs : List Process) → AllAsked k ps qs → (pending qs ≡ length ps) × (length qs ≡ length ps)
  counts_asked [] [] h = (refl, refl)
  counts_asked [] (q ∷ qs) h = absurd h
  counts_asked (p ∷ ps) [] h = absurd h
  counts_asked (p ∷ ps) (q ∷ qs) h =
      let (a, b) = counts_asked ps qs h.1 in ground (arith, a, b, h.0.state)

  IsHalted-IsClosing :
      (configs : ConfigMap) (j j' : Job)
      → IsStoppable configs j
      → IsHalted k j j'
      → IsClosing configs j'
  IsHalted-IsClosing configs j j' s (inl (over, e)) = inl (rw (e) (over_over j.state over))
  IsHalted-IsClosing configs j j' (same, inl over) (inr (up, st, c, asked)) =
      absurd (ground (arith, over_over j.state over, over_up j.state up))
  IsHalted-IsClosing configs j j' (same, inr (up', live, some_left)) (inr (up, st, c, asked)) =
      let (a, b) = counts_asked j.processes j'.processes asked in
      inr (st, a ∙ sym b, omega (arith, b, some_left), λ st. rw (c) (same st))

  AllHalted-IsClosing :
      (configs : ConfigMap) (jobs jobs' : List (Text × Job))
      → All (λ entry. IsStoppable configs entry.1) jobs
      → AllHalted k jobs jobs'
      → All (λ entry. IsClosing configs entry.1) jobs'
  AllHalted-IsClosing configs [] [] s h = tt
  AllHalted-IsClosing configs [] (e ∷ jobs') s h = absurd h
  AllHalted-IsClosing configs (e ∷ jobs) [] s h = absurd h
  AllHalted-IsClosing configs ((n, j) ∷ jobs) ((n', j') ∷ jobs') s h =
      (IsHalted-IsClosing configs j j' s.0 h.1, AllHalted-IsClosing configs jobs jobs' s.1 h.2)

  all_taken : (h : Hub) (es : List Exit) → All (IsServed k h) es → AllTaken k es
  all_taken h [] s = tt
  all_taken h (e ∷ es) s = (s.0.taken, all_taken h es s.1)

  AllEnds-IsWatched :
      (h h' : Hub) (es fs : List Exit)
      → ((name : Text) → Daemon.holder name h'.manager.jobs ≡ Daemon.holder name h.manager.jobs)
      → AllReadsKept k h.manager.jobs h.system h'.system
      → AllEnds k es fs
      → All (IsServed k h) es
      → All (IsWatched h') fs
  AllEnds-IsWatched h h' [] [] holders reads ends served = tt
  AllEnds-IsWatched h h' [] (f ∷ fs) holders reads ends served = absurd ends
  AllEnds-IsWatched h h' (e ∷ es) [] holders reads ends served = absurd ends
  AllEnds-IsWatched h h' (e ∷ es) (f ∷ fs) holders reads ends served = (
    record {
      held = rw (ends.1.name, ends.0) (holders e.1.name ∙ served.0.held);
      registered =
          rw (ends.1.name, ends.1.fd)
            (reads e.1.fd served.0.taken served.0.spared ∙ served.0.registered);
      asked = ends.1.state;
    },
    AllEnds-IsWatched h h' es fs holders reads ends.2 served.1,
  )

handle_returned :
    (r : Outcome Bool × World) (f : Error → Main Bool) → r.0 ≡ returned true → handle r f ≡ r
handle_returned (returned b, w) f e = refl
handle_returned (thrown x, w) f e = cc
handle_returned (terminated, w) f e = refl
handle_returned (exited n, w) f e = refl
handle_returned (replaced, w) f e = refl

module _ (k : Kernel) (split_shell : Text → List Text)
    (read_file : List Syscall → ConfigMap ⊎ Error) (parse : Text → Option Command)
    (serialize : Response → Option Text) (socket : ℤ → Writer.Socket)
    (incoming : List Syscall → ℤ → Received) where
  abbrev pub close_down : List (List Exit) → Main Bool
  close_down rounds =
      Daemon.shut_down k split_shell read_file parse serialize socket incoming (map reported rounds)

  shut_down_steps :
      (rounds : List (List Exit)) (h : Hub) (g : Signal.State) (jobs' : List (Text × Job))
      (sys' : System)
      → Manager.kill k (h.manager, h.system)
        ≡ (returned tt, (record h.manager { jobs = jobs' }, sys'))
      → (wait_for k split_shell read_file parse serialize socket incoming
          (keys jobs')
          (map reported rounds)
          (record h { manager = record h.manager { jobs = jobs' }; system = sys' }, g)).0
        ≡ returned true
      → close_down rounds (h, g)
        ≡ wait_for k split_shell read_file parse serialize socket incoming
            (keys jobs')
            (map reported rounds)
            (record h { manager = record h.manager { jobs = jobs' }; system = sys' }, g)
  unfolding Daemon.shut_down
  shut_down_steps rounds h g jobs' sys' e r = rw (e) (handle_returned _ _ r)

  -- The processes that are left to end when the destructor has asked them to stop.
  abbrev pub left_to_end : Hub → List Exit
  left_to_end h = ends_in (Manager.kill k (h.manager, h.system)).1.0.jobs

  -- The daemon that waits.
  abbrev waiting : Hub → List (Text × Job) → System → Hub
  waiting h jobs' sys' = record h { manager = record h.manager { jobs = jobs' }; system = sys' }

  waiting-IsStopping :
      (h : Hub) (jobs' : List (Text × Job)) (sys' : System)
      → CanClose k h
      → AllHalted k h.manager.jobs jobs'
      → AllReadsKept k h.manager.jobs h.system sys'
      → IsStopping (waiting h jobs' sys') (ends_in jobs')
  waiting-IsStopping h jobs' sys' c halted reads =
      let h' = waiting h jobs' sys' in
      let d = AllHalted-IsMap k h.manager.jobs jobs' halted c.distinct in
      let closing =
        AllHalted-IsClosing k h.manager.config h.manager.jobs jobs' c.stoppable halted in
      let ends = ends_in-AllEnds k h.manager.jobs jobs' halted in
      let apart =
        ends-AreApart k (ends_in h.manager.jobs) (ends_in jobs') ends
          (all_taken k h (ends_in h.manager.jobs) c.served) c.apart in
      record {
        coming = ends_in-IsComing h' jobs' (all_found jobs' d) closing apart (
            AllEnds-IsWatched k h h' (ends_in h.manager.jobs) (ends_in jobs')
              (λ name. holder_halted k name h.manager.jobs jobs' halted) reads ends c.served);
        apart = apart;
        left = λ name. ends_in-Left h.manager.config name jobs' d closing;
      }

  -- The destructor of the manager ends with every job STOPPED or EMPTY when, behind its kill, the ends of all
  -- the processes that are up come, in any order and in any rounds. No job is STOPPING before; the jobs have
  -- the configuration of the manager; the processes that are up have not ended by themselves, and each has a
  -- name and a pidfd of its own, which is registered for it and is the descriptor of no timer. The kernel
  -- refuses no call, and `waitpid` reports ends only.
  pub shut_down_ends :
      (willing : IsWilling k) (ends : (t : List Syscall) (n : ℕ) → k.status t ≢ other_status n)
      (rounds : List (List Exit)) (h : Hub) (g : Signal.State)
      → CanClose k h
      → Permᴰ (left_to_end h) (all_of rounds)
      → let r = close_down rounds (h, g) in
        (r.0 ≡ returned true)
        × (r.1.1 ≡ g)
        × All
            (λ name.
              is_over k split_shell read_file parse serialize socket incoming r.1.0 name ≡ true)
            (keys h.manager.jobs)
  shut_down_ends willing ends rounds h g c all =
      let (ret, (jobs', m, halted, reads)) =
        kill_lem k willing h.manager.config h.manager.jobs h.system c.distinct c.stoppable in
      let sys' = (Manager.kill k (h.manager, h.system)).1.1 in
      let h' = waiting h jobs' sys' in
      let stopping = waiting-IsStopping h jobs' sys' c halted reads in
      let these : Permᴰ (ends_in jobs') (all_of rounds) =
        subst (λ (x : Manager). Permᴰ (ends_in x.jobs) (all_of rounds)) m all in
      let (done, same, over) =
        wait_jobs_ends k split_shell read_file parse serialize socket incoming willing ends
          (keys jobs') rounds h' g
          (reordered-IsStopping h' (ends_in jobs') (all_of rounds) these stopping) in
      let steps = shut_down_steps rounds h g jobs' sys' (rw (ret, m) refl) done in
      subst
        (λ r.
          (r.0 ≡ returned true)
          × (r.1.1 ≡ g)
          × All
              (λ name.
                is_over k split_shell read_file parse serialize socket incoming r.1.0 name ≡ true)
              (keys h.manager.jobs))
        (sym steps) (done, same, rw⁻¹ (keys_halted k h.manager.jobs jobs' halted) over)
