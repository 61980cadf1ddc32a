-- ===== src/Daemon/Halting.antt =====
-- The processes that `JobManager::kill` (taskmasterd/src/jobs/JobManager.cpp) leaves to end, against those
-- that were up before.
use task_master.Base.{
  List, [], ◌∷◌, ◌++◌, ◌≡◌, refl, ap, All, Bool, true, false, ◌==◌, inl, inr, any,
}
use task_master.Base.Int.{int_key}
use task_master.Base.Text.{Text, text_key}
use task_master.Daemon
use task_master.Daemon.{Hub, state_over}
use task_master.Daemon.Coming.{Exit, IsApart, AreApart}
use task_master.Daemon.Killing.{IsHalted, AllHalted}
use task_master.Job.{Job}
use task_master.Job.Asking.{Asked, AllAsked}
use task_master.Job.Callbacks
use task_master.Job.Stopping.{IsUp}
use task_master.Manager.Standing.{IsOver}
use task_master.Process.{Process}
use task_master.Process.Asking.{IsTaken}
use task_master.System.{Kernel}

abbrev pub tag : Text → List Process → List Exit
tag key [] = []
tag key (p ∷ ps) = (key, p) ∷ tag key ps

-- The processes of a job that is not over.
abbrev pub of_job : Text → Bool → List Process → List Exit
of_job key true ps = []
of_job key false ps = tag key ps

abbrev pub ends_in : List (Text × Job) → List Exit
ends_in [] = []
ends_in ((key, j) ∷ jobs) = of_job key (state_over j.state) j.processes ++ ends_in jobs

pub over_up : (st : Callbacks.State) → IsUp st → state_over st ≡ false
over_up Callbacks.State.empty h = absurd h
over_up Callbacks.State.stopped h = absurd h
over_up Callbacks.State.stopping h = absurd h
over_up _ h = refl

pub over_over : (st : Callbacks.State) → IsOver st → state_over st ≡ true
over_over Callbacks.State.empty h = refl
over_over Callbacks.State.stopped h = refl
over_over Callbacks.State.starting h = absurd h
over_over Callbacks.State.running h = absurd h
over_over Callbacks.State.stopping h = absurd h
over_over Callbacks.State.replaced h = absurd h
over_over Callbacks.State.removed h = absurd h

module _ (k : Kernel) where
  abbrev pub AllEnds : List Exit → List Exit → Type 0
  AllEnds [] [] = Unit
  AllEnds (e ∷ es) (f ∷ fs) = (f.0 ≡ e.0) × Asked k e.1 f.1 × AllEnds es fs
  AllEnds _ _ = ⊥

  tag-AllEnds :
      (key : Text) (ps qs : List Process) → AllAsked k ps qs → AllEnds (tag key ps) (tag key qs)
  tag-AllEnds key [] [] h = tt
  tag-AllEnds key [] (q ∷ qs) h = absurd h
  tag-AllEnds key (p ∷ ps) [] h = absurd h
  tag-AllEnds key (p ∷ ps) (q ∷ qs) h = (refl, h.0, tag-AllEnds key ps qs h.1)

  append-AllEnds :
      (es fs es' fs' : List Exit)
      → AllEnds es fs
      → AllEnds es' fs'
      → AllEnds (es ++ es') (fs ++ fs')
  append-AllEnds [] [] es' fs' h h' = h'
  append-AllEnds [] (f ∷ fs) es' fs' h h' = absurd h
  append-AllEnds (e ∷ es) [] es' fs' h h' = absurd h
  append-AllEnds (e ∷ es) (f ∷ fs) es' fs' h h' = (h.0, h.1, append-AllEnds es fs es' fs' h.2 h')

  of_job-AllEnds :
      (key : Text) (j j' : Job)
      → IsHalted k j j'
      → AllEnds
          (of_job key (state_over j.state) j.processes)
          (of_job key (state_over j'.state) j'.processes)
  of_job-AllEnds key j j' (inl (over, e)) = rw (e, over_over j.state over) tt
  of_job-AllEnds key j j' (inr (up, st, c, asked)) =
      rw (over_up j.state up, st) (tag-AllEnds key j.processes j'.processes asked)

  pub ends_in-AllEnds :
      (jobs jobs' : List (Text × Job))
      → AllHalted k jobs jobs'
      → AllEnds (ends_in jobs) (ends_in jobs')
  ends_in-AllEnds [] [] h = tt
  ends_in-AllEnds [] (e ∷ jobs') h = absurd h
  ends_in-AllEnds (e ∷ jobs) [] h = absurd h
  ends_in-AllEnds ((key, j) ∷ jobs) ((key', j') ∷ jobs') h = rw (h.0) (
      append-AllEnds (of_job key (state_over j.state) j.processes)
        (of_job key (state_over j'.state) j'.processes) (ends_in jobs) (ends_in jobs')
        (of_job-AllEnds key j j' h.1) (ends_in-AllEnds jobs jobs' h.2))

  named_asked :
      (name : Text) (ps qs : List Process)
      → AllAsked k ps qs
      → any (λ (x : Process). x.name == name) qs ≡ any (λ (x : Process). x.name == name) ps
  named_asked name [] [] h = refl
  named_asked name [] (q ∷ qs) h = absurd h
  named_asked name (p ∷ ps) [] h = absurd h
  named_asked name (p ∷ ps) (q ∷ qs) h = rw (h.0.name, named_asked name ps qs h.1) refl

  holds_halted :
      (name : Text) (j j' : Job) → IsHalted k j j' → Daemon.holds name j' ≡ Daemon.holds name j
  holds_halted name j j' (inl (over, e)) = ap (Daemon.holds name) e
  holds_halted name j j' (inr (up, st, c, asked)) = named_asked name j.processes j'.processes asked

  pub holder_halted :
      (name : Text) (jobs jobs' : List (Text × Job))
      → AllHalted k jobs jobs'
      → Daemon.holder name jobs' ≡ Daemon.holder name jobs
  unfolding Daemon.holder
  holder_halted name [] [] h = refl
  holder_halted name [] (e ∷ jobs') h = absurd h
  holder_halted name (e ∷ jobs) [] h = absurd h
  holder_halted name ((key, j) ∷ jobs) ((key', j') ∷ jobs') h =
      rw (h.0, holds_halted name j j' h.1, holder_halted name jobs jobs' h.2) refl

  Asked-IsApart :
      (p p' q q' : Process)
      → Asked k p p'
      → Asked k q q'
      → IsTaken k p.fd
      → IsTaken k q.fd
      → IsApart p q
      → IsApart p' q'
  Asked-IsApart p p' q q' a b own taken h = record {
    names = rw (a.name, b.name) h.names;
    pidfds = rw (a.fd, b.fd) h.pidfds;
    timers = rw (b.fd) (a.timer q.fd taken h.timers);
    timers_back = rw (a.fd) (b.timer p.fd own h.timers_back);
  }

  abbrev pub AllTaken : List Exit → Type 0
  AllTaken = All (λ (e : Exit). IsTaken k e.1.fd)

  AllEnds-IsApart :
      (p p' : Process) (es fs : List Exit)
      → Asked k p p'
      → IsTaken k p.fd
      → AllEnds es fs
      → AllTaken es
      → All (λ (f : Exit). IsApart p f.1) es
      → All (λ (f : Exit). IsApart p' f.1) fs
  AllEnds-IsApart p p' [] [] a own h t apart = tt
  AllEnds-IsApart p p' [] (f ∷ fs) a own h t apart = absurd h
  AllEnds-IsApart p p' (e ∷ es) [] a own h t apart = absurd h
  AllEnds-IsApart p p' (e ∷ es) (f ∷ fs) a own h t apart = (
    Asked-IsApart p p' e.1 f.1 a h.1 own t.0 apart.0,
    AllEnds-IsApart p p' es fs a own h.2 t.1 apart.1,
  )

  pub ends-AreApart : (es fs : List Exit) → AllEnds es fs → AllTaken es → AreApart es → AreApart fs
  ends-AreApart [] [] h t apart = tt
  ends-AreApart [] (f ∷ fs) h t apart = absurd h
  ends-AreApart (e ∷ es) [] h t apart = absurd h
  ends-AreApart (e ∷ es) (f ∷ fs) h t apart =
      (AllEnds-IsApart e.1 f.1 es fs h.1 t.0 h.2 t.1 apart.0, ends-AreApart es fs h.2 t.1 apart.1)
