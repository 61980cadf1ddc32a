-- ===== src/Daemon/Leaving.antt =====
-- The daemon behind `JobManager::kill` (taskmasterd/src/jobs/JobManager.cpp): each process that was up is
-- waited for.
use task_master.Base.{
  ℕ, zero, suc, ◌+◌, ◌<◌, List, [], ◌∷◌, ◌++◌, some, ◌≡◌, refl, subst, ◌∙◌, arith, All, All-append,
  Bool, true, false, ◌==◌, if◌then◌else◌, ◌⊎◌, inl, inr, Bool-cases, length,
}
use task_master.Base.Int.{int_key}
use task_master.Base.Text.{Text, text_key}
use task_master.Base.Assoc.{lookup, IsFresh, IsMap}
use task_master.Config.{ConfigMap}
use task_master.Daemon
use task_master.Daemon.{Hub, state_over}
use task_master.Daemon.Coming.{Exit, IsComing, IsApart, AreApart, Left, ends_of}
use task_master.Daemon.Halting.{tag, of_job, ends_in}
use task_master.Daemon.Killing.{IsUnchanged}
use task_master.Daemon.Seats.{find}
use task_master.Job.{Job}
use task_master.Job.Callbacks
use task_master.Job.Stopping.{pending}
use task_master.Process
use task_master.Process.{Process}
use task_master.System.{process_changed}

-- A process that has been asked to stop, and whose end will be heard of.
pub record IsWatched (h : Hub) (e : Exit) : Type 0 where
  pub held : Daemon.holder e.1.name h.manager.jobs ≡ some e.0
  pub registered : lookup e.1.fd h.system.read_callbacks ≡ some (some (process_changed e.1.name))
  pub asked : e.1.state ≡ Process.State.stopping

-- A job that is over, or whose processes are all to end.
abbrev pub IsClosing : ConfigMap → Job → Type 0
IsClosing configs j =
    (state_over j.state ≡ true)
    ⊎ ((j.state ≡ Callbacks.State.stopping)
        × (pending j.processes ≡ length j.processes)
        × (0 < length j.processes)
        × IsUnchanged configs j)

All_left : {A : Type 0} (P : A → Type 0) (xs ys : List A) → All P (xs ++ ys) → All P xs × All P ys
All_left P [] ys h = (tt, h)
All_left P (x ∷ xs) ys h = let (a, b) = All_left P xs ys h.1 in ((h.0, a), b)

apart_parts : (es fs : List Exit) → AreApart (es ++ fs) → AreApart es × AreApart fs
apart_parts [] fs h = (tt, h)
apart_parts (e ∷ es) fs h =
    let (a, b) = apart_parts es fs h.1 in
    (((All_left (λ (f : Exit). IsApart e.1 f.1) es fs h.0).0, a), b)

find_further :
    (key : Text) (p : Process) (ps qs : List Process)
    → All (λ (f : Exit). IsApart p f.1) (tag key qs)
    → All (λ (q : Process). find q.name ps ≡ some q) qs
    → All (λ (q : Process). find q.name (p ∷ ps) ≡ some q) qs
unfolding find
find_further key p ps [] h f = tt
find_further key p ps (q ∷ qs) h f = (rw (h.0.names, find) f.0, find_further key p ps qs h.1 f.1)

find_all :
    (key : Text) (ps : List Process)
    → AreApart (tag key ps)
    → All (λ (q : Process). find q.name ps ≡ some q) ps
unfolding find
find_all key [] h = tt
find_all key (p ∷ ps) h = (
  rw ((text_key.same_iff p.name p.name).1 refl, find) refl,
  find_further key p ps ps h.0 (find_all key ps h.1),
)

module _ (h : Hub) where
  tag-IsComing :
      (key : Text) (j : Job) (ps : List Process)
      → lookup key h.manager.jobs ≡ some j
      → j.state ≡ Callbacks.State.stopping
      → All (λ (q : Process). find q.name j.processes ≡ some q) ps
      → All (IsWatched h) (tag key ps)
      → All (IsComing h) (tag key ps)
  tag-IsComing key j [] found st place watched = tt
  tag-IsComing key j (p ∷ ps) found st place watched = (
    record {
      job = j;
      found = found;
      state = st;
      held = watched.0.held;
      process = place.0;
      asked = watched.0.asked;
      registered = watched.0.registered;
    },
    tag-IsComing key j ps found st place.1 watched.1,
  )

  of_job-IsComing :
      (key : Text) (j : Job)
      → lookup key h.manager.jobs ≡ some j
      → IsClosing h.manager.config j
      → AreApart (of_job key (state_over j.state) j.processes)
      → All (IsWatched h) (of_job key (state_over j.state) j.processes)
      → All (IsComing h) (of_job key (state_over j.state) j.processes)
  of_job-IsComing key j found (inl over) apart watched = rw (over) tt
  of_job-IsComing key j found (inr (st, all, some_left, same)) apart watched = rw (st) (
      tag-IsComing key j j.processes found st (find_all key j.processes (rw (st) at apart))
        (rw (st) at watched))

  pub ends_in-IsComing :
      (jobs : List (Text × Job))
      → All (λ entry. lookup entry.0 h.manager.jobs ≡ some entry.1) jobs
      → All (λ entry. IsClosing h.manager.config entry.1) jobs
      → AreApart (ends_in jobs)
      → All (IsWatched h) (ends_in jobs)
      → All (IsComing h) (ends_in jobs)
  ends_in-IsComing [] found closing apart watched = tt
  ends_in-IsComing ((key, j) ∷ jobs) found closing apart watched =
      let mine = of_job key (state_over j.state) j.processes in
      let (a, b) = apart_parts mine (ends_in jobs) apart in
      let (v, w) = All_left (IsWatched h) mine (ends_in jobs) watched in
      All-append (IsComing h) mine (ends_in jobs) (of_job-IsComing key j found.0 closing.0 a v)
        (ends_in-IsComing jobs found.1 closing.1 b w)

ends_of-append :
    (name : Text) (es fs : List Exit) → ends_of name (es ++ fs) ≡ ends_of name es + ends_of name fs
ends_of-append name [] fs = omega arith
ends_of-append name (e ∷ es) fs = ground (arith, ends_of-append name es fs)

ends_of-tag :
    (name key : Text) (ps : List Process)
    → ends_of name (tag key ps) ≡ (if key == name then length ps else 0)
ends_of-tag name key [] = ground arith
ends_of-tag name key (p ∷ ps) = ground (arith, ends_of-tag name key ps)

ends_of-of_job :
    (name key : Text) (over : Bool) (ps : List Process)
    → (key == name) ≡ false
    → ends_of name (of_job key over ps) ≡ 0
ends_of-of_job name key true ps e = refl
ends_of-of_job name key false ps e = ends_of-tag name key ps ∙ rw (e) refl

no_ends_of :
    (name : Text) (jobs : List (Text × Job)) → IsFresh name jobs → ends_of name (ends_in jobs) ≡ 0
no_ends_of name [] h = refl
no_ends_of name ((key, j) ∷ jobs) h =
    let other : (key == name) ≡ false = ground (arith, text_key.same_iff key name, h.0) in
    ends_of-append name (of_job key (state_over j.state) j.processes) (ends_in jobs)
    ∙ rw (ends_of-of_job name key (state_over j.state) j.processes other, no_ends_of name jobs h.1)
        refl

waited_for :
    (configs : ConfigMap) (n : ℕ) (j : Job)
    → j.state ≡ Callbacks.State.stopping
    → pending j.processes ≡ n
    → 0 < n
    → IsUnchanged configs j
    → Left configs n (some j)
waited_for configs zero j st e some_left same = absurd (omega (arith, some_left))
waited_for configs (suc n) j st e some_left same = (st, e, same Callbacks.State.stopped)

own_ends :
    (configs : ConfigMap) (key : Text) (j : Job)
    → IsClosing configs j
    → Left configs (ends_of key (of_job key (state_over j.state) j.processes)) (some j)
own_ends configs key j (inl over) = rw (over) over
own_ends configs key j (inr (st, all, some_left, same)) =
    let count : ends_of key (of_job key (state_over j.state) j.processes) ≡ length j.processes =
      rw (st, ends_of-tag key key j.processes, (text_key.same_iff key key).1 refl) refl in
    rw (count) (waited_for configs (length j.processes) j st all some_left same)

pub ends_in-Left :
    (configs : ConfigMap) (name : Text) (jobs : List (Text × Job))
    → IsMap jobs
    → All (λ entry. IsClosing configs entry.1) jobs
    → Left configs (ends_of name (ends_in jobs)) (lookup name jobs)
unfolding lookup
ends_in-Left configs name [] d closing = refl
ends_in-Left configs name ((key, j) ∷ jobs) d closing = elim (Bool-cases (key == name)) [
  | inl same ↦
      let own : ends_of key (ends_in ((key, j) ∷ jobs)) ≡ ends_of key mine =
        ends_of-append key mine (ends_in jobs) ∙ rw (no_ends_of key jobs d.0) (omega arith) in
      subst (λ n. Left configs (ends_of n (ends_in ((key, j) ∷ jobs))) (lookup n ((key, j) ∷ jobs)))
        ((text_key.same_iff key name).0 same)
        (rw (own, (text_key.same_iff key key).1 refl, lookup) (own_ends configs key j closing.0))
  | inr other ↦
      let rest : ends_of name (ends_in ((key, j) ∷ jobs)) ≡ ends_of name (ends_in jobs) =
        ends_of-append name mine (ends_in jobs)
        ∙ rw (ends_of-of_job name key (state_over j.state) j.processes other) (omega arith) in
      rw (rest, other, lookup) (ends_in-Left configs name jobs d.1 closing.1)
]
  where
    mine : List Exit
    mine = of_job key (state_over j.state) j.processes
