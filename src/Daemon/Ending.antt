-- ===== src/Daemon/Ending.antt =====
-- The wait of ~JobManager for the processes that were asked to stop (taskmasterd/src/jobs/JobManager.cpp).
use task_master.Base.{
  ℕ, zero, suc, List, [], ◌∷◌, ◌++◌, map, Option, some, none, ◌≡◌, ◌≢◌, refl, sym, subst, true,
  false, Bool, All, ◌⊎◌, arith, ◌==◌, inl, inr, Bool-cases,
}
use task_master.Base.Int.{ℤ}
use task_master.Base.Text.{Text, text_key}
use task_master.Base.Assoc.{lookup}
use task_master.Config.{ConfigMap}
use task_master.Daemon
use task_master.Daemon.{Hub, World, Main}
use task_master.Daemon.Coming.{Exit, IsComing, IsApart, AreApart, Left, ends_of}
use task_master.Daemon.Waiting.{next_wait}
use task_master.Daemon.Exits.{run_exit_lem}
use task_master.Exec.{Outcome, Error, returned}
use task_master.Framing.Reader.{Received}
use task_master.Framing.Writer
use task_master.Job.{Job}
use task_master.Loop
use task_master.Loop.{Waited, ready}
use task_master.Process.Willing.{IsWilling}
use task_master.Proto.{Command}
use task_master.Response.{Response}
use task_master.Signal
use task_master.System.{Kernel, Syscall, Callback, other_status}

-- The ends that a round of `epoll_wait` reports.
abbrev pub reported : List Exit → Waited
reported es = ready (map (λ e. record { fd = e.1.fd; readable = true; writable = false }) es)

abbrev pub all_of : List (List Exit) → List Exit
all_of [] = []
all_of (es ∷ rounds) = es ++ all_of rounds

-- The daemon while these ends are to come: their processes have been asked to stop and are registered, each
-- with a name and a pidfd of its own, and the other jobs have no process left.
pub record IsStopping (h : Hub) (es : List Exit) : Type 0 where
  pub coming : All (IsComing h) es
  pub apart : AreApart es
  pub left : (name : Text) → Left h.manager.config (ends_of name es) (lookup name h.manager.jobs)

module _ (k : Kernel) (split_shell : Text → List Text)
    (read_file : List Syscall → ConfigMap ⊎ Error) (parse : Text → Option Command)
    (serialize : Response → Option Text) (socket : ℤ → Writer.Socket)
    (incoming : List Syscall → ℤ → Received) where
  abbrev on_callback : Callback → Main Unit
  on_callback = Daemon.run k split_shell read_file parse serialize socket incoming

  abbrev handle_round : Waited → Main Unit
  handle_round = Loop.handle_events (λ (h : Hub). h.system) on_callback

  abbrev pub is_over : Hub → Text → Bool
  is_over h name =
      Daemon.is_over k split_shell read_file parse serialize socket incoming
        (lookup name h.manager.jobs)

  abbrev pub wait_for : List Text → List Waited → Main Bool
  wait_for = Daemon.wait_jobs k split_shell read_file parse serialize socket incoming

module _ (k : Kernel) (split_shell : Text → List Text)
    (read_file : List Syscall → ConfigMap ⊎ Error) (parse : Text → Option Command)
    (serialize : Response → Option Text) (socket : ℤ → Writer.Socket)
    (incoming : List Syscall → ℤ → Received) (willing : IsWilling k)
    (ends : (t : List Syscall) (n : ℕ) → k.status t ≢ other_status n) where
  All-IsComing :
      (h h' : Hub) (e : Exit) (es : List Exit)
      → ((f : Exit) → IsApart e.1 f.1 → IsComing h f → IsComing h' f)
      → All (λ (f : Exit). IsApart e.1 f.1) es
      → All (IsComing h) es
      → All (IsComing h') es
  All-IsComing h h' e [] go apart coming = tt
  All-IsComing h h' e (f ∷ es) go apart coming =
      (go f apart.0 coming.0, All-IsComing h h' e es go apart.1 coming.1)

  round_lem :
      (es later : List Exit) (h : Hub) (g : Signal.State)
      → IsStopping h (es ++ later)
      → (h' : Hub) × (handle_round k split_shell read_file parse serialize socket incoming
            (reported es)
            (h, g)
          ≡ (returned tt, (h', g)))
        × IsStopping h' later
  unfolding Loop.handle_events Loop.handle_each
  round_lem [] later h g s = (h, refl, s)
  round_lem (e ∷ es) later h g s =
      let (h1, ran, same, on, less) =
        run_exit_lem k split_shell read_file parse serialize socket incoming willing ends h g e
          s.coming.0 in
      let s1 : IsStopping h1 (es ++ later) = record {
        coming = All-IsComing h h1 e (es ++ later) on s.apart.0 s.coming.1;
        apart = s.apart.1;
        left = λ name. less name (ends_of name (es ++ later)) (s.left name);
      } in
      let (h2, rest, s2) = round_lem es later h1 g s1 in (h2, rw (ran) rest, s2)

  no_ends_over :
      (h : Hub) (es : List Exit) (name : Text)
      → IsStopping h es
      → ends_of name es ≡ 0
      → is_over k split_shell read_file parse serialize socket incoming h name ≡ true
  no_ends_over h es name s e = go (lookup name h.manager.jobs) (rw (e) at (s.left name))
    where
      go :
          (o : Option Job)
          → Left h.manager.config 0 o
          → Daemon.is_over k split_shell read_file parse serialize socket incoming o ≡ true
      go none l = refl
      go (some j) l = l

  over_no_ends :
      (h : Hub) (es : List Exit) (name : Text)
      → IsStopping h es
      → is_over k split_shell read_file parse serialize socket incoming h name ≡ true
      → ends_of name es ≡ 0
  over_no_ends h es name s over =
      go (lookup name h.manager.jobs) (ends_of name es) (s.left name) over
    where
      go :
          (o : Option Job) (n : ℕ)
          → Left h.manager.config n o
          → Daemon.is_over k split_shell read_file parse serialize socket incoming o ≡ true
          → n ≡ 0
      go none n l over = l
      go (some j) zero l over = refl
      go (some j) (suc n) l over = absurd cc

  no_ends_later :
      (name : Text) (es later : List Exit) → ends_of name (es ++ later) ≡ 0 → ends_of name later ≡ 0
  no_ends_later name [] later h = h
  no_ends_later name (e ∷ es) later h = elim (Bool-cases (e.0 == name)) [
    | inl same ↦ absurd (ground (arith, h))
    | inr other ↦ no_ends_later name es later (rw (other) at h)
  ]

  no_names :
      (waits : List Waited) (w : World)
      → wait_for k split_shell read_file parse serialize socket incoming [] waits w
        ≡ (returned true, w)
  unfolding Daemon.wait_jobs
  no_names waits w = refl

  next_name :
      (name : Text) (names : List Text) (waits : List Waited) (w : World)
      → is_over k split_shell read_file parse serialize socket incoming w.0 name ≡ true
      → wait_for k split_shell read_file parse serialize socket incoming (name ∷ names) waits w
        ≡ wait_for k split_shell read_file parse serialize socket incoming names waits w
  unfolding Daemon.wait_jobs
  next_name name names [] w e = rw (e, Daemon.wait_jobs) refl
  next_name name names (wait ∷ waits) w e = rw (e, Daemon.wait_jobs) refl

  abbrev Seen : List Text → Signal.State → List Exit → Outcome Bool × World → Type 0
  Seen names g es r =
      (r.0 ≡ returned true)
      × (r.1.1 ≡ g)
      × All
          (λ name.
            is_over k split_shell read_file parse serialize socket incoming r.1.0 name ≡ true)
          names
      × ((name : Text)
          → ends_of name es ≡ 0
          → is_over k split_shell read_file parse serialize socket incoming r.1.0 name ≡ true)

  one_more :
      (name : Text) (names : List Text) (g : Signal.State) (es : List Exit)
      (r : Outcome Bool × World)
      → ends_of name es ≡ 0
      → Seen names g es r
      → Seen (name ∷ names) g es r
  one_more name names g es r e (ret, same, all, rest) = (ret, same, (rest name e, all), rest)

  waited_lem :
      (names : List Text) (rounds : List (List Exit)) (h : Hub) (g : Signal.State)
      → IsStopping h (all_of rounds)
      → Seen names g (all_of rounds) (
          wait_for k split_shell read_file parse serialize socket incoming names
            (map reported rounds)
            (h, g))
  waited_lem [] rounds h g s =
      subst (Seen [] g (all_of rounds)) (sym (no_names (map reported rounds) (h, g)))
        (refl, refl, tt, λ name e. no_ends_over h (all_of rounds) name s e)
  waited_lem (name ∷ names) [] h g s =
      subst (Seen (name ∷ names) g [])
        (sym (next_name name names [] (h, g) (no_ends_over h [] name s refl)))
        (one_more name names g []
          (wait_for k split_shell read_file parse serialize socket incoming names [] (h, g)) refl
          (waited_lem names [] h g s))
  waited_lem (name ∷ names) (es ∷ rounds) h g s =
      elim (Bool-cases (is_over k split_shell read_file parse serialize socket incoming h name)) [
        | inl over ↦
            subst (Seen (name ∷ names) g (all_of (es ∷ rounds)))
              (sym (next_name name names (map reported (es ∷ rounds)) (h, g) over))
              (one_more name names g (all_of (es ∷ rounds))
                (wait_for k split_shell read_file parse serialize socket incoming names
                  (map reported (es ∷ rounds)) (h, g))
                (over_no_ends h (all_of (es ∷ rounds)) name s over)
                (waited_lem names (es ∷ rounds) h g s))
        | inr busy ↦
            let (h', ran, s') = round_lem es (all_of rounds) h g s in
            let (r, g', all, rest) = waited_lem (name ∷ names) rounds h' g s' in
            subst (Seen (name ∷ names) g (all_of (es ∷ rounds)))
              (sym (
                next_wait k split_shell read_file parse serialize socket incoming name names
                  (reported es) (map reported rounds) (h, g) (h', g) busy ran))
              (r, g', all, λ n e. rest n (no_ends_later n es (all_of rounds) e))
      ]

  -- While its jobs are stopping, the destructor of the manager ends, with every job that it waits for STOPPED
  -- or EMPTY (or gone), when the events of all the processes that were asked to stop come, in any rounds and
  -- in any order. The kernel refuses no call, `waitpid` reports ends only, and the stopping jobs have their
  -- configuration in the manager's.
  pub wait_jobs_ends :
      (names : List Text) (rounds : List (List Exit)) (h : Hub) (g : Signal.State)
      → IsStopping h (all_of rounds)
      → let r =
          wait_for k split_shell read_file parse serialize socket incoming names
            (map reported rounds)
            (h, g) in
        (r.0 ≡ returned true)
        × (r.1.1 ≡ g)
        × All
            (λ name.
              is_over k split_shell read_file parse serialize socket incoming r.1.0 name ≡ true)
            names
  wait_jobs_ends names rounds h g s =
      let (r, g', all, rest) = waited_lem names rounds h g s in (r, g', all)
