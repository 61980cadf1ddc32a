-- ===== src/Tests/Endings.antt =====
-- The wait of ~JobManager (taskmasterd/src/jobs/JobManager.cpp) for two processes that end in two rounds.
use task_master.Base.{
  List, [], ◌∷◌, map, some, ◌≡◌, refl, true, All, inl, inr, Bool-cases, ◌==◌, subst, sym, ap, arith,
  length,
}
use task_master.Base.Int.{pos, int_key}
use task_master.Base.Text.{Text, text_key, codes, text_beq}
use task_master.Base.Assoc.{lookup, insert}
use task_master.Config.{config_beq}
use task_master.Daemon
use task_master.Daemon.{Hub}
use task_master.Daemon.Ending.{IsStopping, all_of, reported, is_over, wait_for, wait_jobs_ends}
use task_master.Daemon.Coming.{Exit, IsComing, Left, ends_of}
use task_master.Daemon.Seats.{find}
use mathlib.Core.List.{Permᴰ}
use task_master.Daemon.Closing.{IsServed, CanClose, left_to_end, close_down, shut_down_ends}
use task_master.Timer
use task_master.Exec.{returned}
use task_master.Job
use task_master.Job.{Job}
use task_master.Manager
use task_master.Manager.{for_names}
use task_master.Job.Callbacks
use task_master.Process
use task_master.Process.{Process}
use task_master.Signal
use task_master.System.{
  exit_status, process_changed, invoke, register_event, update_internal, store_callbacks,
}
use task_master.Tests.{calm-IsWilling, web, web_job, proc_in, quiet}
use task_master.Tests.Daemons.{k, split, ask_end, greeting, sends, before}
use task_master.Tests.Messages.{slow}

abbrev first : Process
first = proc_in Process.State.stopping

abbrev second : Process
second = record first { name = codes "web_1"; fd = pos 10 }

abbrev stopping_job : Job
stopping_job = record web_job { state = Callbacks.State.stopping; processes = first ∷ second ∷ [] }

abbrev mail : Job
mail = record web_job {
  config = record web { name = codes "mail" };
  state = Callbacks.State.empty;
  processes = [];
}

abbrev closing : Hub
closing = record before.0 {
  manager = record {
    jobs = (codes "mail", mail) ∷ (codes "web", stopping_job) ∷ [];
    config = (codes "web", web) ∷ [];
  };
  system = record quiet {
    read_callbacks =
        (pos 9, some (process_changed (codes "web_0")))
        ∷ (pos 10, some (process_changed (codes "web_1")))
        ∷ [];
  };
}

-- The second process ends first.
abbrev rounds : List (List Exit)
rounds = ((codes "web", second) ∷ []) ∷ ((codes "web", first) ∷ []) ∷ []

first-IsComing : IsComing closing (codes "web", first)
unfolding lookup text_beq Daemon.holder find
first-IsComing = record {
  job = stopping_job;
  found = refl;
  state = refl;
  held = refl;
  process = refl;
  asked = refl;
  registered = refl;
}

second-IsComing : IsComing closing (codes "web", second)
unfolding lookup text_beq Daemon.holder find
second-IsComing = record {
  job = stopping_job;
  found = refl;
  state = refl;
  held = refl;
  process = refl;
  asked = refl;
  registered = refl;
}

abbrev IsLeft : Text → Type 0
IsLeft name =
    Left closing.manager.config (ends_of name (all_of rounds)) (lookup name closing.manager.jobs)

closing-IsLeft : (name : Text) → IsLeft name
unfolding lookup Callbacks.manager_on_stop config_beq text_beq Signal.number
closing-IsLeft name = elim (Bool-cases (codes "mail" == name)) [
  | inl same ↦ subst IsLeft ((text_key.same_iff (codes "mail") name).0 same) refl
  | inr other ↦ elim (Bool-cases (codes "web" == name)) [
    | inl same ↦ subst IsLeft ((text_key.same_iff (codes "web") name).0 same) (refl, refl, refl)
    | inr none_left ↦ rw (other, none_left, lookup) refl
  ]
]

closing-IsStopping : IsStopping closing (all_of rounds)
unfolding text_beq
closing-IsStopping = record {
  coming = (second-IsComing, (first-IsComing, tt));
  apart = ((record { names = refl; pidfds = refl; timers = tt; timers_back = tt }, tt), (tt, tt));
  left = closing-IsLeft;
}

wait_jobs_ends_example :
    let r =
      wait_for k split
        (λ trace. inl [])
        ask_end
        greeting
        (λ fd. slow)
        sends
        (codes "mail" ∷ codes "web" ∷ [])
        (map reported rounds)
        (closing, Signal.State.terminated) in
    (r.0 ≡ returned true)
    × (r.1.1 ≡ Signal.State.terminated)
    × All
        (λ name.
          is_over k split (λ trace. inl []) ask_end greeting (λ fd. slow) sends r.1.0 name ≡ true)
        (codes "mail" ∷ codes "web" ∷ [])
wait_jobs_ends_example =
    wait_jobs_ends k split (λ trace. inl []) ask_end greeting (λ fd. slow) sends
      (calm-IsWilling (exit_status 0)) (λ t n h. cc) (codes "mail" ∷ codes "web" ∷ []) rounds
      closing Signal.State.terminated closing-IsStopping

-- Two processes that run, when the daemon begins to close.
abbrev up : Process → Process
up p = record p { state = Process.State.running }

abbrev running_job : Job
running_job = record web_job { processes = up first ∷ up second ∷ [] }

abbrev open_hub : Hub
open_hub = record closing {
  manager = record {
    jobs = (codes "mail", mail) ∷ (codes "web", running_job) ∷ [];
    config = (codes "web", web) ∷ (codes "mail", mail.config) ∷ [];
  };
}

abbrev asked : Process → Process
asked p = record p {
  state = Process.State.stopping;
  timer =
      some (record {
        fd = pos 5;
        interval = pos 10;
        state = Timer.running;
        alarm = Timer.stop_timeout;
      });
}

abbrev later_rounds : List (List Exit)
later_rounds = ((codes "web", asked second) ∷ []) ∷ ((codes "web", asked first) ∷ []) ∷ []

left :
    left_to_end k split (λ trace. inl []) ask_end greeting (λ fd. slow) sends open_hub
    ≡ (codes "web", asked first) ∷ (codes "web", asked second) ∷ []
unfolding Manager.kill for_names Manager.at_job Manager.find_job Manager.put_job Job.stop
    Job.stop_loop Job.stop_one Callbacks.deliver Callbacks.manager_on_stop Process.stop
    Process.request_stop Process.replace_timer Process.reset_timer Process.start_timer invoke
    register_event update_internal store_callbacks Timer.start Timer.create Timer.destroy lookup
    insert text_beq config_beq Signal.number
left = refl

web-IsServed : IsServed k open_hub (codes "web", up first)
unfolding Daemon.holder lookup text_beq
web-IsServed = record {
  held = refl;
  registered = refl;
  taken = λ t. refl;
  spared = (tt, ((tt, (tt, tt)), tt));
}

second-IsServed : IsServed k open_hub (codes "web", up second)
unfolding Daemon.holder lookup text_beq
second-IsServed = record {
  held = refl;
  registered = refl;
  taken = λ t. refl;
  spared = (tt, ((tt, (tt, tt)), tt));
}

mail_web : codes "mail" ≡ codes "web" → ⊥
mail_web e = ground (arith, ap length e)

open_hub-CanClose : CanClose k open_hub
unfolding lookup Callbacks.manager_on_stop config_beq text_beq Signal.number
open_hub-CanClose = record {
  distinct = ((λ e. mail_web (sym e), tt), (tt, tt));
  stoppable = (
    (λ st. refl, inl tt),
    ((λ st. refl, inr (tt, ((λ e. cc, λ e. cc), ((λ e. cc, λ e. cc), tt)), omega arith)), tt),
  );
  served = (web-IsServed, (second-IsServed, tt));
  apart = ((record { names = refl; pidfds = refl; timers = tt; timers_back = tt }, tt), (tt, tt));
}

shut_down_ends_example :
    let r =
      close_down k split
        (λ trace. inl [])
        ask_end
        greeting
        (λ fd. slow)
        sends
        later_rounds
        (open_hub, Signal.State.terminated) in
    (r.0 ≡ returned true)
    × (r.1.1 ≡ Signal.State.terminated)
    × All
        (λ name.
          is_over k split (λ trace. inl []) ask_end greeting (λ fd. slow) sends r.1.0 name ≡ true)
        (codes "mail" ∷ codes "web" ∷ [])
shut_down_ends_example =
    shut_down_ends k split (λ trace. inl []) ask_end greeting (λ fd. slow) sends
      (calm-IsWilling (exit_status 0)) (λ t n h. cc) later_rounds open_hub Signal.State.terminated
      open_hub-CanClose
      (subst (λ es. Permᴰ es (all_of later_rounds)) (sym left) (Permᴰ.swap refl refl))
