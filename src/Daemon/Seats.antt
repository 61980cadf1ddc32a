-- ===== src/Daemon/Seats.antt =====
-- How the callbacks of the other processes still find them when one process has changed in its seat
-- (the references of taskmasterd/src/jobs/Process.cpp and src/jobs/Job.cpp).
use mathlib.Core.Option.{some-injective}
use task_master.Base.{
  List, [], ◌∷◌, ◌++◌, Option, some, none, ◌≡◌, refl, sym, ap, ◌∙◌, arith, false, ◌==◌,
  if◌then◌else◌, ◌<◌, any, inl, inr, Bool-cases,
}
use task_master.Base.Text.{Text, text_key}
use task_master.Base.Assoc.{lookup, insert}
use task_master.Daemon
use task_master.Daemon.{Place}
use task_master.Job.{Job}
use task_master.Job.Stopping.{pending}
use task_master.Process
use task_master.Process.{Process}

-- The first process of the name.
unfoldable pub find : Text → List Process → Option Process
find name [] = none
find name (p ∷ ps) = if p.name == name then some p else find name ps

pub locate-find :
    (name : Text) (ps : List Process) (p : Process)
    → find name ps ≡ some p
    → (place : List Process × List Process) × (Daemon.locate name ps ≡ some (place.0, p, place.1))
unfolding find Daemon.locate
locate-find name [] p e = cc
locate-find name (x ∷ ps) p e = elim (Bool-cases (x.name == name)) [
  | inl here ↦ (
    ([], ps),
    rw (here, Daemon.locate)
        (ap (λ y. some ([], y, ps)) (some-injective x p (rw (here, find) at e))),
  )
  | inr there ↦
      let ((b, a), q) = locate-find name ps p (rw (there, find) at e) in
      ((x ∷ b, a), rw (there, Daemon.locate, q) refl)
]

pub find_name :
    (name : Text) (ps : List Process) (p : Process) → find name ps ≡ some p → p.name ≡ name
unfolding find
find_name name [] p e = cc
find_name name (x ∷ ps) p e = elim (Bool-cases (x.name == name)) [
  | inl here ↦
      ap (λ (y : Process). y.name) (sym (some-injective x p (rw (here, find) at e)))
      ∙ (text_key.same_iff x.name name).0 here
  | inr there ↦ find_name name ps p (rw (there, find) at e)
]

pub find_other :
    (other : Text) (before after : List Process) (p q : Process)
    → q.name ≡ p.name
    → (p.name == other) ≡ false
    → find other (before ++ q ∷ after) ≡ find other (before ++ p ∷ after)
unfolding find
find_other other [] after p q e d = rw (e, d) refl
find_other other (x ∷ before) after p q e d = ground (arith, find_other other before after p q e d)

pub holds_same :
    (name : Text) (before after : List Process) (p q : Process)
    → q.name ≡ p.name
    → any (λ (x : Process). x.name == name) (before ++ q ∷ after)
      ≡ any (λ (x : Process). x.name == name) (before ++ p ∷ after)
holds_same name [] after p q e = rw (e) refl
holds_same name (x ∷ before) after p q e = ground (arith, holds_same name before after p q e)

pub holder-insert :
    (name key : Text) (j' j : Job) (jobs : List (Text × Job))
    → lookup key jobs ≡ some j
    → Daemon.holds name j' ≡ Daemon.holds name j
    → Daemon.holder name (insert key j' jobs) ≡ Daemon.holder name jobs
unfolding Daemon.holder insert lookup
holder-insert name key j' j [] found e = cc
holder-insert name key j' j ((k, x) ∷ jobs) found e = elim (Bool-cases (k == key)) [
  | inl same ↦
      let j_is : x ≡ j = some-injective x j (rw (same, lookup) at found) in
      rw (same, insert, Daemon.holder, e, j_is, (text_key.same_iff k key).0 same) refl
  | inr other ↦
      rw (other, insert, Daemon.holder)
        (ap (λ o. if Daemon.holds name x then some k else o)
          (holder-insert name key j' j jobs (rw (other, lookup) at found) e))
]

-- A process that is stopping has to be waited for.
pub find-pending :
    (name : Text) (ps : List Process) (p : Process)
    → find name ps ≡ some p
    → p.state ≡ Process.State.stopping
    → 0 < pending ps
unfolding find
find-pending name [] p e st = cc
find-pending name (x ∷ ps) p e st = elim (Bool-cases (x.name == name)) [
  | inl here ↦ rw (some-injective x p (rw (here, find) at e), st) (omega arith)
  | inr there ↦ ground (arith, find-pending name ps p (rw (there, find) at e) st)
]
