-- ===== src/Config/Members.antt =====
-- What the comparisons of the members of `JobConfig` decide.
use mathlib.Core.Option.{some-injective}
use task_master.Base.{
  ℕ, List, [], ◌∷◌, Option, some, none, Bool, true, false, ◌≡◌, refl, sym, ap, ◌∙◌, ◌↔◌, arith,
  nat_beq, nat_beq_iff, if◌then◌else◌,
}
use task_master.Base.Int.{ℤ, int_key}
use task_master.Base.Text.{Text, text_key, text_beq_iff}
use task_master.Config.{
  RestartPolicy, never, always, on_failure, policy_beq, bool_beq, codes_beq, path_beq,
}
use task_master.Signal
use task_master.Signal.{Signals, number}

pub policy_beq_iff : (a b : RestartPolicy) → (policy_beq a b ≡ true) ↔ (a ≡ b)
unfolding policy_beq
policy_beq_iff never never = (λ h. refl, λ e. refl)
policy_beq_iff never always = (λ h. cc, λ e. cc)
policy_beq_iff never on_failure = (λ h. cc, λ e. cc)
policy_beq_iff always never = (λ h. cc, λ e. cc)
policy_beq_iff always always = (λ h. refl, λ e. refl)
policy_beq_iff always on_failure = (λ h. cc, λ e. cc)
policy_beq_iff on_failure never = (λ h. cc, λ e. cc)
policy_beq_iff on_failure always = (λ h. cc, λ e. cc)
policy_beq_iff on_failure on_failure = (λ h. refl, λ e. refl)

pub bool_beq_iff : (a b : Bool) → (bool_beq a b ≡ true) ↔ (a ≡ b)
unfolding bool_beq
bool_beq_iff true true = (λ h. refl, λ e. refl)
bool_beq_iff true false = (λ h. cc, λ e. cc)
bool_beq_iff false true = (λ h. cc, λ e. cc)
bool_beq_iff false false = (λ h. refl, λ e. refl)

pub codes_beq_iff : (a b : List ℤ) → (codes_beq a b ≡ true) ↔ (a ≡ b)
unfolding codes_beq
codes_beq_iff [] [] = (λ h. refl, λ e. refl)
codes_beq_iff [] (y ∷ b) = (λ h. cc, λ e. cc)
codes_beq_iff (x ∷ a) [] = (λ h. cc, λ e. cc)
codes_beq_iff (x ∷ a) (y ∷ b) = (
  λ h. ground (arith, int_key.same_iff x y, codes_beq_iff a b),
  λ e. ground (arith, int_key.same_iff x y, codes_beq_iff a b),
)

pub path_beq_iff : (a b : Option Text) → (path_beq a b ≡ true) ↔ (a ≡ b)
unfolding path_beq
path_beq_iff none none = (λ h. refl, λ e. refl)
path_beq_iff none (some b) = (λ h. cc, λ e. cc)
path_beq_iff (some a) none = (λ h. cc, λ e. cc)
path_beq_iff (some a) (some b) =
    (λ h. ap some ((text_beq_iff a b).0 h), λ e. (text_beq_iff a b).1 (some-injective a b e))

-- The signal of a number.
abbrev signal_of : ℕ → Option Signals
signal_of n =
    if nat_beq n 1
    then some Signal.hup
    else if nat_beq n 2
    then some Signal.int
    else if nat_beq n 3
    then some Signal.quit
    else if nat_beq n 9
    then some Signal.kill
    else if nat_beq n 10
    then some Signal.usr1
    else if nat_beq n 12
    then some Signal.usr2
    else some Signal.term

signal_of-number : (s : Signals) → signal_of (number s) ≡ some s
unfolding number
signal_of-number Signal.hup = refl
signal_of-number Signal.int = refl
signal_of-number Signal.quit = refl
signal_of-number Signal.kill = refl
signal_of-number Signal.usr1 = refl
signal_of-number Signal.usr2 = refl
signal_of-number Signal.term = refl

pub number_iff : (a b : Signals) → (nat_beq (number a) (number b) ≡ true) ↔ (a ≡ b)
number_iff a b = (
  λ h. some-injective a b (
      sym (signal_of-number a)
      ∙ ap signal_of ((nat_beq_iff (number a) (number b)).0 h)
      ∙ signal_of-number b),
  λ e. (nat_beq_iff (number a) (number b)).1 (ap number e),
)
