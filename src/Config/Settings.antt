-- ===== src/Config/Settings.antt =====
-- What the comparison of two configurations (`JobConfig::operator==`) decides: equality of the settings, where
-- the environment is a map without an order.
use mathlib.Core.Quot
use mathlib.Core.Quot.{Quot, Quot-set}
use mathlib.Core.Option.{some-injective}
use task_master.Base.{
  ℕ, List, [], ◌∷◌, Option, some, none, Bool, true, ◌≡◌, refl, ap, ◌↔◌, All, length, all, nat_beq,
  nat_beq_iff, &&-eq-true,
}
use task_master.Base.Int.{ℤ, int_key}
use task_master.Base.Text.{Text, text_key, text_beq_iff}
use task_master.Base.Assoc.{lookup, IsMap}
use task_master.Base.Assoc.Same.{HasEntry, SameEntries, SameEntries-held, held-SameEntries}
use task_master.Config.{JobConfig, EnvMap, RestartPolicy, holds_entry, env_beq, config_beq}
use task_master.Signal.{Signals}
use task_master.Config.Members.{
  policy_beq_iff, bool_beq_iff, codes_beq_iff, path_beq_iff, number_iff,
}

-- Environments with the same variables are one.
abbrev pub Environment : Type 0
Environment = Quot (SameEntries {K = Text} {V = Text})

abbrev pub of_map : EnvMap → Environment
of_map = Quot.mk

unfoldable pub variable : Text → Environment → Option Text
unfolding lookup
variable name = Quot.lift (hlevel) (lookup name) (λ a b same. same name)

-- The settings of a job, as they count.
pub record Settings : Type 0 where
  pub name : Text
  pub cmd : Text
  pub working_dir : Text
  pub numprocs : ℤ
  pub umask : ℕ
  pub autostart : Bool
  pub restart_policy : RestartPolicy
  pub exit_codes : List ℤ
  pub start_retries : ℤ
  pub start_time : ℤ
  pub stop_time : ℤ
  pub stop_signal : Signals
  pub out : Option Text
  pub err : Option Text
  pub env : Environment

abbrev pub settings : JobConfig → Settings
settings c = record {
  name = c.name;
  cmd = c.cmd;
  working_dir = c.working_dir;
  numprocs = c.numprocs;
  umask = c.umask;
  autostart = c.autostart;
  restart_policy = c.restart_policy;
  exit_codes = c.exit_codes;
  start_retries = c.start_retries;
  start_time = c.start_time;
  stop_time = c.stop_time;
  stop_signal = c.stop_signal;
  out = c.out;
  err = c.err;
  env = of_map c.env;
}

entry_held : (o : Option Text) (v : Text) → (holds_entry o v ≡ true) ↔ (o ≡ some v)
unfolding holds_entry
entry_held none v = (λ h. cc, λ e. cc)
entry_held (some w) v =
    (λ h. ap some ((text_beq_iff w v).0 h), λ e. (text_beq_iff w v).1 (some-injective w v e))

entries_held :
    (rest b : EnvMap)
    → (all (λ entry. holds_entry (lookup entry.0 b) entry.1) rest ≡ true) ↔ All (HasEntry b) rest
entries_held [] b = (λ h. tt, λ h. refl)
entries_held ((k, v) ∷ rest) b = (
  λ h.
      let (now, more) =
        &&-eq-true (holds_entry (lookup k b) v)
          (all (λ entry. holds_entry (lookup entry.0 b) entry.1) rest) h in
      ((entry_held (lookup k b) v).0 now, (entries_held rest b).0 more),
  λ h. rw ((entry_held (lookup k b) v).1 h.0) ((entries_held rest b).1 h.1),
)

env_beq_iff : (a b : EnvMap) → IsMap a → IsMap b → (env_beq a b ≡ true) ↔ (of_map a ≡ of_map b)
unfolding env_beq variable
env_beq_iff a b ma mb = (
  λ h.
      let (len, held) =
        &&-eq-true (nat_beq (length a) (length b))
          (all (λ entry. holds_entry (lookup entry.0 b) entry.1) a) h in
      Quot.sound (
        SameEntries-held a b ma mb ((nat_beq_iff (length a) (length b)).0 len)
          ((entries_held a b).0 held)),
  λ e.
      let (len, held) = held-SameEntries a b ma mb (λ k. ap (variable k) e) in
      rw ((nat_beq_iff (length a) (length b)).1 len) ((entries_held a b).1 held),
)

settings_same :
    (a b : JobConfig)
    → a.name ≡ b.name
    → a.cmd ≡ b.cmd
    → a.working_dir ≡ b.working_dir
    → a.numprocs ≡ b.numprocs
    → a.umask ≡ b.umask
    → a.autostart ≡ b.autostart
    → a.restart_policy ≡ b.restart_policy
    → a.exit_codes ≡ b.exit_codes
    → a.start_retries ≡ b.start_retries
    → a.start_time ≡ b.start_time
    → a.stop_time ≡ b.stop_time
    → a.stop_signal ≡ b.stop_signal
    → a.out ≡ b.out
    → a.err ≡ b.err
    → of_map a.env ≡ of_map b.env
    → settings a ≡ settings b
settings_same a b p0 p1 p2 p3 p4 p5 p6 p7 p8 p9 p10 p11 p12 p13 p14 =
    rw (p0, p1, p2, p3, p4, p5, p6, p7, p8, p9, p10, p11, p12, p13, p14) refl

-- Two configurations whose environments are maps compare equal exactly if they are the same settings: all
-- members are the same, the environments up to the order of their variables.
pub config_beq-settings :
    (a b : JobConfig)
    → IsMap a.env
    → IsMap b.env
    → (config_beq a b ≡ true) ↔ (settings a ≡ settings b)
unfolding config_beq
config_beq-settings a b ma mb = (
  λ h.
      let (h14, e14) = &&-eq-true _ _ h in
      let (h13, e13) = &&-eq-true _ _ h14 in
      let (h12, e12) = &&-eq-true _ _ h13 in
      let (h11, e11) = &&-eq-true _ _ h12 in
      let (h10, e10) = &&-eq-true _ _ h11 in
      let (h9, e9) = &&-eq-true _ _ h10 in
      let (h8, e8) = &&-eq-true _ _ h9 in
      let (h7, e7) = &&-eq-true _ _ h8 in
      let (h6, e6) = &&-eq-true _ _ h7 in
      let (h5, e5) = &&-eq-true _ _ h6 in
      let (h4, e4) = &&-eq-true _ _ h5 in
      let (h3, e3) = &&-eq-true _ _ h4 in
      let (h2, e2) = &&-eq-true _ _ h3 in
      let (h1, e1) = &&-eq-true _ _ h2 in
      settings_same a b ((text_beq_iff a.name b.name).0 h1) ((text_beq_iff a.cmd b.cmd).0 e1)
        ((text_beq_iff a.working_dir b.working_dir).0 e2)
        ((int_key.same_iff a.numprocs b.numprocs).0 e3) ((nat_beq_iff a.umask b.umask).0 e4)
        ((bool_beq_iff a.autostart b.autostart).0 e5)
        ((policy_beq_iff a.restart_policy b.restart_policy).0 e6)
        ((codes_beq_iff a.exit_codes b.exit_codes).0 e7)
        ((int_key.same_iff a.start_retries b.start_retries).0 e8)
        ((int_key.same_iff a.start_time b.start_time).0 e9)
        ((int_key.same_iff a.stop_time b.stop_time).0 e10)
        ((number_iff a.stop_signal b.stop_signal).0 e11) ((path_beq_iff a.out b.out).0 e12)
        ((path_beq_iff a.err b.err).0 e13) ((env_beq_iff a.env b.env ma mb).0 e14),
  λ e.
      rw
        (
          (text_beq_iff a.name b.name).1 (ap (λ s. s.name) e),
          (text_beq_iff a.cmd b.cmd).1 (ap (λ s. s.cmd) e),
          (text_beq_iff a.working_dir b.working_dir).1 (ap (λ s. s.working_dir) e),
          (int_key.same_iff a.numprocs b.numprocs).1 (ap (λ s. s.numprocs) e),
          (nat_beq_iff a.umask b.umask).1 (ap (λ s. s.umask) e),
          (bool_beq_iff a.autostart b.autostart).1 (ap (λ s. s.autostart) e),
          (policy_beq_iff a.restart_policy b.restart_policy).1 (ap (λ s. s.restart_policy) e),
          (codes_beq_iff a.exit_codes b.exit_codes).1 (ap (λ s. s.exit_codes) e),
          (int_key.same_iff a.start_retries b.start_retries).1 (ap (λ s. s.start_retries) e),
          (int_key.same_iff a.start_time b.start_time).1 (ap (λ s. s.start_time) e),
          (int_key.same_iff a.stop_time b.stop_time).1 (ap (λ s. s.stop_time) e),
          (number_iff a.stop_signal b.stop_signal).1 (ap (λ s. s.stop_signal) e),
          (path_beq_iff a.out b.out).1 (ap (λ s. s.out) e),
          (path_beq_iff a.err b.err).1 (ap (λ s. s.err) e),
          (env_beq_iff a.env b.env ma mb).1 (ap (λ s. s.env) e),
        )
        refl,
)
