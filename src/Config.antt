-- ===== src/Config.antt =====
-- taskmasterd/include/jobs/JobConfig.hpp: the settings of a job, and their comparison.
pub mod Members
pub mod Settings
use task_master.Base.{
  ℕ, List, [], ◌∷◌, Option, some, none, Bool, true, false, ◌&&◌, length, all, ◌==◌, nat_beq,
}
use task_master.Base.Int.{ℤ, int_key}
use task_master.Base.Text.{Text, text_key}
use task_master.Base.Assoc.{lookup}
use task_master.Signal.{Signals, number}

pub data RestartPolicy : Type 0 where
  never always on_failure : RestartPolicy

abbrev pub EnvMap : Type 0
EnvMap = List (Text × Text)

pub record JobConfig : Type 0 where
  pub name : Text
  pub cmd : Text
  pub working_dir : Text
  pub numprocs : ℤ
  pub umask : ℕ
  pub autostart : Bool
  pub restart_policy : RestartPolicy
  pub exit_codes : List ℤ
  pub start_retries : ℤ
  pub start_time : ℤ
  pub stop_time : ℤ
  pub stop_signal : Signals
  pub out : Option Text
  pub err : Option Text
  pub env : EnvMap

unfoldable pub policy_beq : RestartPolicy → RestartPolicy → Bool
policy_beq never never = true
policy_beq always always = true
policy_beq on_failure on_failure = true
policy_beq _ _ = false

unfoldable pub bool_beq : Bool → Bool → Bool
bool_beq true true = true
bool_beq false false = true
bool_beq _ _ = false

unfoldable pub codes_beq : List ℤ → List ℤ → Bool
codes_beq [] [] = true
codes_beq (a ∷ s) (b ∷ t) = a == b && codes_beq s t
codes_beq _ _ = false

unfoldable pub path_beq : Option Text → Option Text → Bool
path_beq none none = true
path_beq (some a) (some b) = a == b
path_beq _ _ = false

unfoldable pub holds_entry : Option Text → Text → Bool
holds_entry none v = false
holds_entry (some w) v = w == v

-- `==` of two `unordered_map`s, whatever the order of their entries.
unfoldable pub env_beq : EnvMap → EnvMap → Bool
unfolding holds_entry lookup
env_beq a b =
    nat_beq (length a) (length b) && all (λ entry. holds_entry (lookup entry.0 b) entry.1) a

-- `operator==`, defaulted: member by member.
unfoldable pub config_beq : JobConfig → JobConfig → Bool
unfolding policy_beq bool_beq codes_beq path_beq env_beq
config_beq a b =
    a.name == b.name
    && a.cmd == b.cmd
    && a.working_dir == b.working_dir
    && a.numprocs == b.numprocs
    && nat_beq a.umask b.umask
    && bool_beq a.autostart b.autostart
    && policy_beq a.restart_policy b.restart_policy
    && codes_beq a.exit_codes b.exit_codes
    && a.start_retries == b.start_retries
    && a.start_time == b.start_time
    && a.stop_time == b.stop_time
    && nat_beq (number a.stop_signal) (number b.stop_signal)
    && path_beq a.out b.out
    && path_beq a.err b.err
    && env_beq a.env b.env

-- The configuration file by job name; the key is the job's name.
abbrev pub ConfigMap : Type 0
ConfigMap = List (Text × JobConfig)
