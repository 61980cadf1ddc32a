-- ===== src/Options.antt =====
-- taskmasterd/src/jobs/JobConfig.cpp: the options of a job, read from a YAML node. Each function that
-- sets a member of the object returns the member's value here. yaml-cpp and the file system are
-- parameters.
pub mod File
pub mod Values
pub mod Keyed
pub mod Lookup
pub mod Redirects
use task_master.Base.{
  ℕ, ◌+◌, ◌*◌, ◌-◌, List, [], ◌∷◌, reverse, Option, some, none, Bool, true, false, not, ◌&&◌,
  if◌then◌else◌, length, all, nat_beq, leb,
}
use task_master.Base.Int.{ℤ, pos, negsuc}
use task_master.Base.Text.{Text, codes, text_key}
use task_master.Base.Assoc.{lookup, insert}
use task_master.Config.{RestartPolicy, never, always, on_failure, EnvMap, JobConfig}
use task_master.Signal
use task_master.Signal.{Signals}

-- What the parsers throw, and what yaml-cpp and the file system throw under them.
pub data Failure : Type 0 where
  cmd_required invalid_umask unsupported_restart unsupported_signal no_jobs : Failure
  bad_file bad_conversion bad_subscript bad_path : Failure

pub data Result {ℓ} (A : Type ℓ) : Type ℓ where
  success : A → Result A
  failure : Failure → Result A

module _ {ℓ κ} {A : Type ℓ} {B : Type κ} where
  infixl 5 ◌>>=◌
  unfoldable pub ◌>>=◌ : Result A → (A → Result B) → Result B
  ◌>>=◌ (success a) f = f a
  ◌>>=◌ (failure e) f = failure e

abbrev pub or_fail {ℓ} : {A : Type ℓ} → Failure → Option A → Result A
or_fail e none = failure e
or_fail e (some a) = success a

-- `YAML::Node`, as a constant; `none` is an exception.
pub record Yaml (Node : Type 0) : Type 0 where
  pub is_defined : Node → Bool
  pub is_null : Node → Bool
  pub is_scalar : Node → Bool
  pub as_string : Node → Option Text
  pub as_i32 : Node → Option ℤ
  pub as_bool : Node → Option Bool
  pub as_vector : Node → Option (List ℤ)
  pub entries : Node → List (Node × Node)
  pub subscript : Node → Text → Option Node

-- The digits 0 to 7.
abbrev pub is_octal : ℕ → Bool
is_octal c = leb b'0' c && leb c b'7'

-- `std::stoi` in base 8, of digits.
unfoldable pub octal : ℕ → Text → ℕ
octal acc [] = acc
octal acc (c ∷ s) = octal (acc * 8 + (c - b'0')) s

unfoldable pub umask_of : Text → Result ℕ
unfolding octal
umask_of result =
    if not (nat_beq (length result) 3 && all is_octal result)
    then failure invalid_umask
    else success (octal 0 result)

abbrev pub policies : List (Text × RestartPolicy)
policies = (codes "true", always) ∷ (codes "unexpected", on_failure) ∷ (codes "false", never) ∷ []

abbrev pub signals : List (Text × Signals)
signals =
    (codes "HUP", Signal.Signals.hup)
    ∷ (codes "INT", Signal.Signals.int)
    ∷ (codes "TERM", Signal.Signals.term)
    ∷ (codes "QUIT", Signal.Signals.quit)
    ∷ (codes "KILL", Signal.Signals.kill)
    ∷ (codes "USR1", Signal.Signals.usr1)
    ∷ (codes "USR2", Signal.Signals.usr2)
    ∷ []

-- `<` of `int32_t`, and `std::sort`.
abbrev pub int_leb : ℤ → ℤ → Bool
int_leb (pos a) (pos b) = leb a b
int_leb (negsuc a) (negsuc b) = leb b a
int_leb (negsuc a) (pos b) = true
int_leb (pos a) (negsuc b) = false

unfoldable pub place : ℤ → List ℤ → List ℤ
place a [] = a ∷ []
place a (b ∷ s) = if int_leb a b then a ∷ b ∷ s else b ∷ place a s

unfoldable pub sort : List ℤ → List ℤ
unfolding place
sort [] = []
sort (a ∷ s) = place a (sort s)

-- `parent_path()`, on the reversed text: the file name goes, then the separators before it, but for
-- the one of the root.
abbrev pub drop_name : Text → Text
drop_name [] = []
drop_name (c ∷ s) = if nat_beq c b'/' then c ∷ s else drop_name s

abbrev pub drop_separators : Text → Text
drop_separators [] = []
drop_separators (c ∷ []) = c ∷ []
drop_separators (c ∷ d ∷ s) = if nat_beq c b'/' then drop_separators (d ∷ s) else c ∷ d ∷ s

unfoldable pub parent_path : Text → Text
parent_path path = reverse (drop_separators (drop_name (reverse path)))

module _ {Node : Type 0} (yaml : Yaml Node) (exists : Text → Option Bool) where
  abbrev default {ℓ} : {A : Type ℓ} → A → (Node → Result A) → Node → Result A
  default a f node = if not (yaml.is_defined node) then success a else f node

  abbrev pub string : Node → Result Text
  string node = or_fail bad_conversion (yaml.as_string node)

  abbrev i32 : Node → Result ℤ
  i32 node = or_fail bad_conversion (yaml.as_i32 node)

  unfoldable pub parse_cmd : Node → Result Text
  parse_cmd node = if not (yaml.is_defined node) then failure cmd_required else string node

  unfoldable pub parse_number_processes : Node → Result ℤ
  parse_number_processes = default (pos 1) i32

  unfoldable pub parse_umask : Node → Result ℕ
  unfolding umask_of
  parse_umask = default 18 (λ node. string node >>= umask_of)

  unfoldable pub parse_working_dir : Node → Result Text
  parse_working_dir = default (codes ".") string

  unfoldable pub parse_auto_start : Node → Result Bool
  parse_auto_start = default true (λ node. or_fail bad_conversion (yaml.as_bool node))

  unfoldable pub parse_auto_restart : Node → Result RestartPolicy
  unfolding lookup
  parse_auto_restart =
      default on_failure
        (λ node. string node >>= λ word. or_fail unsupported_restart (lookup word policies))

  abbrev single : ℤ → List ℤ
  single code = code ∷ []

  abbrev pub exit_code_list : Node → Result (List ℤ)
  exit_code_list node =
      if yaml.is_scalar node
      then (i32 node >>= λ code. success (single code))
      else or_fail bad_conversion (yaml.as_vector node)

  unfoldable pub parse_exit_codes : Node → Result (List ℤ)
  unfolding sort
  parse_exit_codes =
      default (single (pos 0))
        (λ node. exit_code_list node >>= λ exit_codes. success (sort exit_codes))

  unfoldable pub parse_start_retries : Node → Result ℤ
  parse_start_retries = default (pos 3) i32

  unfoldable pub parse_start_time : Node → Result ℤ
  parse_start_time = default (pos 1) i32

  unfoldable pub parse_stop_signal : Node → Result Signals
  unfolding lookup
  parse_stop_signal =
      default Signal.Signals.term
        (λ node. string node >>= λ word. or_fail unsupported_signal (lookup word signals))

  unfoldable pub parse_stop_time : Node → Result ℤ
  parse_stop_time = default (pos 10) i32

  -- `parseSTDOUT` and `parseSTDERR`
  unfoldable pub parse_redirect : Node → Result (Option Text)
  unfolding parent_path
  parse_redirect = default none (λ node. string node >>= λ path.
      or_fail bad_path (exists (parent_path path)) >>= λ found.
      success (if found then some path else none))

  add_variables : List (Node × Node) → EnvMap → Result EnvMap
  unfolding insert
  add_variables [] env = success env
  add_variables ((key, value) ∷ rest) env =
      string key >>= λ k. string value >>= λ v. add_variables rest (insert k v env)

  unfoldable pub parse_env : Node → Result EnvMap
  unfolding add_variables
  parse_env = default [] (λ node. add_variables (yaml.entries node) [])
