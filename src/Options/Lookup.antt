-- ===== src/Options/Lookup.antt =====
-- Which jobs `JobConfig::getJobConfigs` (taskmasterd/src/jobs/JobConfig.cpp) finds in a file.
use task_master.Base.{
  List, [], ◌∷◌, Option, some, none, Bool, true, false, not, ◌&&◌, ◌||◌, any, ◌≡◌, refl, ◌∙◌,
  if◌then◌else◌, All, ◌==◌, Bool-cases, inl, inr, arith,
}
use task_master.Base.Text.{Text, codes, text_key, text_beq_refl, eq-of-text_beq}
use task_master.Base.Assoc.{lookup, lookup-insert}
use task_master.Config.{JobConfig, ConfigMap}
use task_master.Options.{Yaml, Result, success, failure, ◌>>=◌}
use task_master.Options.File.{
  job_config, read_jobs, get_job_configs, add_job, store, child, is_found,
}

-- What the map holds, once names with the outcome `o` have come up, if they have.
abbrev settled : Option JobConfig → Bool → Option JobConfig → Option JobConfig
settled (some c) b o = some c
settled none b o = if b then o else none

settled_twice :
    (l : Option JobConfig) (b d : Bool) (o : Option JobConfig)
    → settled (settled l b o) d o ≡ settled l (b || d) o
settled_twice (some c) b d o = refl
settled_twice none false d o = refl
settled_twice none true d (some c) = refl
settled_twice none true true none = refl
settled_twice none true false none = refl

settled_never : (l o : Option JobConfig) → l ≡ settled l false o
settled_never none o = refl
settled_never (some c) o = refl

abbrev pub value_of : Result JobConfig → Option JobConfig
value_of (success c) = some c
value_of (failure e) = none

module _ {Node : Type 0} (yaml : Yaml Node) (exists : Text → Option Bool) where
  abbrev is_named : Option Text → Text → Bool
  is_named none name = false
  is_named (some n) name = n == name

  -- The entry is of the job `name`.
  abbrev pub names : Text → Node × Node → Bool
  names name entry = not (yaml.is_null entry.0) && is_named (yaml.as_string entry.0) name

  abbrev pub read_job : Node → Text → Option JobConfig
  read_job config name = value_of (child yaml exists config name >>= job_config yaml exists name)

  lookup-store :
      (n name : Text) (r : Result JobConfig) (configs : ConfigMap)
      → lookup name (store yaml exists n r configs) ≡ (
          if n == name
          then (elim r [ success c ↦ some c | failure e ↦ lookup name configs ])
          else lookup name configs)
  lookup-store n name (success c) configs = lookup-insert n name c configs
  lookup-store n name (failure e) configs = ground arith

  added_same :
      (name : Text) (r : Result JobConfig) (configs : ConfigMap)
      → lookup name (
          if is_found yaml exists (lookup name configs)
          then configs
          else store yaml exists name r configs)
        ≡ settled (lookup name configs) true (value_of r)
  added_same name (success c) configs =
      ground (arith, lookup-insert name name c configs, text_beq_refl name)
  added_same name (failure e) configs = ground arith

  added_other :
      (n name : Text) (r : Result JobConfig) (configs : ConfigMap)
      → (n == name) ≡ false
      → lookup name (
          if is_found yaml exists (lookup n configs)
          then configs
          else store yaml exists n r configs)
        ≡ lookup name configs
  added_other n name (success c) configs h = ground (arith, lookup-insert n name c configs, h)
  added_other n name (failure e) configs h = ground arith

  lookup-add_job :
      (config : Node) (null : Bool) (n name : Text) (configs : ConfigMap)
      → lookup name (add_job yaml exists config null n configs)
        ≡ settled (lookup name configs) (not null && n == name) (read_job config name)
  lookup-add_job config true n name configs =
      settled_never (lookup name configs) (read_job config name)
  lookup-add_job config false n name configs = elim (Bool-cases (n == name)) [
    | inl e ↦
        rw (eq-of-text_beq n name e, text_beq_refl name)
          (added_same name (child yaml exists config name >>= job_config yaml exists name) configs)
    | inr e ↦ rw e (
        added_other n name (child yaml exists config n >>= job_config yaml exists n) configs e
        ∙ settled_never (lookup name configs) (read_job config name))
  ]

  -- The key of the entry is a string.
  abbrev pub IsString : Node × Node → Type 0
  IsString entry = (n : Text) × (yaml.as_string entry.0 ≡ some n)

  read_jobs-Finds :
      (config : Node) (jobs : List (Node × Node)) (configs : ConfigMap)
      → All IsString jobs
      → (out : ConfigMap) × (read_jobs yaml exists config jobs configs ≡ success out)
        × ((name : Text)
            → lookup name out
              ≡ settled (lookup name configs) (any (names name) jobs) (read_job config name))
  unfolding read_jobs ◌>>=◌
  read_jobs-Finds config [] configs k =
      (configs, refl, λ name. settled_never (lookup name configs) (read_job config name))
  read_jobs-Finds config ((key, value) ∷ rest) configs ((n, e), k) =
      let null = yaml.is_null key in
      let (out, q, finds) =
        read_jobs-Finds config rest (add_job yaml exists config null n configs) k in
      (
        out,
        rw e q,
        λ name.
            finds name
            ∙ rw (lookup-add_job config null n name configs, e)
                (settled_twice (lookup name configs) (not null && n == name) (any (names name) rest)
                  (read_job config name)),
      )

  -- A file with jobs whose names are strings can always be read, and for each name the map has a job
  -- exactly if an entry with that name, and a key that is not null, is in the file and the options
  -- under the name can be read: it is the job that they make.
  pub get_job_configs-lookup :
      (root config : Node)
      → yaml.subscript root (codes "jobs") ≡ some config
      → yaml.is_defined config ≡ true
      → All IsString (yaml.entries config)
      → (configs : ConfigMap) × (get_job_configs yaml exists (some root) ≡ success configs)
        × ((name : Text)
            → lookup name configs
              ≡ (if any (names name) (yaml.entries config) then read_job config name else none))
  unfolding get_job_configs ◌>>=◌ lookup
  get_job_configs-lookup root config s d k =
      let (out, q, finds) = read_jobs-Finds config (yaml.entries config) [] k in
      (out, rw (s, d) q, finds)
