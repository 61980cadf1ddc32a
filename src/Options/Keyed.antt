-- ===== src/Options/Keyed.antt =====
-- What `JobConfig::getJobConfigs` (taskmasterd/src/jobs/JobConfig.cpp) returns for a file.
use task_master.Base.{List, [], ◌∷◌, Option, Bool, true, false, not, ◌≡◌, refl, if◌then◌else◌, All}
use task_master.Base.Text.{Text, codes, text_key}
use task_master.Base.Assoc.{lookup, IsMap}
use task_master.Base.Assoc.Keys.{All-insert, IsMap-insert}
use task_master.Config.{JobConfig, ConfigMap}
use task_master.Options.{Yaml, Result, success, failure, string}
use task_master.Options.Values.{
  Ensures, bind_inverse, Ensures-success, then-Ensures, if-Ensures, IsMask, IsSorted,
  parse_umask-Ensures, parse_exit_codes-Ensures,
}
use task_master.Options.File.{job_config, read_jobs, get_job_configs, add_job, store, is_found}

-- The name of its key, a umask below 8 ^ 3, and exit codes in order.
abbrev pub IsChecked : Text × JobConfig → Type 0
IsChecked entry = (entry.1.name ≡ entry.0) × IsMask entry.1.umask × IsSorted entry.1.exit_codes

module _ {Node : Type 0} (yaml : Yaml Node) (exists : Text → Option Bool) where
  job_config-IsChecked :
      (name : Text) (config : Node) (c : JobConfig)
      → job_config yaml exists name config ≡ success c
      → IsChecked (name, c)
  unfolding job_config
  job_config-IsChecked name config c e =
      let (_, _, e) = bind_inverse _ _ c e in
      let (cmd, _, e) = bind_inverse _ _ c e in
      let (numprocs, _, e) = bind_inverse _ _ c e in
      let (umask, um, e) = bind_inverse _ _ c e in
      let (working_dir, _, e) = bind_inverse _ _ c e in
      let (autostart, _, e) = bind_inverse _ _ c e in
      let (policy, _, e) = bind_inverse _ _ c e in
      let (exit_codes, codes, e) = bind_inverse _ _ c e in
      let (start_retries, _, e) = bind_inverse _ _ c e in
      let (start_time, _, e) = bind_inverse _ _ c e in
      let (stop_signal, _, e) = bind_inverse _ _ c e in
      let (stop_time, _, e) = bind_inverse _ _ c e in
      let (out, _, e) = bind_inverse _ _ c e in
      let (err, _, e) = bind_inverse _ _ c e in
      let (env, _, e) = bind_inverse _ _ c e in
      let (n, _, mask) = bind_inverse _ _ umask um in
      let (m, _, sorted) = bind_inverse _ _ exit_codes codes in
      Ensures-success (λ c. IsChecked (name, c)) _ c e
        (
          refl,
          Ensures-success IsMask _ umask mask (parse_umask-Ensures yaml exists n),
          Ensures-success IsSorted _ exit_codes sorted (parse_exit_codes-Ensures yaml exists m),
        )

  abbrev IsFile : ConfigMap → Type 0
  IsFile configs = IsMap configs × All IsChecked configs

  store-IsFile :
      (name : Text) (r : Result JobConfig) (configs : ConfigMap)
      → ((c : JobConfig) → r ≡ success c → IsChecked (name, c))
      → IsFile configs
      → IsFile (store yaml exists name r configs)
  store-IsFile name (success c) configs h k =
      (IsMap-insert name c configs k.0, All-insert IsChecked name c configs (h c refl) k.1)
  store-IsFile name (failure e) configs h k = k

  either-IsFile : (b : Bool) (x y : ConfigMap) → IsFile x → IsFile y → IsFile (if b then x else y)
  either-IsFile true x y h k = h
  either-IsFile false x y h k = k

  add_job-IsFile :
      (config : Node) (null : Bool) (name : Text) (configs : ConfigMap)
      → IsFile configs
      → IsFile (add_job yaml exists config null name configs)
  add_job-IsFile config true name configs k = k
  add_job-IsFile config false name configs k =
      either-IsFile (is_found yaml exists (lookup name configs)) configs _ k (
        store-IsFile name _ configs
          (λ c e. let (node, _, e) = bind_inverse _ _ c e in job_config-IsChecked name node c e) k)

  read_jobs-Ensures :
      (config : Node) (jobs : List (Node × Node)) (configs : ConfigMap)
      → IsFile configs
      → Ensures IsFile (read_jobs yaml exists config jobs configs)
  unfolding read_jobs
  read_jobs-Ensures config [] configs k = k
  read_jobs-Ensures config ((key, value) ∷ rest) configs k =
      then-Ensures IsFile (string yaml exists key) _ (λ name.
        read_jobs-Ensures config rest (add_job yaml exists config (yaml.is_null key) name configs)
          (add_job-IsFile config (yaml.is_null key) name configs k))

  -- What a file gives, if it gives anything: distinct jobs, each under its name, with a umask of three
  -- octal digits and its exit codes in order.
  pub get_job_configs-IsFile :
      (root : Option Node) (configs : ConfigMap)
      → get_job_configs yaml exists root ≡ success configs
      → IsMap configs × All IsChecked configs
  unfolding get_job_configs
  get_job_configs-IsFile root configs e =
      let (node, _, e) = bind_inverse _ _ configs e in
      let (config, _, e) = bind_inverse _ _ configs e in
      Ensures-success IsFile _ configs e (
        if-Ensures IsFile (not (yaml.is_defined config)) _ _ (λ _. tt)
          (λ _. read_jobs-Ensures config (yaml.entries config) [] (tt, tt)))
