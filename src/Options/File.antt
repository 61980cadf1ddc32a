-- ===== src/Options/File.antt =====
-- The constructor of `JobConfig` and `JobConfig::getJobConfigs` (taskmasterd/src/jobs/JobConfig.cpp).
use task_master.Base.{List, [], ◌∷◌, Option, some, none, Bool, true, false, not, if◌then◌else◌}
use task_master.Base.Text.{Text, codes, text_key}
use task_master.Base.Assoc.{lookup, insert}
use task_master.Config.{JobConfig, ConfigMap}
use task_master.Options.{
  Yaml, Result, success, failure, or_fail, bad_subscript, bad_file, no_jobs, ◌>>=◌, string,
  parse_cmd, parse_number_processes, parse_umask, parse_working_dir, parse_auto_start,
  parse_auto_restart, parse_exit_codes, parse_start_retries, parse_start_time, parse_stop_signal,
  parse_stop_time, parse_redirect, parse_env,
}

module _ {Node : Type 0} (yaml : Yaml Node) (exists : Text → Option Bool) where
  -- The loop that warns of unknown options: each key must be a string.
  check_options : List (Node × Node) → Result (Unit {0})
  check_options [] = success tt
  check_options ((key, value) ∷ rest) = string yaml exists key >>= λ option. check_options rest

  abbrev pub child : Node → Text → Result Node
  child node key = or_fail bad_subscript (yaml.subscript node key)

  -- `JobConfig::JobConfig`
  unfoldable pub job_config : Text → Node → Result JobConfig
  unfolding check_options
  job_config name config = do
    _ ← check_options (yaml.entries config)
    cmd ← child config (codes "cmd") >>= parse_cmd yaml exists
    numprocs ← child config (codes "numprocs") >>= parse_number_processes yaml exists
    umask ← child config (codes "umask") >>= parse_umask yaml exists
    working_dir ← child config (codes "workingdir") >>= parse_working_dir yaml exists
    autostart ← child config (codes "autostart") >>= parse_auto_start yaml exists
    restart_policy ← child config (codes "autorestart") >>= parse_auto_restart yaml exists
    exit_codes ← child config (codes "exitcodes") >>= parse_exit_codes yaml exists
    start_retries ← child config (codes "startretries") >>= parse_start_retries yaml exists
    start_time ← child config (codes "starttime") >>= parse_start_time yaml exists
    stop_signal ← child config (codes "stopsignal") >>= parse_stop_signal yaml exists
    stop_time ← child config (codes "stoptime") >>= parse_stop_time yaml exists
    out ← child config (codes "stdout") >>= parse_redirect yaml exists
    err ← child config (codes "stderr") >>= parse_redirect yaml exists
    env ← child config (codes "env") >>= parse_env yaml exists
    success (record {
      name = name;
      cmd = cmd;
      working_dir = working_dir;
      numprocs = numprocs;
      umask = umask;
      autostart = autostart;
      restart_policy = restart_policy;
      exit_codes = exit_codes;
      start_retries = start_retries;
      start_time = start_time;
      stop_time = stop_time;
      stop_signal = stop_signal;
      out = out;
      err = err;
      env = env;
    })

  -- A job that cannot be read is skipped.
  abbrev pub store : Text → Result JobConfig → ConfigMap → ConfigMap
  store name (success c) configs = insert name c configs
  store name (failure e) configs = configs

  abbrev pub is_found : Option JobConfig → Bool
  is_found none = false
  is_found (some c) = true

  -- The body of the loop, behind the conversion of the name.
  abbrev pub add_job : Node → Bool → Text → ConfigMap → ConfigMap
  add_job config null name configs =
      if null
      then configs
      else if is_found (lookup name configs)
      then configs
      else store name (child config name >>= job_config name) configs

  unfoldable pub read_jobs : Node → List (Node × Node) → ConfigMap → Result ConfigMap
  read_jobs config [] configs = success configs
  read_jobs config ((key, value) ∷ rest) configs = string yaml exists key >>= λ name.
      read_jobs config rest (add_job config (yaml.is_null key) name configs)

  -- `getJobConfigs`, by the root that `LoadFile` returns or throws for.
  unfoldable pub get_job_configs : Option Node → Result ConfigMap
  unfolding read_jobs
  get_job_configs root = do
    root ← or_fail bad_file root
    config ← child root (codes "jobs")
    if not (yaml.is_defined config)
        then failure no_jobs
        else read_jobs config (yaml.entries config) []
