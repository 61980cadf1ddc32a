-- ===== src/Tests/Files.antt =====
-- The theorems about taskmasterd/src/jobs/JobConfig.cpp, applied to a small file.
use mathlib.Core.List.{Permᴰ}
use task_master.Base.{
  List, [], ◌∷◌, Option, some, none, Bool, true, false, ◌≡◌, refl, any, if◌then◌else◌, All, ◌==◌,
}
use task_master.Base.Int.{ℤ, pos}
use task_master.Base.Text.{Text, codes, text_key, text_beq}
use task_master.Base.Assoc.{lookup, insert, IsMap}
use task_master.Config.{JobConfig, ConfigMap, on_failure}
use task_master.Signal
use task_master.Options.{
  Yaml, success, umask_of, sort, ◌>>=◌, parse_cmd, parse_number_processes, parse_umask,
  parse_working_dir, parse_auto_start, parse_auto_restart, parse_exit_codes, parse_start_retries,
  parse_start_time, parse_stop_signal, parse_stop_time, parse_redirect, parse_env,
}
use task_master.Options.Values.{parse_exit_codes_order}
use task_master.Options.File.{get_job_configs, job_config}
use task_master.Options.Keyed.{IsChecked, get_job_configs-IsFile}
use task_master.Options.Redirects.{IsName, parse_redirect_name}
use task_master.Options.Lookup.{names, read_job, get_job_configs-lookup}

-- A part of YAML.
mutual
  pub data Doc : Type 0 where
    absent : Doc
    scalar : Text → Doc
    number : ℤ → Doc
    numbers : List ℤ → Doc
    dict : Fields → Doc

  pub data Fields : Type 0 where
    end : Fields
    field : Text → Doc → Fields → Fields

abbrev pairs : Fields → List (Doc × Doc)
pairs end = []
pairs (field k v rest) = (scalar k, v) ∷ pairs rest

abbrev get : Text → Fields → Doc
get key end = absent
get key (field k v rest) = if k == key then v else get key rest

abbrev is_defined : Doc → Bool
is_defined absent = false
is_defined _ = true

abbrev is_scalar : Doc → Bool
is_scalar (dict f) = false
is_scalar (numbers s) = false
is_scalar absent = false
is_scalar _ = true

abbrev as_string : Doc → Option Text
as_string (scalar s) = some s
as_string _ = none

abbrev as_i32 : Doc → Option ℤ
as_i32 (number n) = some n
as_i32 _ = none

abbrev as_vector : Doc → Option (List ℤ)
as_vector (numbers s) = some s
as_vector _ = none

abbrev entries : Doc → List (Doc × Doc)
entries (dict f) = pairs f
entries _ = []

abbrev subscript : Doc → Text → Option Doc
subscript (dict f) key = some (get key f)
subscript (scalar s) key = none
subscript _ key = some absent

abbrev pub small : Yaml Doc
small = record {
  is_defined = is_defined;
  is_null = λ d. false;
  is_scalar = is_scalar;
  as_string = as_string;
  as_i32 = as_i32;
  as_bool = λ d. none;
  as_vector = as_vector;
  entries = entries;
  subscript = subscript;
}

abbrev pub exists : Text → Option Bool
exists path = some true

abbrev listing : Doc
listing = dict (
    field (codes "cmd") (scalar (codes "ls")) (
      field (codes "umask") (scalar (codes "077"))
        (field (codes "exitcodes") (numbers (pos 2 ∷ pos 0 ∷ [])) end)))

-- The second job has no command.
abbrev jobs : Doc
jobs = dict (field (codes "ls") listing (field (codes "cat") (dict end) end))

abbrev pub file : Doc
file = dict (field (codes "jobs") jobs end)

parse_exit_codes_order_example :
    parse_exit_codes small exists (numbers (pos 2 ∷ pos 0 ∷ []))
    ≡ parse_exit_codes small exists (numbers (pos 0 ∷ pos 2 ∷ []))
parse_exit_codes_order_example =
    parse_exit_codes_order small exists (numbers (pos 2 ∷ pos 0 ∷ []))
      (numbers (pos 0 ∷ pos 2 ∷ [])) (pos 2 ∷ pos 0 ∷ []) (pos 0 ∷ pos 2 ∷ []) refl refl refl refl
      (Permᴰ.swap refl refl)

get_job_configs-lookup_example :
    (configs : ConfigMap) × (get_job_configs small exists (some file) ≡ success configs)
    × ((name : Text)
        → lookup name configs ≡ (
            if any (names small exists name) (entries jobs)
            then read_job small exists jobs name
            else none))
unfolding text_beq
get_job_configs-lookup_example =
    get_job_configs-lookup small exists file jobs refl refl
      ((codes "ls", refl), ((codes "cat", refl), tt))

abbrev pub ls : JobConfig
ls = record {
  name = codes "ls";
  cmd = codes "ls";
  working_dir = codes ".";
  numprocs = pos 1;
  umask = 63;
  autostart = true;
  restart_policy = on_failure;
  exit_codes = pos 0 ∷ pos 2 ∷ [];
  start_retries = pos 3;
  start_time = pos 1;
  stop_time = pos 10;
  stop_signal = Signal.Signals.term;
  out = none;
  err = none;
  env = [];
}

pub file_read : get_job_configs small exists (some file) ≡ success ((codes "ls", ls) ∷ [])
unfolding text_beq insert lookup ◌>>=◌ get_job_configs job_config umask_of sort parse_cmd
    parse_number_processes parse_umask parse_working_dir parse_auto_start parse_auto_restart
    parse_exit_codes parse_start_retries parse_start_time parse_stop_signal parse_stop_time
    parse_redirect parse_env
file_read = refl

get_job_configs-IsFile_example :
    IsMap ((codes "ls", ls) ∷ []) × All IsChecked ((codes "ls", ls) ∷ [])
get_job_configs-IsFile_example =
    get_job_configs-IsFile small exists (some file) ((codes "ls", ls) ∷ []) file_read

-- Every directory with a name is there.
abbrev places : Text → Option Bool
places [] = some false
places (c ∷ s) = some true

out_log-IsName : IsName (codes "out.log")
out_log-IsName = (refl, (refl, (refl, (refl, (refl, (refl, (refl, tt)))))))

parse_redirect_name_example : parse_redirect small places (scalar (codes "out.log")) ≡ success none
parse_redirect_name_example =
    parse_redirect_name small places (scalar (codes "out.log")) (codes "out.log") refl
      out_log-IsName refl refl
