-- ===== src/Server/Replies.antt =====
-- What taskmasterd/src/ipc/Server.cpp accepts, refuses and answers.
use task_master.Base.{List, [], ◌∷◌, Option, some, none, ◌≡◌, refl, ◌↔◌, ◌≢◌, ◌⊎◌, inl, arith, All}
use task_master.Base.Text.{Text}
use task_master.Exec.{
  continue, Error, Outcome, returned, thrown, terminated, exited, replaced, pure, ◌>>=◌,
}
use task_master.Exec.Keeps.{Keeps, bind-Keeps}
use task_master.Config.{ConfigMap}
use task_master.Proto.{
  Command, CommandType, start, stop, restart, status, reload, terminate, command_error, unnamed, ok,
}
use task_master.System.{Kernel, System}
use task_master.Timer.{Method}
use task_master.Manager
use task_master.Manager.{Manager}
use task_master.Manager.Names.{
  Named, run_command-Named, reload-Named, KeepsConfig, stop_and_start-KeepsConfig, status_job-Named,
}
use task_master.Job
use task_master.Job.{Job}
use task_master.Job.Frame.{start-HasConfig, stop-HasConfig}
use task_master.Response.{Response, Message, put_in_starting, put_in_stopping, put_in_restarting}
use task_master.Server
use task_master.Server.{parse_command, on_command}

-- The commands that the protocol means: what they take.
pub data IsWellFormed : CommandType → List Text → Type 0 where
  start_one : {job : Text} → IsWellFormed start (job ∷ [])
  stop_one : {job : Text} → IsWellFormed stop (job ∷ [])
  restart_one : {job : Text} → IsWellFormed restart (job ∷ [])
  status_one : {job : Text} → IsWellFormed status (job ∷ [])
  status_all : IsWellFormed status []
  reload_all : IsWellFormed reload []
  terminate_all : IsWellFormed terminate []

accepted :
    (kind : CommandType) (args : List Text)
    → IsWellFormed kind args
    → parse_command (record { kind = kind; args = args }) ≡ none
unfolding parse_command
accepted _ _ start_one = refl
accepted _ _ stop_one = refl
accepted _ _ restart_one = refl
accepted _ _ status_one = refl
accepted _ _ status_all = refl
accepted _ _ reload_all = refl
accepted _ _ terminate_all = refl

well_formed :
    (kind : CommandType) (args : List Text)
    → parse_command (record { kind = kind; args = args }) ≡ none
    → IsWellFormed kind args
unfolding parse_command
well_formed start [] h = cc
well_formed start (a ∷ []) h = start_one
well_formed start (a ∷ b ∷ r) h = absurd (ground arith)
well_formed stop [] h = cc
well_formed stop (a ∷ []) h = stop_one
well_formed stop (a ∷ b ∷ r) h = absurd (ground arith)
well_formed restart [] h = cc
well_formed restart (a ∷ []) h = restart_one
well_formed restart (a ∷ b ∷ r) h = absurd (ground arith)
well_formed status [] h = status_all
well_formed status (a ∷ []) h = status_one
well_formed status (a ∷ b ∷ r) h = absurd (ground arith)
well_formed reload [] h = reload_all
well_formed reload (a ∷ r) h = absurd (ground arith)
well_formed terminate [] h = terminate_all
well_formed terminate (a ∷ r) h = absurd (ground arith)
well_formed command_error args h = cc
well_formed (unnamed c) args h = cc

-- The check passes exactly the well-formed commands.
pub parse_command_iff :
    (cmd : Command) → (parse_command cmd ≡ none) ↔ IsWellFormed cmd.kind cmd.args
parse_command_iff cmd = (well_formed cmd.kind cmd.args, accepted cmd.kind cmd.args)

refused-ne-ok :
    (kind : CommandType) (args : List Text) (r : Response)
    → parse_command (record { kind = kind; args = args }) ≡ some r
    → r.status ≢ ok
unfolding parse_command
refused-ne-ok start args r h = ground arith
refused-ne-ok stop args r h = ground arith
refused-ne-ok _ args r h = ground arith

module _ (k : Kernel) (split_shell : Text → List Text) (file : ConfigMap ⊎ Error) where
  -- A command that the check refuses is answered with an error, changes neither the jobs nor the
  -- system, and comes back to its client as COMMAND_ERROR.
  pub on_command_refused :
      (cmd : Command) (r : Response) (s : Manager × System)
      → parse_command cmd ≡ some r
      → (on_command k split_shell file cmd s
          ≡ (returned (record cmd { kind = command_error }, some r), s))
        × (r.status ≢ ok)
  unfolding on_command
  on_command_refused cmd r s h = (rw h refl, refused-ne-ok cmd.kind cmd.args r h)

  abbrev pub Answers : Outcome (Command × Option Response) → Command → Type 0
  Answers (returned (c, some r)) cmd = c ≡ cmd
  Answers (returned (c, none)) cmd = ⊥
  Answers _ cmd = Unit

  -- Pairs the response with the command, as `on_parsed` does.
  abbrev paired : Command → Option Response → Method Manager (Command × Option Response)
  paired cmd r = pure (cmd, r)

  answer-Answers :
      (cmd : Command) (m : Method Manager Response) (s : Manager × System)
      → Answers ((Server.answer k split_shell file m >>= paired cmd) s).0 cmd
  answer-Answers cmd m s = go (m s)
    where
      go :
          (r : Outcome Response × (Manager × System))
          → Answers (continue (continue r (λ x. pure (some x))) (paired cmd)).0 cmd
      go (returned x, t) = refl
      go (thrown x, t) = tt
      go (terminated, t) = tt
      go (exited n, t) = tt
      go (replaced, t) = tt

  dispatch-Answers :
      (cmd : Command) (kind : CommandType) (args : List Text) (s : Manager × System)
      → IsWellFormed kind args
      → Answers ((Server.dispatch k split_shell file kind args >>= paired cmd) s).0 cmd
  unfolding Server.dispatch
  dispatch-Answers cmd _ _ s (start_one {job}) = answer-Answers cmd (Manager.start_job k job) s
  dispatch-Answers cmd _ _ s (stop_one {job}) = answer-Answers cmd (Manager.stop_job k job) s
  dispatch-Answers cmd _ _ s (restart_one {job}) = answer-Answers cmd (Manager.restart_job k job) s
  dispatch-Answers cmd _ _ s (status_one {job}) = answer-Answers cmd (Manager.status_job job) s
  dispatch-Answers cmd _ _ s status_all = answer-Answers cmd Manager.status_all s
  dispatch-Answers cmd _ _ s reload_all = answer-Answers cmd (Manager.reload k split_shell file) s
  dispatch-Answers cmd _ _ s terminate_all = refl

  -- A command that the check passes never reaches `std::unreachable()` nor a missing argument: if its
  -- handler returns, it returns a response, and the command keeps its type.
  pub on_command-Answers :
      (cmd : Command) (s : Manager × System)
      → parse_command cmd ≡ none
      → Answers (on_command k split_shell file cmd s).0 cmd
  unfolding on_command
  on_command-Answers cmd s h =
      rw h (dispatch-Answers cmd cmd.kind cmd.args s (well_formed cmd.kind cmd.args h))

  job_command-Named :
      (f : ConfigMap → Method Job Unit) (done : Text → Message) (name : Text)
      → KeepsConfig f
      → Keeps Named (Server.answer k split_shell file (Manager.run_command f done name))
  job_command-Named f done name kf =
      bind-Keeps Named (Manager.run_command f done name) (λ r. pure (some r))
        (run_command-Named f done name kf) (λ r t g. g)

  dispatch-Named :
      ((configs : ConfigMap) → file ≡ inl configs → All (λ entry. entry.1.name ≡ entry.0) configs)
      → (kind : CommandType) (args : List Text)
      → Keeps Named (Server.dispatch k split_shell file kind args)
  unfolding Server.dispatch Manager.start_job Manager.stop_job Manager.restart_job
      Manager.status_job Manager.status_all
  dispatch-Named named start (n ∷ r) =
      job_command-Named (λ configs. Job.start k) put_in_starting n
        (λ configs c. start-HasConfig k c)
  dispatch-Named named stop (n ∷ r) =
      job_command-Named (Job.stop k) put_in_stopping n (λ configs c. stop-HasConfig k configs c)
  dispatch-Named named restart (n ∷ r) =
      job_command-Named (Manager.stop_and_start k) put_in_restarting n
        (stop_and_start-KeepsConfig k)
  dispatch-Named named status (n ∷ r) =
      bind-Keeps Named (Manager.status_job n) (λ r. pure (some r)) (status_job-Named n) (λ r t g. g)
  dispatch-Named named status [] = λ s h. h
  dispatch-Named named reload args =
      bind-Keeps Named (Manager.reload k split_shell file) (λ r. pure (some r))
        (reload-Named k split_shell file named) (λ r t g. g)
  dispatch-Named named terminate args = λ s h. h
  dispatch-Named named _ _ = λ s h. h

  -- Every command of a client, refused or carried out, keeps each job under the name of its
  -- configuration and the names distinct, whatever its outcome; the configuration file is taken to name
  -- each job by its key.
  pub on_command-Named :
      ((configs : ConfigMap) → file ≡ inl configs → All (λ entry. entry.1.name ≡ entry.0) configs)
      → (cmd : Command) → Keeps Named (on_command k split_shell file cmd)
  unfolding on_command
  on_command-Named named cmd s h = parsed (parse_command cmd)
    where
      parsed : (o : Option Response) → Named (Server.on_parsed k split_shell file cmd o s).1
      parsed (some r) = h
      parsed none =
          bind-Keeps Named (Server.dispatch k split_shell file cmd.kind cmd.args) (paired cmd)
            (dispatch-Named named cmd.kind cmd.args) (λ r t g. g) s h
