-- ===== src/Ctl/Shown.antt =====
-- What the user sees of a response of the daemon: the texts of taskmasterd/src/ipc/Server.cpp and
-- src/jobs/JobManager.cpp in `awaitDaemonResponse` (taskmasterctl/src/ipc/Client.cpp).
use task_master.Base.{
  List, [], ◌∷◌, ◌++◌, Option, some, none, Bool, true, false, ◌≡◌, ◌≢◌, refl, sym, ap, ◌∙◌,
}
use task_master.Base.Text.{Text, codes}
use task_master.Ctl.{Ctl, respond}
use task_master.Ctl.Answers.{accepts}
use task_master.Exec.{Error, returned}
use task_master.Job.{Job}
use task_master.Job.Table
use task_master.Job.Table.{table, process_lines, job_line}
use task_master.Logger
use task_master.Logger.{Output, terminal, syslog}
use task_master.Proto.{
  CommandType, CommandStatus, ok, error, too_many_arguments, argument_error, type_error,
}
use task_master.Response.{Message, Response, job_tables, job_table}
use task_master.Response.Texts
use task_master.Response.Texts.{text, table_text, tables_text}

-- A text in a colour of the terminal's 256.
abbrev coloured : Text → Text → Text
coloured code m =
    (b'\x1B' ∷ codes "[38;5;" ++ code ++ codes "m") ++ m ++ (b'\x1B' ∷ codes "[0m") ++ codes "\n"

-- What the user sees of a text, and what is in the system's log, byte by byte.
abbrev pub shown : CommandStatus → Text → List Output
shown ok m = terminal (m ++ codes "\n") ∷ []
shown error m = terminal (coloured (codes "160") m) ∷ syslog Logger.log_err m ∷ []
shown type_error m = terminal (coloured (codes "160") m) ∷ syslog Logger.log_err m ∷ []
shown too_many_arguments m = terminal (coloured (codes "226") m) ∷ syslog Logger.log_warning m ∷ []
shown argument_error m = terminal (coloured (codes "226") m) ∷ syslog Logger.log_warning m ∷ []

respond-shown :
    (kind : CommandType) (status : CommandStatus) (m : Text) (s : Ctl)
    → m ≢ []
    → respond kind (some status) m s
      ≡ (returned (accepts kind status), record s { output = s.output ++ shown status m })
unfolding respond Logger.log Logger.can_log Logger.log_color Logger.priority
respond-shown kind status [] s h = absurd (h refl)
respond-shown kind ok (b ∷ m) s h = refl
respond-shown kind error (b ∷ m) s h = refl
respond-shown kind type_error (b ∷ m) s h = refl
respond-shown kind too_many_arguments (b ∷ m) s h = refl
respond-shown kind argument_error (b ∷ m) s h = refl

abbrev is_filled : Option Text → Bool
is_filled none = true
is_filled (some []) = false
is_filled (some (b ∷ m)) = true

table_text_filled : (j : Job) → is_filled (table_text j) ≡ true
unfolding table_text table
table_text_filled j = go (job_line j) (process_lines j.processes)
  where
    go :
        (l : Option Text) (ls : Option (List Text))
        → is_filled (Texts.joined (Table.framed l ls)) ≡ true
    go (some l) (some ls) = refl
    go (some l) none = refl
    go none ls = refl

tables_text_filled : (j : Job) (jobs : List Job) → is_filled (tables_text (j ∷ jobs)) ≡ true
unfolding tables_text
tables_text_filled j jobs = go (table_text j) (tables_text jobs) (table_text_filled j)
  where
    go : (t rest : Option Text) → is_filled t ≡ true → is_filled (Texts.with_rest t rest) ≡ true
    go none rest h = refl
    go (some t) none h = refl
    go (some []) (some rest) h = refl
    go (some (b ∷ t)) (some rest) h = refl

text_filled :
    (what : Error → Text) (m : Message) → m ≢ job_tables [] → is_filled (text what m) ≡ true
unfolding text tables_text
text_filled what (job_tables []) h = absurd (h refl)
text_filled what (job_tables (j ∷ jobs)) h = tables_text_filled j jobs
text_filled what (job_table j) h = table_text_filled j
text_filled what _ h = refl

filled_some : (t : Text) → is_filled (some t) ≡ true → t ≢ []
filled_some t h e = cc (rw (e) at h)

-- Every response with a text, but the status of no jobs, is shown to the user, whole: as it is if the
-- command was accepted, as an error or a warning of the log if it was not. The client goes on, unless the
-- response accepts a termination.
pub respond-text :
    (what : Error → Text) (kind : CommandType) (r : Response) (t : Text) (s : Ctl)
    → r.message ≢ job_tables []
    → text what r.message ≡ some t
    → respond kind (some r.status) t s
      ≡ (returned (accepts kind r.status), record s { output = s.output ++ shown r.status t })
respond-text what kind r t s h e =
    respond-shown kind r.status t s
      (filled_some t (ap is_filled (sym e) ∙ text_filled what r.message h))
