-- ===== src/Tests/Clients.antt =====
-- The theorems about taskmasterctl and the logger, applied.
use task_master.Base.{List, [], ◌∷◌, ◌≡◌, refl, arith}
use task_master.Base.{Option, some, false, ap, length, append-nil, ◌++◌}
use task_master.Cli.{parse_input, to_lower, get_token, find, parse_command_args, first_not_of}
use task_master.Ctl.{Reply, Ctl, loop}
use task_master.Ctl.Talk.{outcome, left, talk}
use task_master.Ctl.Dialogue.{IsCoded, loop-talk}
use task_master.Ctl.{respond}
use task_master.Ctl.Shown.{shown, respond-text}
use task_master.Response.{Response, cannot_find}
use task_master.Response.Texts.{text}
use task_master.Exec.{Error, returned}
use task_master.Framing.RoundTrip.{frame}
use task_master.Proto.{Command, CommandStatus, ok, argument_error, terminate}
use task_master.Tests.{quiet}
use task_master.Tests.Messages.{hello, slow, slow_size, slow_piece}
use task_master.Base.Text.{Text, codes, text_beq}
use task_master.Ctl.Completion.{Generator, commands, completions}
use task_master.Ctl.Completing.{starting_with, completions_lem}

-- The state that an earlier completion left.
abbrev used : Generator
used = record { list_index = 4; len = 1 }

completions_lem_example : completions 7 (codes "st") 0 used ≡ starting_with (codes "st") commands
completions_lem_example = completions_lem (codes "st") used 6 (omega arith)

offered : completions 7 (codes "st") 0 used ≡ codes "start" ∷ codes "stop" ∷ codes "status" ∷ []
unfolding completions
offered = refl

-- Every command has the same encoding, and every response too.
abbrev pub encode : Command → Option Text
encode cmd = some hello

abbrev pub decode : Text → Option Reply
decode text = some (record { status = some ok; message = codes "Bye" })

abbrev in_one : Text → List Text
in_one sent = frame hello ∷ []

abbrev pub what : Error → Text
what e = codes "failed"

abbrev bye : Text → Reply
bye sent = record { status = some ok; message = codes "Bye" }

abbrev status_of : Text → Option CommandStatus
status_of sent = some ok

abbrev pub encoding : Command → Text
encoding cmd = hello

abbrev pub user : Ctl
user = record {
  lines = codes "Status web" ∷ codes "halt" ∷ codes "terminate" ∷ codes "start web" ∷ [];
  history = [];
  output = [];
  sent = [];
  system = quiet;
  exit_checker = false;
}

hello-IsCoded : (cmd : Command) → IsCoded encode encoding cmd
hello-IsCoded cmd = (refl, λ h. ground (arith, ap length h), omega arith)

loop-talk_example :
    let r = loop encode slow decode in_one what 5 user in
    let t = talk encoding status_of user.lines [] in (r.0 ≡ outcome t.0) × (r.1.sent ≡ t.1)
loop-talk_example =
    loop-talk encode slow decode in_one what encoding bye (slow_size, slow_piece) 5 user
      (omega arith)
      (
        λ c e. hello-IsCoded c,
        (λ c e. hello-IsCoded c, (λ c e. hello-IsCoded c, (λ c e. hello-IsCoded c, tt))),
      )
      (λ sent. (hello, append-nil (frame hello), omega arith, refl))

user_talk : talk encoding status_of user.lines [] ≡ (left 0, frame hello ++ frame hello)
unfolding talk frame parse_input text_beq to_lower get_token find parse_command_args first_not_of
user_talk = refl

-- A command that the daemon has refused.
abbrev refused : Response
refused = record { status = argument_error; message = cannot_find (codes "web") }

abbrev refusal : Text
refusal = codes "Invalid argument: 'web' cannot find job"

respond-text_example :
    respond terminate (some argument_error) refusal user
    ≡ (returned false, record user { output = shown argument_error refusal })
unfolding text
respond-text_example = respond-text what terminate refused refusal user (λ h. cc) refl
