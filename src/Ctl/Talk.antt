-- ===== src/Ctl/Talk.antt =====
-- A plain account of the talk of taskmasterctl with the daemon.
use task_master.Base.{ℕ, List, [], ◌∷◌, ◌++◌, Option, some, none, ◌≡◌, refl, inl, inr, Option-cases}
use task_master.Base.Text.{Text}
use task_master.Cli.{parse_input}
use task_master.Exec.{Outcome, returned, exited}
use task_master.Framing.RoundTrip.{frame}
use task_master.Proto.{Command, CommandType, CommandStatus, terminate, ok}

-- How a client ends: at the end of the input, or with a code.
pub data Ending : Type 0 where
  at_end : Ending
  left : ℕ → Ending

-- What the program comes to then.
abbrev pub outcome : Ending → Outcome (Option ℕ)
outcome at_end = exited 0
outcome (left code) = returned (some code)

-- After a response: an invalid one ends the client with an error, an accepted termination without one.
unfoldable pub verdict : Option CommandStatus → CommandType → Option ℕ
verdict none kind = some 1
verdict (some ok) terminate = some 0
verdict (some _) _ = none

-- The first line that is a command, and the lines behind it.
unfoldable pub heard : List Text → Option (Command × List Text)
heard [] = none
heard (line ∷ rest) = elim (parse_input line) [ none ↦ heard rest | some cmd ↦ some (cmd, rest) ]

module _ (bytes : Command → Text) (status : Text → Option CommandStatus) where
  abbrev pub judged : Option ℕ → Text → Ending × Text → Ending × Text
  judged none sent more = more
  judged (some code) sent more = (left code, sent)

  -- The talk: every readable line is sent as a frame, until an answer ends it; what has been sent decides
  -- the answer.
  unfoldable pub talk : List Text → Text → Ending × Text
  unfolding verdict
  talk [] sent = (at_end, sent)
  talk (line ∷ rest) sent = elim (parse_input line) [
    | none ↦ talk rest sent
    | some cmd ↦
        let next = sent ++ frame (bytes cmd) in
        judged (verdict (status next) cmd.kind) next (talk rest next)
  ]

  abbrev talk_from : Option (Command × List Text) → Text → Ending × Text
  talk_from none sent = (at_end, sent)
  talk_from (some (cmd, rest)) sent =
      let next = sent ++ frame (bytes cmd) in
      judged (verdict (status next) cmd.kind) next (talk rest next)

  pub talk-heard : (ls : List Text) (sent : Text) → talk ls sent ≡ talk_from (heard ls) sent
  unfolding talk heard
  talk-heard [] sent = refl
  talk-heard (line ∷ rest) sent = elim (Option-cases (parse_input line)) [
    | inl e ↦ rw (talk, heard, e) (talk-heard rest sent)
    | inr (cmd, e) ↦ rw (talk, heard, e) refl
  ]
