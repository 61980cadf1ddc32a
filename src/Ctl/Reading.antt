-- ===== src/Ctl/Reading.antt =====
-- How taskmasterctl comes from the lines of the user to the next command (src/cli/UserInput.cpp).
use task_master.Base.{
  ◌<◌, List, [], ◌∷◌, ◌++◌, Option, some, none, ◌≡◌, refl, ap, ◌∙◌, subst, inl, inr, All, arith,
  length, Option-cases,
}
use task_master.Base.Text.{Text, codes}
use task_master.Cli.{parse_input}
use task_master.Ctl
use task_master.Ctl.{Reply, Ctl, Run, Round, respond, command_in, send_command, round, loop}
use task_master.Exec.{Outcome, returned, exited, ◌>>◌, pure}
use task_master.Logger
use task_master.Logger.{Output}
use task_master.Proto.{Command}
use task_master.Ctl.Talk.{heard}

-- It returns and leaves the input and what was sent as they are.
abbrev pub Stays : {A : Type 0} → A → Run A → Type 0
Stays a m =
    (s : Ctl) → (t : Ctl) × (m s ≡ (returned a, t)) × (t.lines ≡ s.lines) × (t.sent ≡ s.sent)

pub then-Stays :
    {A : Type 0} (a : A) (m : Run Unit) (n : Run A) → Stays tt m → Stays a n → Stays a (m >> n)
then-Stays a m n km kn s =
    let (t, e, l, p) = km s in let (u, f, l2, p2) = kn t in rw e (u, f, l2 ∙ l, p2 ∙ p)

pub writes-Stays : (out : List Output) → Stays tt (Ctl.write_out out)
writes-Stays out s = (record s { output = s.output ++ out }, refl, refl, refl)

pub pure-Stays : {A : Type 0} (a : A) → Stays a (pure a)
pure-Stays a s = (s, refl, refl, refl)

pub unless_empty-Stays :
    (text : Text) (m : Run Unit) → Stays tt m → Stays tt (Ctl.unless_empty text m)
unless_empty-Stays [] m km = pure-Stays tt
unless_empty-Stays (b ∷ text) m km = km

log_args-Stays : (args : List Text) → Stays tt (Ctl.log_args args)
log_args-Stays [] = pure-Stays tt
log_args-Stays (arg ∷ args) =
    then-Stays tt (Ctl.log_line Logger.debug (arg ++ codes ": Added as argument"))
      (Ctl.log_args args) (writes-Stays _) (log_args-Stays args)

log_parsed-Stays : (line : Text) (o : Option Command) → Stays tt (Ctl.log_parsed line o)
unfolding Ctl.log_parsed
log_parsed-Stays line none = writes-Stays _
log_parsed-Stays line (some cmd) =
    then-Stays tt
      (Ctl.log_line Logger.debug (Ctl.first_word line ++ codes ": Added as command type"))
      (Ctl.log_args cmd.args) (writes-Stays _) (log_args-Stays cmd.args)

-- What the reading of a command comes to: the end, or the next command, and the lines behind it.
abbrev pub Gets : Option (Command × List Text) → Ctl → Outcome Command × Ctl → Type 0
Gets none s r = (r.0 ≡ exited 0) × (r.1.sent ≡ s.sent)
Gets (some (cmd, rest)) s r =
    (t : Ctl) × (r ≡ (returned cmd, t)) × (t.lines ≡ rest) × (t.sent ≡ s.sent)

Gets-from :
    (o : Option (Command × List Text)) (s t : Ctl) (r : Outcome Command × Ctl)
    → t.sent ≡ s.sent
    → Gets o t r
    → Gets o s r
Gets-from none s t r e (q, p) = (q, p ∙ e)
Gets-from (some (cmd, rest)) s t r e (u, q, l, p) = (u, q, l, p ∙ e)

then_step :
    {A : Type 0} (m : Run Unit) (n : Run A) (s t : Ctl) → m s ≡ (returned tt, t) → (m >> n) s ≡ n t
then_step m n s t e = rw e refl

command_in_step :
    (line : Text) (rest : List Text) (o : Option Command) (s t : Ctl)
    → parse_input line ≡ o
    → Ctl.log_parsed line o (Ctl.typed line rest s) ≡ (returned tt, t)
    → command_in (line ∷ rest) s ≡ Ctl.or_ask_again (command_in rest) o t
unfolding command_in
command_in_step line rest o s t e q =
    rw (command_in, e)
      (then_step (Ctl.log_parsed line o) (Ctl.or_ask_again (command_in rest) o)
        (Ctl.typed line rest s) t q)

heard-none :
    (line : Text) (rest : List Text) → parse_input line ≡ none → heard (line ∷ rest) ≡ heard rest
unfolding heard
heard-none line rest e = rw (heard, e) refl

heard-some :
    (line : Text) (rest : List Text) (cmd : Command)
    → parse_input line ≡ some cmd
    → heard (line ∷ rest) ≡ some (cmd, rest)
unfolding heard
heard-some line rest cmd e = rw (heard, e) refl

command_in_end : (s : Ctl) → Gets (heard []) s (command_in [] s)
unfolding command_in heard
command_in_end s = (refl, refl)

pub command_in_lem : (ls : List Text) (s : Ctl) → Gets (heard ls) s (command_in ls s)
command_in_lem [] s = command_in_end s
command_in_lem (line ∷ rest) s = elim (Option-cases (parse_input line)) [
  | inl e ↦
      let (t, q, l, p) = log_parsed-Stays line none (Ctl.typed line rest s) in
      rw (heard-none line rest e, command_in_step line rest none s t e q)
        (Gets-from (heard rest) s t (command_in rest t) p (command_in_lem rest t))
  | inr (cmd, e) ↦
      let (t, q, l, p) = log_parsed-Stays line (some cmd) (Ctl.typed line rest s) in
      rw (heard-some line rest cmd e) (t, command_in_step line rest (some cmd) s t e q, l, p)
]

some_injective : {A : Type 0} (a b : A) → some a ≡ some b → a ≡ b
some_injective a b e = cc

pub heard-All :
    (P : Text → Type 0) (ls : List Text) (cmd : Command) (rest : List Text)
    → heard ls ≡ some (cmd, rest)
    → All P ls
    → ((line : Text) × (P line × (parse_input line ≡ some cmd)))
      × All P rest
      × (length rest < length ls)
unfolding heard
heard-All P [] cmd rest e h = cc
heard-All P (line ∷ ls) cmd rest e (now, h) = elim (Option-cases (parse_input line)) [
  | inl q ↦
      let (found, more, lt) = heard-All P ls cmd rest (rw (heard, q) at e) h in
      (found, more, omega (arith, lt))
  | inr (c, q) ↦
      let same : (c, ls) ≡ (cmd, rest) = some_injective (c, ls) (cmd, rest) (rw (heard, q) at e) in
      (
        (line, (now, q ∙ ap (λ p. some p.0) same)),
        subst (All P) (ap (λ p. p.1) same) h,
        ground (arith, ap (λ p. length p.1) same),
      )
]
