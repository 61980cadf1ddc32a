-- ===== src/Ctl/Dialogue.antt =====
-- The loop of taskmasterctl against the plain account of its talk with the daemon.
use task_master.Base.{
  ℕ, zero, suc, ◌<◌, List, [], ◌++◌, Option, some, none, Bool, true, ◌≡◌, ◌≢◌, refl, sym, ap, ◌∙◌,
  subst, inl, inr, All, arith, length, append_assoc, Option-cases,
}
use task_master.Base.Text.{Text}
use task_master.Cli.{parse_input}
use task_master.Ctl
use task_master.Ctl.{Reply, Ctl, Run, Round, respond, command_in, send_command, round, loop}
use task_master.Exec.{
  Outcome, Error, handle, continue, returned, exited, thrown, terminated, replaced, ◌>>=◌, catch,
}
use task_master.Framing.{word, htonl}
use task_master.Framing.RoundTrip.{frame, concat, await-frame}
use task_master.Framing.Sending.{IsOpen, send-frame}
use task_master.Framing.Writer
use task_master.Framing.Writer.{idle}
use task_master.Proto.{Command, CommandStatus}
use task_master.Ctl.Talk.{outcome, Ending, verdict, heard, talk, talk-heard, judged}
use task_master.Ctl.Reading.{Gets, command_in_lem, heard-All}
use task_master.Ctl.Answers.{ends, concluded_lem, accepts, respond-Stays, verdict-accepts}

abbrev exits : {A : Type 0} → ℕ → Outcome A
exits n = exited n

module _ {A B : Type 0} where
  same_code : (n : ℕ) → exits {A = A} n ≡ exits 0 → exits {A = B} n ≡ exits 0
  same_code n e = cc

  -- An exit passes through what is behind it.
  continue_exit :
      (r : Outcome A × Ctl) (f : A → Run B)
      → r.0 ≡ exited 0
      → ((continue r f).0 ≡ exited 0) × ((continue r f).1 ≡ r.1)
  continue_exit (exited n, t) f e = (same_code n e, refl)
  continue_exit (returned a, t) f e = cc
  continue_exit (thrown a, t) f e = cc
  continue_exit (terminated, t) f e = cc
  continue_exit (replaced, t) f e = cc

handle_exit :
    {A : Type 0} (r : Outcome A × Ctl) (f : Error → Run A)
    → r.0 ≡ exited 0
    → ((handle r f).0 ≡ exited 0) × ((handle r f).1 ≡ r.1)
handle_exit (exited n, t) f e = (e, refl)
handle_exit (returned a, t) f e = cc
handle_exit (thrown a, t) f e = cc
handle_exit (terminated, t) f e = cc
handle_exit (replaced, t) f e = cc

-- A command whose encoding fits into a frame.
abbrev pub IsCoded : (Command → Option Text) → (Command → Text) → Command → Type 0
IsCoded serialize bytes cmd =
    (serialize cmd ≡ some (bytes cmd)) × (bytes cmd ≢ []) × (length (bytes cmd) < word)

-- The daemon's answer to what has been sent arrives, in any pieces.
abbrev pub IsAnswer : (Text → Option Reply) → (Text → List Text) → (Text → Reply) → Text → Type 0
IsAnswer parse pieces reply sent =
    (m : Text) × (concat (pieces sent) ≡ frame m)
    × (length m < word)
    × (parse m ≡ some (reply sent))

module _ (serialize : Command → Option Text) (socket : Writer.Socket) (parse : Text → Option Reply)
    (pieces : Text → List Text) (what : Error → Text) (bytes : Command → Text)
    (reply : Text → Reply) (open_socket : IsOpen socket) where
  abbrev send : Command → Run Bool
  send = send_command serialize socket parse pieces what

  pub send_command_lem :
      (cmd : Command) (s : Ctl)
      → IsCoded serialize bytes cmd
      → (t : Ctl) × (send cmd s ≡ (returned true, t))
        × (t.lines ≡ s.lines)
        × (t.sent ≡ s.sent ++ frame (bytes cmd))
  unfolding send_command Writer.init frame
  send_command_lem cmd s (e, some_bytes, fits) =
      rw (e, send-frame socket open_socket (bytes cmd) s.sent some_bytes fits)
        (_, refl, refl, append_assoc s.sent (htonl (length (bytes cmd))) (bytes cmd))

  pub ask_lem :
      (cmd : Command) (s : Ctl)
      → IsAnswer parse pieces reply s.sent
      → Ctl.ask serialize socket parse pieces what cmd true s
        ≡ Ctl.answered serialize socket parse pieces what cmd (some (reply s.sent)) s
  ask_lem cmd s (m, e, fits, p) =
      rw (await-frame parse m (reply s.sent) (pieces s.sent) fits p e) refl

  abbrev round_of : Run Round
  round_of = round serialize socket parse pieces what

  abbrev failing : Error → Run Round
  failing = Ctl.failing serialize socket parse pieces what

  invalid_lem :
      (cmd : Command) (message : Text) (s : Ctl)
      → (t : Ctl) × (catch (respond cmd.kind none message >>= Ctl.concluded) failing s
          ≡ (returned (ends (verdict none cmd.kind)), t))
        × (t.lines ≡ s.lines)
        × (t.sent ≡ s.sent)
  unfolding respond verdict
  invalid_lem cmd message s = (_, refl, refl, refl)

  -- What is behind the reading of a command: the sending, the answer, and the end of the round.
  answered_lem :
      (cmd : Command) (s : Ctl)
      → (t : Ctl) × (catch
            (Ctl.answered serialize socket parse pieces what cmd (some (reply s.sent)))
            failing
            s
          ≡ (returned (ends (verdict (reply s.sent).status cmd.kind)), t))
        × (t.lines ≡ s.lines)
        × (t.sent ≡ s.sent)
  answered_lem cmd s = go (reply s.sent).status
    where
      go :
          (o : Option CommandStatus)
          → (t : Ctl) × (catch
                (respond cmd.kind o (reply s.sent).message >>= Ctl.concluded)
                failing
                s
              ≡ (returned (ends (verdict o cmd.kind)), t))
            × (t.lines ≡ s.lines)
            × (t.sent ≡ s.sent)
      go none = invalid_lem cmd (reply s.sent).message s
      go (some st) =
          let message = (reply s.sent).message in
          let (t, e, l, p) =
            concluded_lem (respond cmd.kind (some st) message) (accepts cmd.kind st)
              (respond-Stays cmd.kind st message) s in
          rw e (t, ap (λ r. (returned r, t)) (verdict-accepts st cmd.kind), l, p)

  abbrev next : Command → Ctl → Text
  next cmd s = s.sent ++ frame (bytes cmd)

  round_some :
      (cmd : Command) (rest : List Text) (s : Ctl)
      → heard s.lines ≡ some (cmd, rest)
      → IsCoded serialize bytes cmd
      → IsAnswer parse pieces reply (next cmd s)
      → (t : Ctl) × (round_of s
          ≡ (returned (ends (verdict (reply (next cmd s)).status cmd.kind)), t))
        × (t.lines ≡ rest)
        × (t.sent ≡ next cmd s)
  unfolding round
  round_some cmd rest s h coded answer =
      let got = subst (λ o. Gets o s (command_in s.lines s)) h (command_in_lem s.lines s) in
      let (t, e, l, p) = got in
      let (u, f, l2, p2) = send_command_lem cmd t coded in
      let sent : u.sent ≡ next cmd s = p2 ∙ ap (λ x. x ++ frame (bytes cmd)) p in
      let (v, g, l3, p3) = answered_lem cmd u in
      let asked = ask_lem cmd u (subst (IsAnswer parse pieces reply) (sym sent) answer) in
      rw (e, f, asked)
        (
          v,
          g ∙ ap (λ x. (returned (ends (verdict (reply x).status cmd.kind)), v)) sent,
          l3 ∙ l2 ∙ l,
          p3 ∙ sent,
        )

  round_none :
      (s : Ctl)
      → heard s.lines ≡ none
      → ((round_of s).0 ≡ exited 0) × ((round_of s).1.sent ≡ s.sent)
  unfolding round
  round_none s h =
      let got : Gets none s (command_in s.lines s) =
        subst (λ o. Gets o s (command_in s.lines s)) h (command_in_lem s.lines s) in
      let (e, p) = continue_exit (command_in s.lines s) behind got.0 in
      let (f, q) = handle_exit (continue (command_in s.lines s) behind) failing e in
      (f, ap (λ t. t.sent) (q ∙ p) ∙ got.1)
    where
      behind : Command → Run Round
      behind cmd = send cmd >>= Ctl.ask serialize socket parse pieces what cmd

  abbrev answers : Text → Option CommandStatus
  answers sent = (reply sent).status

  abbrev run : ℕ → Run (Option ℕ)
  run = loop serialize socket parse pieces what

  abbrev Talks : ℕ → Ctl → Ending × Text → Type 0
  Talks fuel s r = ((run fuel s).0 ≡ outcome r.0) × ((run fuel s).1.sent ≡ r.1)

  -- Over an open socket, with a daemon that answers everything, and when the commands of the lines are encoded
  -- in 1 to 2 ^ 32 - 1 bytes: the loop of the client ends, by the plain account. It has sent exactly the
  -- frames of the readable lines, in their order, up to an accepted termination, an invalid answer or the
  -- end of the input, and ends with code 0, 1 or 0. As much fuel as there are lines, and one, is enough.
  pub loop-talk :
      (fuel : ℕ) (s : Ctl)
      → length s.lines < fuel
      → All
          (λ line. (cmd : Command) → parse_input line ≡ some cmd → IsCoded serialize bytes cmd)
          s.lines
      → ((sent : Text) → IsAnswer parse pieces reply sent)
      → ((loop serialize socket parse pieces what fuel s).0
          ≡ outcome (talk bytes answers s.lines s.sent).0)
        × ((loop serialize socket parse pieces what fuel s).1.sent
            ≡ (talk bytes answers s.lines s.sent).1)
  unfolding loop
  loop-talk zero s lt coded answer = absurd (omega (arith, lt))
  loop-talk (suc fuel) s lt coded answer = elim (Option-cases (heard s.lines)) [
    | inl h ↦
        let (e, p) = round_none s h in
        let (f, q) =
          continue_exit (round_of s) (Ctl.then_round serialize socket parse pieces what (run fuel))
            e in
        rw (talk-heard bytes answers s.lines s.sent, h) (f, ap (λ t. t.sent) q ∙ p)
    | inr ((cmd, rest), h) ↦
        let (found, more, less) =
          heard-All (λ line. (c : Command) → parse_input line ≡ some c → IsCoded serialize bytes c)
            s.lines cmd rest h coded in
        let (t, e, l, p) =
          round_some cmd rest s h (found.1.0 cmd found.1.1) (answer (next cmd s)) in
        rw (talk-heard bytes answers s.lines s.sent, h, e)
          (go cmd rest t (verdict (answers (next cmd s)) cmd.kind) p (
            subst (λ x. Talks fuel t (talk bytes answers x (next cmd s))) l
              (subst (λ x. Talks fuel t (talk bytes answers t.lines x)) p
                (loop-talk fuel t (rw l (omega (arith, less, lt))) (rw l more) answer))))
  ]
    where
      go :
          (cmd : Command) (rest : List Text) (t : Ctl) (v : Option ℕ)
          → t.sent ≡ next cmd s
          → Talks fuel t (talk bytes answers rest (next cmd s))
          → let after =
              judged bytes answers v (next cmd s) (talk bytes answers rest (next cmd s)) in
            let r = Ctl.then_round serialize socket parse pieces what (run fuel) (ends v) t in
            (r.0 ≡ outcome after.0) × (r.1.sent ≡ after.1)
      go cmd rest t none p more = more
      go cmd rest t (some code) p more = (refl, p)
