-- ===== src/Cli/Words.antt =====
-- `parseInput` (taskmasterctl/src/cli/UserInput.cpp) against the words of a line.
use task_master.Base.{
  ℕ, zero, suc, ◌≤◌, List, [], ◌∷◌, Option, some, none, ◌≡◌, refl, ap, ◌∙◌, arith, if◌then◌else◌,
  length, nat_beq, Bool, true, false, Bool-cases, inl, inr,
}
use task_master.Base.Text.{Text}
use task_master.Proto.{Command, CommandType}
use task_master.Cli
use task_master.Cli.{
  space, parse_command_args, to_lower, search_type, valid_types, parse_command_type, parse_input,
}
use task_master.Cli.Tokens.{word, skip, rest, get_token_lem}
use task_master.Cli.Parsing.{IsCut, rest-IsCut, length-rest_lt}

abbrev add_word : Text → List Text → List Text
add_word [] ws = ws
add_word (a ∷ w) ws = (a ∷ w) ∷ ws

abbrev cut_at : ℕ → Text × List Text → Text × List Text
cut_at a (w, ws) = if nat_beq a space then ([], add_word w ws) else (a ∷ w, ws)

-- The bytes before the first space, and the words behind it: the longest runs of bytes with no space.
abbrev pub cut : Text → Text × List Text
cut [] = ([], [])
cut (a ∷ s) = cut_at a (cut s)

abbrev words : Text → List Text
words s = add_word (cut s).0 (cut s).1

abbrev command_of : Option CommandType → List Text → Option Command
command_of none ws = none
command_of (some kind) ws = some (record { kind = kind; args = ws })

-- What a line says: the command that its beginning names in any case, with the other words.
abbrev pub said : Text → Option Command
said s = command_of (search_type (to_lower (cut s).0) valid_types) (cut s).1

word-cut : (s : Text) → word s ≡ (cut s).0
word-cut [] = refl
word-cut (a ∷ s) = elim (Bool-cases (nat_beq a space)) [
  | inl e ↦ rw (e) refl
  | inr e ↦ rw (e) (ap (◌∷◌ a) (word-cut s))
]

words-skip : (s : Text) → words (skip s) ≡ words s
words-skip [] = refl
words-skip (a ∷ s) = go (nat_beq a space) refl (words-skip s)
  where
    go :
        (c : Bool)
        → nat_beq a space ≡ c
        → words (skip s) ≡ words s
        → words (if c then skip s else a ∷ s) ≡ words (a ∷ s)
    go true e h = rw (e) h
    go false e h = refl

words-rest : (s : Text) → words (rest s) ≡ (cut s).1
words-rest [] = refl
words-rest (a ∷ s) = elim (Bool-cases (nat_beq a space)) [
  | inl e ↦ rw (e) (words-skip s)
  | inr e ↦ rw (e) (words-rest s)
]

parse_command_args-words :
    (fuel : ℕ) (s : Text) → IsCut s → length s ≤ fuel → parse_command_args fuel s ≡ some (words s)
unfolding parse_command_args
parse_command_args-words zero [] c le = refl
parse_command_args-words (suc fuel) [] c le = refl
parse_command_args-words zero (a ∷ s) c le = absurd (omega (arith, le))
parse_command_args-words (suc fuel) (a ∷ s) c le =
    let more =
      parse_command_args-words fuel (rest (a ∷ s)) (rest-IsCut (a ∷ s))
        (omega (arith, le, length-rest_lt a s))
      ∙ ap some (words-rest (a ∷ s)) in
    rw (get_token_lem (a ∷ s), more, c) (ap (λ w. some ((a ∷ w) ∷ (cut s).1)) (word-cut s))

-- Every line is read to its end, as what it says: it is refused if the bytes before its first space do not
-- name a command in any case, and else it is that command with all the other words of the line, in order.
pub parse_input-said : (s : Text) → parse_input s ≡ said s
unfolding parse_input parse_command_type
parse_input-said s =
    let args =
      parse_command_args-words (length (rest s)) (rest s) (rest-IsCut s) (omega arith)
      ∙ ap some (words-rest s) in
    rw (get_token_lem s, word-cut s) (go (search_type (to_lower (cut s).0) valid_types) args)
  where
    go :
        (o : Option CommandType)
        → parse_command_args (length (rest s)) (rest s) ≡ some (cut s).1
        → Cli.parse_rest (o, rest s) ≡ command_of o (cut s).1
    go none e = refl
    go (some kind) e = rw (e) refl
