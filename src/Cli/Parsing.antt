-- ===== src/Cli/Parsing.antt =====
-- `parseInput` (taskmasterctl/src/cli/UserInput.cpp) reads a line of words.
use task_master.Base.{
  ℕ, zero, suc, ◌≤◌, ◌<◌, List, [], ◌∷◌, ◌++◌, map, some, Bool, true, false, ◌≡◌, refl, ap, ◌∙◌,
  arith, if◌then◌else◌, length, nat_beq, All, length-append,
}
use task_master.Base.Text.{Text}
use task_master.Proto.{CommandType}
use task_master.Cli.{
  space, get_token, parse_command_args, to_lower, search_type, valid_types, parse_command_type,
  parse_input,
}
use task_master.Cli.Tokens.{word, skip, rest, get_token_lem}

-- No space, and not empty.
abbrev pub IsWord : Text → Type 0
IsWord w = (0 < length w) × All (λ b. nat_beq b space ≡ false) w

abbrev pub blanks : ℕ → Text
blanks zero = []
blanks (suc n) = space ∷ blanks n

-- Each word behind one space and as many more as are given with it, then spaces to the end.
abbrev pub spaced : List (ℕ × Text) → ℕ → Text
spaced [] t = blanks t
spaced ((n, w) ∷ ws) t = space ∷ (blanks n ++ (w ++ spaced ws t))

-- The same without the first spaces.
abbrev unspaced : List (ℕ × Text) → ℕ → Text
unspaced [] t = []
unspaced ((n, w) ∷ ws) t = w ++ spaced ws t

abbrev pub second : ℕ × Text → Text
second p = p.1

abbrev pub AllWords : List (ℕ × Text) → Type 0
AllWords ws = All (λ p. IsWord p.1) ws

skip-blanks : (n : ℕ) (s : Text) → skip (blanks n ++ s) ≡ skip s
skip-blanks zero s = refl
skip-blanks (suc n) s = skip-blanks n s

skip-word : (w s : Text) → IsWord w → skip (w ++ s) ≡ w ++ s
skip-word [] s h = absurd (omega (arith, h.0))
skip-word (a ∷ w) s h = rw (h.1.0) refl

skip-spaced : (ws : List (ℕ × Text)) (t : ℕ) → AllWords ws → skip (spaced ws t) ≡ unspaced ws t
skip-spaced [] zero h = refl
skip-spaced [] (suc t) h = skip-spaced [] t h
skip-spaced ((n, w) ∷ ws) t h = skip-blanks n (w ++ spaced ws t) ∙ skip-word w (spaced ws t) h.0

word-spaced :
    (w : Text) (ws : List (ℕ × Text)) (t : ℕ)
    → All (λ b. nat_beq b space ≡ false) w
    → word (w ++ spaced ws t) ≡ w
word-spaced [] [] zero h = refl
word-spaced [] [] (suc t) h = refl
word-spaced [] ((n, w) ∷ ws) t h = refl
word-spaced (a ∷ w) ws t h = rw (h.0) (ap (◌∷◌ a) (word-spaced w ws t h.1))

rest-spaced :
    (w : Text) (ws : List (ℕ × Text)) (t : ℕ)
    → All (λ b. nat_beq b space ≡ false) w
    → rest (w ++ spaced ws t) ≡ skip (spaced ws t)
rest-spaced [] [] zero h = refl
rest-spaced [] [] (suc t) h = refl
rest-spaced [] ((n, w) ∷ ws) t h = refl
rest-spaced (a ∷ w) ws t h = rw (h.0) (rest-spaced w ws t h.1)

get_token-spaced :
    (w : Text) (ws : List (ℕ × Text)) (t : ℕ)
    → IsWord w
    → AllWords ws
    → get_token (w ++ spaced ws t) ≡ (w, unspaced ws t)
get_token-spaced w ws t h k =
    get_token_lem (w ++ spaced ws t)
    ∙ rw (word-spaced w ws t h.1, rest-spaced w ws t h.1, skip-spaced ws t k) refl

parse_command_args-unspaced :
    (fuel : ℕ) (ws : List (ℕ × Text)) (t : ℕ)
    → AllWords ws
    → length ws ≤ fuel
    → parse_command_args fuel (unspaced ws t) ≡ some (map second ws)
unfolding parse_command_args
parse_command_args-unspaced zero [] t k le = refl
parse_command_args-unspaced (suc fuel) [] t k le = refl
parse_command_args-unspaced zero (p ∷ ws) t k le = absurd (omega (arith, le))
parse_command_args-unspaced (suc fuel) ((n, []) ∷ ws) t k le = absurd (omega (arith, k.0.0))
parse_command_args-unspaced (suc fuel) ((n, a ∷ w) ∷ ws) t k le =
    rw
      (
        get_token-spaced (a ∷ w) ws t k.0 k.1,
        parse_command_args-unspaced fuel ws t k.1 (omega (arith, le)),
      )
      refl

length-spaced_le : (ws : List (ℕ × Text)) (t : ℕ) → length ws ≤ length (spaced ws t)
length-spaced_le [] t = omega arith
length-spaced_le ((n, w) ∷ ws) t = omega (
  arith,
  length-append (blanks n) (w ++ spaced ws t),
  length-append w (spaced ws t),
  length-spaced_le ws t,
)

length-unspaced_le :
    (ws : List (ℕ × Text)) (t : ℕ) → AllWords ws → length ws ≤ length (unspaced ws t)
length-unspaced_le [] t k = omega arith
length-unspaced_le ((n, w) ∷ ws) t k =
    omega (arith, length-append w (spaced ws t), length-spaced_le ws t, k.0.0)

-- A line that starts with the name of a command in any case and goes on with words, each behind one
-- or more spaces, and with any number of spaces at its end, is read as that command with those words.
pub parse_input-spaced :
    (w : Text) (kind : CommandType) (ws : List (ℕ × Text)) (t : ℕ)
    → IsWord w
    → search_type (to_lower w) valid_types ≡ some kind
    → AllWords ws
    → parse_input (w ++ spaced ws t) ≡ some (record { kind = kind; args = map second ws })
unfolding parse_input parse_command_type
parse_input-spaced w kind ws t h e k =
    rw
      (
        get_token-spaced w ws t h k,
        e,
        parse_command_args-unspaced (length (unspaced ws t)) ws t k (length-unspaced_le ws t k),
      )
      refl

length-skip_le : (s : Text) → length (skip s) ≤ length s
length-skip_le [] = omega arith
length-skip_le (a ∷ s) = ground (arith, length-skip_le s)

length-rest_le : (s : Text) → length (rest s) ≤ length s
length-rest_le [] = omega arith
length-rest_le (a ∷ s) = ground (arith, length-skip_le s, length-rest_le s)

pub length-rest_lt : (a : ℕ) (s : Text) → length (rest (a ∷ s)) ≤ length s
length-rest_lt a s = ground (arith, length-skip_le s, length-rest_le s)

-- The input starts with no space.
abbrev pub IsCut : Text → Type 0
IsCut [] = Unit {0}
IsCut (a ∷ s) = nat_beq a space ≡ false

IsCut-at :
    (a : ℕ) (s t : Text) (c : Bool) → nat_beq a space ≡ c → IsCut s → IsCut (if c then s else a ∷ t)
IsCut-at a s t true e h = h
IsCut-at a s t false e h = e

IsCut-either : (s t : Text) (c : Bool) → IsCut s → IsCut t → IsCut (if c then s else t)
IsCut-either s t true h k = h
IsCut-either s t false h k = k

skip-IsCut : (s : Text) → IsCut (skip s)
skip-IsCut [] = tt
skip-IsCut (a ∷ s) = IsCut-at a (skip s) s (nat_beq a space) refl (skip-IsCut s)

pub rest-IsCut : (s : Text) → IsCut (rest s)
rest-IsCut [] = tt
rest-IsCut (a ∷ s) = IsCut-either (skip s) (rest s) (nat_beq a space) (skip-IsCut s) (rest-IsCut s)
