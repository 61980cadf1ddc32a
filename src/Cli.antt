-- ===== src/Cli.antt =====
-- taskmasterctl/src/cli/UserInput.cpp: a line that the user typed becomes a command.
pub mod Tokens
pub mod Parsing
pub mod Words
use task_master.Base.{
  ℕ, zero, suc, ◌+◌, List, [], ◌∷◌, map, Option, some, none, Bool, true, false, ◌&&◌, if◌then◌else◌,
  length, take, drop, nat_beq, leb, ◌==◌,
}
use task_master.Base.Text.{Text, codes, text_key}
use task_master.Proto.{Command, CommandType, start, stop, restart, status, reload, terminate}

abbrev pub space : ℕ
space = b' '

-- Positions of `std::string`; `none` is `npos`.
abbrev pub shift : ℕ → Option ℕ → Option ℕ
shift n none = none
shift n (some p) = some (n + p)

unfoldable pub find : ℕ → Text → Option ℕ
find c [] = none
find c (a ∷ s) = if nat_beq a c then some 0 else shift 1 (find c s)

unfoldable pub first_not_of : ℕ → Text → Option ℕ
first_not_of c [] = none
first_not_of c (a ∷ s) = if nat_beq a c then shift 1 (first_not_of c s) else some 0

abbrev pub find_first_not_of : ℕ → Option ℕ → Text → Option ℕ
find_first_not_of c none s = none
find_first_not_of c (some p) s = shift p (first_not_of c (drop p s))

-- `substr(0, n)`
abbrev pub substr : Option ℕ → Text → Text
substr none s = s
substr (some n) s = take n s

-- `erase(0, n)`
abbrev pub erase : Option ℕ → Text → Text
erase none s = []
erase (some n) s = drop n s

-- `getToken`: the token and what is left of the input.
unfoldable pub get_token : Text → Text × Text
get_token input =
    let delim_pos = find space input in
    (substr delim_pos input, erase (find_first_not_of space delim_pos input) input)

abbrev cons_arg : Text → Option (List Text) → Option (List Text)
cons_arg arg none = none
cons_arg arg (some args) = some (arg ∷ args)

-- `parseCommandArgs`: the arguments that it adds; `none` when the fuel is out.
unfoldable pub parse_command_args : ℕ → Text → Option (List Text)
parse_command_args fuel [] = some []
parse_command_args zero (a ∷ s) = none
parse_command_args (suc fuel) (a ∷ s) =
    let token = get_token (a ∷ s) in cons_arg token.0 (parse_command_args fuel token.1)

-- `tolower` of the C locale.
abbrev pub lower : ℕ → ℕ
lower c = if leb b'A' c && leb c b'Z' then c + 32 else c

unfoldable pub to_lower : Text → Text
to_lower [] = []
to_lower (c ∷ s) = lower c ∷ to_lower s

abbrev pub valid_types : List (Text × CommandType)
valid_types =
    (codes "start", start)
    ∷ (codes "stop", stop)
    ∷ (codes "restart", restart)
    ∷ (codes "status", status)
    ∷ (codes "reload", reload)
    ∷ (codes "terminate", terminate)
    ∷ []

abbrev pub search_type : Text → List (Text × CommandType) → Option CommandType
search_type word [] = none
search_type word ((name, kind) ∷ rest) = if word == name then some kind else search_type word rest

-- `parseCommandType`: the type, and the input that is left in either case.
unfoldable pub parse_command_type : Text → Option CommandType × Text
parse_command_type input =
    let token = get_token input in (search_type (to_lower token.0) valid_types, token.1)

abbrev with_args : CommandType → Option (List Text) → Option Command
with_args kind none = none
with_args kind (some args) = some (record { kind = kind; args = args })

abbrev pub parse_rest : Option CommandType × Text → Option Command
parse_rest (none, input) = none
parse_rest (some kind, input) = with_args kind (parse_command_args (length input) input)

-- `parseInput`: each argument takes at least one byte, so the length is fuel enough.
unfoldable pub parse_input : Text → Option Command
unfolding parse_command_type
parse_input input = parse_rest (parse_command_type input)
