-- ===== src/Ctl/Completion.antt =====
-- The completion of command names (taskmasterctl/src/main.cpp), which readline calls.
use task_master.Base.{
  ℕ, zero, suc, ◌+◌, List, [], ◌∷◌, Option, some, none, Bool, true, false, ◌&&◌, length, drop,
  if◌then◌else◌, nat_beq,
}
use task_master.Base.Text.{Text, codes}

-- The names in front of the NULL.
abbrev pub commands : List Text
commands =
    codes "start"
    ∷ codes "stop"
    ∷ codes "restart"
    ∷ codes "status"
    ∷ codes "reload"
    ∷ codes "terminate"
    ∷ []

-- `strncmp(a, b, n) == 0`
unfoldable pub same_start : ℕ → Text → Text → Bool
same_start zero a b = true
same_start (suc n) [] [] = true
same_start (suc n) (x ∷ a) (y ∷ b) = nat_beq x y && same_start n a b
same_start (suc n) _ _ = false

-- The static variables of `completer_generator`, which live from one completion to the next.
pub record Generator : Type 0 where
  pub list_index : ℕ
  pub len : ℕ

-- The loop, over the names from the index on.
unfoldable pub search : Text → Generator → List Text → Option Text × Generator
unfolding same_start
search text g [] = (none, g)
search text g (name ∷ names) =
    let next = record g { list_index = g.list_index + 1 } in
    let rest = search text next names in
    if same_start g.len name text then (some name, next) else rest

abbrev pub begin : Text → ℕ → Generator → Generator
begin text state g = if nat_beq state 0 then record { list_index = 0; len = length text } else g

unfoldable pub completer_generator : Text → ℕ → Generator → Option Text × Generator
unfolding search
completer_generator text state g =
    let h = begin text state g in search text h (drop h.list_index commands)

abbrev pub collect : (Generator → List Text) → Option Text × Generator → List Text
collect again (none, g) = []
collect again (some name, g) = name ∷ again g

-- The calls that `rl_completion_matches` makes: state 0 first, then others, until NULL; at most so many.
unfoldable pub completions : ℕ → Text → ℕ → Generator → List Text
unfolding completer_generator
completions zero text state g = []
completions (suc fuel) text state g =
    collect (completions fuel text 1) (completer_generator text state g)
