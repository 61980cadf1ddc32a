-- ===== src/Tests/Lines.antt =====
-- The theorems about taskmasterctl/src/cli/UserInput.cpp, applied.
use task_master.Base.{[], ◌∷◌, some, ◌≡◌, refl, arith}
use task_master.Base.Text.{codes, text_beq}
use task_master.Proto.{restart}
use task_master.Cli.{parse_input, to_lower}
use task_master.Cli.Parsing.{IsWord, parse_input-spaced}
use task_master.Cli.Words.{said, parse_input-said}

web-IsWord : IsWord (codes "web")
web-IsWord = (omega arith, (refl, (refl, (refl, tt))))

restart-IsWord : IsWord (codes "ReStart")
restart-IsWord = (omega arith, (refl, (refl, (refl, (refl, (refl, (refl, (refl, tt))))))))

parse_input-spaced_example :
    parse_input (codes "ReStart  web web   ")
    ≡ some (record { kind = restart; args = codes "web" ∷ codes "web" ∷ [] })
unfolding to_lower text_beq
parse_input-spaced_example =
    parse_input-spaced (codes "ReStart") restart ((1, codes "web") ∷ (0, codes "web") ∷ []) 3
      restart-IsWord refl (web-IsWord, (web-IsWord, tt))

parse_input-said_example : parse_input (codes "STOP web ") ≡ said (codes "STOP web ")
parse_input-said_example = parse_input-said (codes "STOP web ")
