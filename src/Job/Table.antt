-- ===== src/Job/Table.antt =====
-- The status table of a job: `operator<<` of taskmasterd/src/jobs/Job.cpp and its helpers.
use task_master.Base.{
  ℕ, zero, suc, ◌+◌, ◌-◌, ◌/◌, List, [], ◌∷◌, ◌++◌, Option, some, none, Bool, length, take, leb,
  ltb, if◌then◌else◌,
}
use task_master.Base.Text.{Text, codes}
use task_master.Job.{Job}
use task_master.Job.Callbacks
use task_master.Process
use task_master.Process.{Process}

abbrev pub process_state : Process.State → Text
process_state Process.State.backoff = codes "BACKOFF"
process_state Process.State.exited = codes "EXITED"
process_state Process.State.fatal = codes "FATAL"
process_state Process.State.running = codes "RUNNING"
process_state Process.State.starting = codes "STARTING"
process_state Process.State.stopped = codes "STOPPED"
process_state Process.State.stopping = codes "STOPPING"
process_state Process.State.unknown = codes "UNKNOWN"

abbrev pub job_state : Callbacks.State → Text
job_state Callbacks.State.empty = codes "EMPTY"
job_state Callbacks.State.starting = codes "STARTING"
job_state Callbacks.State.running = codes "RUNNING"
job_state Callbacks.State.stopping = codes "STOPPING"
job_state Callbacks.State.stopped = codes "STOPPED"
job_state Callbacks.State.replaced = codes "UNKNOWN"
job_state Callbacks.State.removed = codes "UNKNOWN"

abbrev pub max_size : ℕ
max_size = 20

unfoldable pub repeat : ℕ → Text → Text
repeat zero text = []
repeat (suc n) text = text ++ repeat n text

abbrev pub spaces : ℕ → Text
spaces n = repeat n (codes " ")

unfoldable pub format_column : Text → Bool → ℕ × ℕ → Text
format_column name should_concatenate (left, right) =
    let kept = if should_concatenate then take 18 name ++ codes ".." else name in
    spaces left ++ kept ++ spaces right ++ codes "|"

abbrev at_least_one : ℕ → ℕ
at_least_one n = if leb 1 n then n else 1

-- Half of the rest of the column to each side, the odd space to the right. The difference wraps around for
-- a longer name, and the float that is made of it has no `uint32_t`: undefined behaviour.
unfoldable pub filler_width : Text → Option (ℕ × ℕ)
filler_width name =
    let rest = max_size - length name in
    if leb (length name) max_size
    then some (at_least_one (rest / 2 + 1), at_least_one ((rest + 1) / 2 + 1))
    else none

abbrev pub column_of : Text → Option (ℕ × ℕ) → Option Text
column_of name none = none
column_of name (some widths) = some (format_column name (ltb max_size (length name)) widths)

unfoldable pub column : Text → Option Text
unfolding format_column filler_width
column name = column_of name (filler_width name)

-- A line of two columns, with what is printed before and behind them.
abbrev pub line : Text → Option Text → Option Text → Text → Option Text
line before (some a) (some b) after = some (before ++ a ++ b ++ after)
line before (some a) none after = none
line before none b after = none

-- The glyphs of the frame, as UTF-8.
abbrev box : ℕ → Text
box n = b'\xE2' ∷ b'\x94' ∷ n ∷ []

abbrev bar : ℕ → Text
bar n = repeat 22 (box n)

-- "├───┼───┤", by its corners.
abbrev pub rule : ℕ → ℕ → ℕ → Text
rule left cross right =
    box left
    ++ bar b'\x80'
    ++ box cross
    ++ bar b'\x80'
    ++ box cross
    ++ bar b'\x80'
    ++ box cross
    ++ bar b'\x80'
    ++ box right

abbrev pub title : Text
title =
    box b'\x82'
    ++ codes "       Job Name:      "
    ++ box b'\x82'
    ++ codes "     Job Status:      "
    ++ box b'\x82'
    ++ codes "    Proccess Name:    "
    ++ box b'\x82'
    ++ codes "   Process Status:    "
    ++ box b'\x82'

abbrev pub blank : Text
blank = spaces 22 ++ codes "|" ++ spaces 22 ++ codes "|"

unfoldable pub process_line : Process → Option Text
unfolding column
process_line p = line (codes "|" ++ blank) (column p.name) (column (process_state p.state)) []

unfoldable pub job_line : Job → Option Text
unfolding column
job_line j = line (codes "|") (column j.config.name) (column (job_state j.state)) blank

abbrev line_first : Option Text → Option (List Text) → Option (List Text)
line_first (some l) (some ls) = some (l ∷ ls)
line_first (some l) none = none
line_first none ls = none

unfoldable pub process_lines : List Process → Option (List Text)
unfolding process_line
process_lines [] = some []
process_lines (p ∷ ps) = line_first (process_line p) (process_lines ps)

abbrev pub framed : Option Text → Option (List Text) → Option (List Text)
framed (some l) (some ls) = some (
    rule b'\x8C' b'\xAC' b'\x90'
      ∷ title
      ∷ rule b'\x9C' b'\xBC' b'\xA4'
      ∷ l
      ∷ rule b'\x9C' b'\xBC' b'\xA4'
      ∷ ls
    ++ rule b'\x94' b'\xB4' b'\x98' ∷ [])
framed (some l) none = none
framed none ls = none

-- `operator<<`, line by line; `none` is undefined behaviour.
unfoldable pub table : Job → Option (List Text)
unfolding job_line process_lines
table j = framed (job_line j) (process_lines j.processes)
