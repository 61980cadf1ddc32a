-- ===== src/Job/Columns.antt =====
-- How wide the lines of the status table of taskmasterd/src/jobs/Job.cpp are.
use task_master.Base.{
  ℕ, zero, suc, ◌+◌, ◌-◌, ◌/◌, ◌≤◌, ◌<◌, List, [], ◌∷◌, ◌++◌, Option, some, none, true, false, ◌≡◌,
  refl, ap, ◌∙◌, ◌⊎◌, inl, inr, ◌&&◌, All, all, All-append, arith, length, length-append, leb, ltb,
  if◌then◌else◌, Bool-cases,
}
use task_master.Base.Text.{Text, codes}
use task_master.Job.{Job}
use task_master.Job.Callbacks
use task_master.Job.Table
use task_master.Job.Table.{
  max_size, column, process_line, process_lines, job_line, table, line, spaces, blank,
}
use task_master.Process
use task_master.Process.{Process}

-- The glyphs of a text in UTF-8: every byte but those that continue one.
unfoldable pub width : Text → ℕ
width [] = 0
width (b ∷ s) = let rest = width s in if leb b'\x80' b && ltb b b'\xC0' then rest else suc rest

abbrev pub IsAscii : Text → Type 0
IsAscii s = all (λ b. ltb b 128) s ≡ true

-- A name that the column has room for.
abbrev pub Fits : Text → Type 0
Fits name = length name ≤ max_size

abbrev pub AllFit : Job → Type 0
AllFit j = Fits j.config.name × All (λ (p : Process). Fits p.name) j.processes

width-append : (a b : Text) → width (a ++ b) ≡ width a + width b
unfolding width
width-append [] b = omega arith
width-append (x ∷ a) b = ground (arith, width-append a b)

width_ascii : (s : Text) → IsAscii s → width s ≡ length s
unfolding width
width_ascii [] h = refl
width_ascii (x ∷ s) h = ground (arith, width_ascii s)

width-spaces : (n : ℕ) → width (spaces n) ≡ n
unfolding Table.repeat width
width-spaces zero = refl
width-spaces (suc n) = ap suc (width-spaces n)

abbrev OfWidth : ℕ → Option Text → Type 0
OfWidth n o = (c : Text) × (o ≡ some c) × (width c ≡ n)

padded_width :
    (l r : ℕ) (name : Text)
    → IsAscii name
    → width (spaces l ++ name ++ spaces r ++ codes "|") ≡ l + length name + r + 1
unfolding width
padded_width l r name ascii =
    rw
      (
        width-append (spaces l ++ name ++ spaces r) (codes "|"),
        width-append (spaces l ++ name) (spaces r),
        width-append (spaces l) name,
        width-spaces l,
        width-spaces r,
        width_ascii name ascii,
      )
      refl

at_least_one_suc : (n : ℕ) → (if leb 1 (n + 1) then n + 1 else 1) ≡ n + 1
at_least_one_suc n = ground arith

filler_width-Fits :
    (name : Text)
    → Fits name
    → Table.filler_width name
      ≡ some ((max_size - length name) / 2 + 1, (max_size - length name + 1) / 2 + 1)
unfolding Table.filler_width
filler_width-Fits name fits =
    let rest = max_size - length name in
    let short : leb (length name) max_size ≡ true = ground arith in
    rw (short, at_least_one_suc (rest / 2), at_least_one_suc ((rest + 1) / 2)) refl

column-Fits : (name : Text) → IsAscii name → Fits name → OfWidth 23 (column name)
unfolding column Table.format_column
column-Fits name ascii fits =
    let rest = max_size - length name in
    let short : ltb max_size (length name) ≡ false = ground arith in
    rw (filler_width-Fits name fits, short)
      (
        spaces (rest / 2 + 1) ++ name ++ spaces ((rest + 1) / 2 + 1) ++ codes "|",
        refl,
        padded_width (rest / 2 + 1) ((rest + 1) / 2 + 1) name ascii ∙ omega arith,
      )

column_long : (name : Text) → max_size < length name → column name ≡ none
unfolding column Table.filler_width
column_long name long = let h : leb (length name) max_size ≡ false = ground arith in rw h refl

process_state_fits : (s : Process.State) → OfWidth 23 (column (Table.process_state s))
process_state_fits Process.State.backoff = column-Fits (codes "BACKOFF") refl (ground arith)
process_state_fits Process.State.exited = column-Fits (codes "EXITED") refl (ground arith)
process_state_fits Process.State.fatal = column-Fits (codes "FATAL") refl (ground arith)
process_state_fits Process.State.running = column-Fits (codes "RUNNING") refl (ground arith)
process_state_fits Process.State.starting = column-Fits (codes "STARTING") refl (ground arith)
process_state_fits Process.State.stopped = column-Fits (codes "STOPPED") refl (ground arith)
process_state_fits Process.State.stopping = column-Fits (codes "STOPPING") refl (ground arith)
process_state_fits Process.State.unknown = column-Fits (codes "UNKNOWN") refl (ground arith)

job_state_fits : (s : Callbacks.State) → OfWidth 23 (column (Table.job_state s))
job_state_fits Callbacks.State.empty = column-Fits (codes "EMPTY") refl (ground arith)
job_state_fits Callbacks.State.starting = column-Fits (codes "STARTING") refl (ground arith)
job_state_fits Callbacks.State.running = column-Fits (codes "RUNNING") refl (ground arith)
job_state_fits Callbacks.State.stopping = column-Fits (codes "STOPPING") refl (ground arith)
job_state_fits Callbacks.State.stopped = column-Fits (codes "STOPPED") refl (ground arith)
job_state_fits Callbacks.State.replaced = column-Fits (codes "UNKNOWN") refl (ground arith)
job_state_fits Callbacks.State.removed = column-Fits (codes "UNKNOWN") refl (ground arith)

Fits-or_long : (name : Text) → Fits name ⊎ (max_size < length name)
Fits-or_long name = elim (Bool-cases (leb (length name) max_size)) [
  | inl h ↦ inl (ground arith)
  | inr h ↦ inr (ground arith)
]

line-width :
    (before after : Text) (a b : Option Text)
    → width before + width after ≡ 47
    → OfWidth 23 a
    → OfWidth 23 b
    → OfWidth 93 (line before a b after)
line-width before after a b h (c, e, w) (d, f, v) =
    rw (e, f)
      (
        before ++ c ++ d ++ after,
        refl,
        rw
            (
              width-append (before ++ c ++ d) after,
              width-append (before ++ c) d,
              width-append before c,
              w,
              v,
            )
            (omega arith),
      )

process_frame : width (codes "|" ++ blank) + width [] ≡ 47
unfolding width Table.repeat
process_frame = refl

job_frame : width (codes "|") + width blank ≡ 47
unfolding width Table.repeat
job_frame = refl

-- A byte that continues a glyph.
abbrev IsCorner : ℕ → Type 0
IsCorner b = (leb b'\x80' b && ltb b b'\xC0') ≡ true

rule-width : (a b c : ℕ) → IsCorner a → IsCorner b → IsCorner c → width (Table.rule a b c) ≡ 93
unfolding width Table.repeat
rule-width a b c ha hb hc = rw (ha, hb, hc) refl

title-width : width Table.title ≡ 93
unfolding width
title-width = refl

process_line_cases :
    (p : Process)
    → IsAscii p.name
    → (Fits p.name × OfWidth 93 (process_line p))
      ⊎ ((max_size < length p.name) × (process_line p ≡ none))
unfolding process_line
process_line_cases p ascii = elim (Fits-or_long p.name) [
  | inl fits ↦ inl (
    fits,
    line-width (codes "|" ++ blank) [] (column p.name) (column (Table.process_state p.state))
        process_frame (column-Fits p.name ascii fits) (process_state_fits p.state),
  )
  | inr long ↦ inr (long, rw (column_long p.name long) refl)
]

job_line_cases :
    (j : Job)
    → IsAscii j.config.name
    → (Fits j.config.name × OfWidth 93 (job_line j))
      ⊎ ((max_size < length j.config.name) × (job_line j ≡ none))
unfolding job_line
job_line_cases j ascii = elim (Fits-or_long j.config.name) [
  | inl fits ↦ inl (
    fits,
    line-width (codes "|") blank (column j.config.name) (column (Table.job_state j.state)) job_frame
        (column-Fits j.config.name ascii fits) (job_state_fits j.state),
  )
  | inr long ↦ inr (long, rw (column_long j.config.name long) refl)
]

-- The lines are there, each so wide, and so many.
abbrev pub Lines : ℕ → Option (List Text) → Type 0
Lines n o = (ls : List Text) × (o ≡ some ls) × All (λ l. width l ≡ 93) ls × (length ls ≡ n)

process_lines_cases :
    (ps : List Process)
    → All (λ (p : Process). IsAscii p.name) ps
    → (All (λ (p : Process). Fits p.name) ps × Lines (length ps) (process_lines ps))
      ⊎ ((¬ All (λ (p : Process). Fits p.name) ps) × (process_lines ps ≡ none))
unfolding process_lines
process_lines_cases [] ascii = inl (tt, ([], refl, tt, refl))
process_lines_cases (p ∷ ps) (a, ascii) = go (process_line_cases p a) (process_lines_cases ps ascii)
  where
    go :
        (Fits p.name × OfWidth 93 (process_line p))
          ⊎ ((max_size < length p.name) × (process_line p ≡ none))
        → (All (λ (q : Process). Fits q.name) ps × Lines (length ps) (process_lines ps))
          ⊎ ((¬ All (λ (q : Process). Fits q.name) ps) × (process_lines ps ≡ none))
        → (All (λ (q : Process). Fits q.name) (p ∷ ps)
            × Lines (length (p ∷ ps)) (process_lines (p ∷ ps)))
          ⊎ ((¬ All (λ (q : Process). Fits q.name) (p ∷ ps)) × (process_lines (p ∷ ps) ≡ none))
    go (inr (long, e)) more = inr (λ fits. ground (arith, fits.0), rw e refl)
    go (inl (fits, (l, e, w))) (inr (long, f)) = inr (λ all_fit. long all_fit.1, rw (e, f) refl)
    go (inl (fits, (l, e, w))) (inl (rest, (ls, f, ws, n))) =
        inl ((fits, rest), rw (e, f) (l ∷ ls, refl, (w, ws), ap suc n))

-- A table is printed exactly if every name fits into its column, 20 bytes; its lines, six and one for each
-- process, are then all 93 columns wide. With a longer name the behaviour is undefined. The names are
-- ASCII.
pub table-Lines :
    (j : Job)
    → IsAscii j.config.name
    → All (λ (p : Process). IsAscii p.name) j.processes
    → (AllFit j × Lines (6 + length j.processes) (table j)) ⊎ ((¬ AllFit j) × (table j ≡ none))
unfolding table
table-Lines j ascii names = go (job_line_cases j ascii) (process_lines_cases j.processes names)
  where
    go :
        (Fits j.config.name × OfWidth 93 (job_line j))
          ⊎ ((max_size < length j.config.name) × (job_line j ≡ none))
        → (All (λ (q : Process). Fits q.name) j.processes
            × Lines (length j.processes) (process_lines j.processes))
          ⊎ ((¬ All (λ (q : Process). Fits q.name) j.processes)
              × (process_lines j.processes ≡ none))
        → (AllFit j × Lines (6 + length j.processes) (table j)) ⊎ ((¬ AllFit j) × (table j ≡ none))
    go (inr (long, e)) more = inr (λ fits. ground (arith, fits.0), rw e refl)
    go (inl (fits, (l, e, w))) (inr (long, f)) = inr (λ all_fit. long all_fit.1, rw (e, f) refl)
    go (inl (fits, (l, e, w))) (inl (rest, (ls, f, ws, n))) =
        let first = rule-width b'\x8C' b'\xAC' b'\x90' refl refl refl in
        let between = rule-width b'\x9C' b'\xBC' b'\xA4' refl refl refl in
        let last = rule-width b'\x94' b'\xB4' b'\x98' refl refl refl in
        let inner = Table.rule b'\x9C' b'\xBC' b'\xA4' in
        let above = Table.rule b'\x8C' b'\xAC' b'\x90' ∷ Table.title ∷ inner ∷ l ∷ inner ∷ [] in
        let end = Table.rule b'\x94' b'\xB4' b'\x98' in
        inl (
          (fits, rest),
          rw (e, f)
              (
                _,
                refl,
                All-append (λ l. width l ≡ 93) (above ++ ls) (end ∷ [])
                    (All-append (λ l. width l ≡ 93) above ls
                      (first, (title-width, (between, (w, (between, tt))))) ws)
                    (last, tt),
                ground (arith, n, length-append (above ++ ls) (end ∷ [])),
              ),
        )
