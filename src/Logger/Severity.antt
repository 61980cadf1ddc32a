-- ===== src/Logger/Severity.antt =====
-- The levels of libs/logger against the severity of a message.
use task_master.Base.{
  ℕ, ◌<◌, ◌≤◌, List, [], ◌∷◌, Bool, true, false, ◌≡◌, refl, ◌⊎◌, inl, inr, arith, ◌≢◌, ◌++◌,
}
use task_master.Base.Text.{Text}
use task_master.Logger.{
  LogType, LogLevel, Output, fatal, error, warning, info, debug, nothing, sparse, normal,
  everything, can_log, log,
}

abbrev pub severity : LogType → ℕ
severity fatal = 0
severity error = 1
severity warning = 2
severity info = 3
severity debug = 4

-- The severities below this are logged.
abbrev pub threshold : LogLevel → ℕ
threshold nothing = 0
threshold sparse = 3
threshold normal = 4
threshold everything = 5

can_log-threshold :
    (level : LogLevel) (kind : LogType)
    → ((severity kind < threshold level) × (can_log level kind ≡ true))
      ⊎ ((threshold level ≤ severity kind) × (can_log level kind ≡ false))
unfolding can_log
can_log-threshold nothing kind = inr (omega arith, refl)
can_log-threshold sparse fatal = inl (omega arith, refl)
can_log-threshold sparse error = inl (omega arith, refl)
can_log-threshold sparse warning = inl (omega arith, refl)
can_log-threshold sparse info = inr (omega arith, refl)
can_log-threshold sparse debug = inr (omega arith, refl)
can_log-threshold normal fatal = inl (omega arith, refl)
can_log-threshold normal error = inl (omega arith, refl)
can_log-threshold normal warning = inl (omega arith, refl)
can_log-threshold normal info = inl (omega arith, refl)
can_log-threshold normal debug = inr (omega arith, refl)
can_log-threshold everything fatal = inl (omega arith, refl)
can_log-threshold everything error = inl (omega arith, refl)
can_log-threshold everything warning = inl (omega arith, refl)
can_log-threshold everything info = inl (omega arith, refl)
can_log-threshold everything debug = inl (omega arith, refl)

abbrev pub log_at : Bool → LogLevel → Text → LogType → List Output
log_at to_stdout level = log (record { log_level = level; enable_logging_stdout = to_stdout })

snoc_some : {A : Type 0} (xs : List A) (x : A) → xs ++ x ∷ [] ≢ []
snoc_some [] x e = cc
snoc_some (y ∷ xs) x e = cc

-- A message is logged exactly if its severity is below the threshold of the level, and a logger with a
-- higher threshold writes the same for it.
pub log_levels :
    (level more : LogLevel) (to_stdout : Bool) (message : Text) (kind : LogType)
    → threshold level ≤ threshold more
    → ((severity kind < threshold level)
        × (log_at to_stdout level message kind ≢ [])
        × (log_at to_stdout level message kind ≡ log_at to_stdout more message kind))
      ⊎ ((threshold level ≤ severity kind) × (log_at to_stdout level message kind ≡ []))
unfolding log
log_levels level more to_stdout message kind le =
    go (can_log-threshold level kind) (can_log-threshold more kind)
  where
    go :
        ((severity kind < threshold level) × (can_log level kind ≡ true))
          ⊎ ((threshold level ≤ severity kind) × (can_log level kind ≡ false))
        → ((severity kind < threshold more) × (can_log more kind ≡ true))
          ⊎ ((threshold more ≤ severity kind) × (can_log more kind ≡ false))
        → ((severity kind < threshold level)
            × (log_at to_stdout level message kind ≢ [])
            × (log_at to_stdout level message kind ≡ log_at to_stdout more message kind))
          ⊎ ((threshold level ≤ severity kind) × (log_at to_stdout level message kind ≡ []))
    go (inr (high, e)) more_can = inr (high, rw e refl)
    go (inl (low, e)) (inl (below, f)) = inl (low, rw e (snoc_some _ _), rw (e, f) refl)
    go (inl (low, e)) (inr (above, f)) = absurd (omega (arith, le, low, above))
