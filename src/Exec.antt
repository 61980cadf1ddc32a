-- ===== src/Exec.antt =====
-- Code that changes an object and may throw: what was written before a throw stays written, so the
-- object comes back in every case. A run of a forked child may also end the process that runs it.
pub mod Keeps
use task_master.Base.{ℕ, List, [], ◌∷◌}
use task_master.Base.Text.{Text}

-- The exceptions of the source, by the place that throws them.
pub data Error : Type 0 where
  fork_failed pidfd_failed signal_failed kill_failed wait_failed : Text → Error
  timer_create_failed timer_set_failed timer_read_failed : Error
  epoll_update_failed epoll_remove_failed epoll_wait_failed : Error
  open_failed dup_failed working_dir_failed null_path : Error
  out_of_range bad_function_call : Error
  config_failed : Error
  socket_failed reuse_failed bind_failed listen_failed connect_failed : Error
  invalid_address path_too_long : Text → Error
  job_missing job_not_created : Text → Error
  accept_failed recv_failed send_failed parse_failed serialize_failed : Error
  already_initialized logger_initialized daemon_missing invalid_status : Error

-- `terminated` is `std::terminate`; `exited` and `replaced` are the ends of a forked child.
pub data Outcome {ℓ} (A : Type ℓ) : Type ℓ where
  returned : A → Outcome A
  thrown : Error → Outcome A
  terminated : Outcome A
  exited : ℕ → Outcome A
  replaced : Outcome A

abbrev pub Exec {ℓ} : Type ℓ → Type ℓ → Type ℓ
Exec S A = S → Outcome A × S

module _ {ℓ} {S A : Type ℓ} where
  abbrev pub pure : A → Exec S A
  pure a s = (returned a, s)

  abbrev pub throw : Error → Exec S A
  throw e s = (thrown e, s)

  abbrev pub exit : ℕ → Exec S A
  exit n s = (exited n, s)

  abbrev pub replace_image : Exec S A
  replace_image s = (replaced, s)

  abbrev pub handle : Outcome A × S → (Error → Exec S A) → Outcome A × S
  handle (thrown e, s) h = h e s
  handle (returned a, s) h = (returned a, s)
  handle (terminated, s) h = (terminated, s)
  handle (exited n, s) h = (exited n, s)
  handle (replaced, s) h = (replaced, s)

  -- `try { m } catch (const std::exception& e) { h }`
  abbrev pub catch : Exec S A → (Error → Exec S A) → Exec S A
  catch m h s = handle (m s) h

  -- An exception that leaves a destructor ends the program.
  abbrev pub destructor : Exec S A → Exec S A
  destructor m s = handle (m s) (λ e t. (terminated, t))

module _ {ℓ} {S A B : Type ℓ} where
  abbrev pub continue : Outcome A × S → (A → Exec S B) → Outcome B × S
  continue (returned a, s) f = f a s
  continue (thrown e, s) f = (thrown e, s)
  continue (terminated, s) f = (terminated, s)
  continue (exited n, s) f = (exited n, s)
  continue (replaced, s) f = (replaced, s)

  infixl 5 ◌>>=◌ ◌>>◌
  abbrev pub ◌>>=◌ : Exec S A → (A → Exec S B) → Exec S B
  ◌>>=◌ m f s = continue (m s) f

  abbrev pub ◌>>◌ : Exec S A → Exec S B → Exec S B
  m >> n = m >>= λ _. n

module _ {ℓ} {S T A : Type ℓ} where
  -- An action on a part of the object.
  abbrev pub within : (T → S) → (T → S → T) → Exec S A → Exec T A
  within get put m t = let (r, s) = m (get t) in (r, put t s)

module _ {P S : Type 0} where
  abbrev pub next_round :
      Outcome (Unit {0}) × (P × S)
      → List P
      → (S → Outcome (Unit {0}) × (List P × S))
      → Outcome (Unit {0}) × (List P × S)
  next_round (returned _, (p, s)) ps rest = let (r, u) = rest s in (r, (p ∷ u.0, u.1))
  next_round (thrown e, (p, s)) ps rest = (thrown e, (p ∷ ps, s))
  next_round (terminated, (p, s)) ps rest = (terminated, (p ∷ ps, s))
  next_round (exited n, (p, s)) ps rest = (exited n, (p ∷ ps, s))
  next_round (replaced, (p, s)) ps rest = (replaced, (p ∷ ps, s))

  -- A loop over a container: what a round throws ends it, and leaves the later elements as they are.
  unfoldable pub for_each : Exec (P × S) Unit → List P → S → Outcome (Unit {0}) × (List P × S)
  for_each m [] s = (returned tt, ([], s))
  for_each m (p ∷ ps) s = next_round (m (p, s)) ps (for_each m ps)

-- The run went to its end.
abbrev pub Returns {ℓ} : {S A : Type ℓ} → Outcome A × S → Type 0
Returns (returned a, s) = Unit {0}
Returns (thrown e, s) = ⊥
Returns (terminated, s) = ⊥
Returns (exited n, s) = ⊥
Returns (replaced, s) = ⊥
