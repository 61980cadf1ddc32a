-- ===== src/Exec/Keeps.antt =====
-- Invariants of actions that may throw: they hold of the object whatever the outcome.
use task_master.Base.{Bool, true, false, if◌then◌else◌}
use task_master.Exec.{
  Outcome, Error, Exec, catch, continue, handle, ◌>>=◌, returned, thrown, terminated, exited,
  replaced,
}

abbrev pub Keeps {ℓ} : {S A : Type ℓ} → (S → Type 0) → Exec S A → Type ℓ
Keeps {S} P m = (s : S) → P s → P (m s).1

module _ {ℓ} {S A B : Type ℓ} (P : S → Type 0) where
  pub continue-Keeps :
      (r : Outcome A × S) (f : A → Exec S B)
      → P r.1
      → ((a : A) → Keeps P (f a))
      → P (continue r f).1
  continue-Keeps (returned x, t) f now next = next x t now
  continue-Keeps (thrown e, t) f now next = now
  continue-Keeps (terminated, t) f now next = now
  continue-Keeps (exited n, t) f now next = now
  continue-Keeps (replaced, t) f now next = now

  pub bind-Keeps :
      (m : Exec S A) (f : A → Exec S B) → Keeps P m → ((a : A) → Keeps P (f a)) → Keeps P (m >>= f)
  bind-Keeps first f one two t now = continue-Keeps (first t) f (one t now) two

module _ {ℓ} {S A : Type ℓ} (P : S → Type 0) where
  pub handle-Keeps :
      (r : Outcome A × S) (f : Error → Exec S A)
      → P r.1
      → ((e : Error) → Keeps P (f e))
      → P (handle r f).1
  handle-Keeps (returned a, s) f h kf = h
  handle-Keeps (thrown e, s) f h kf = kf e s h
  handle-Keeps (terminated, s) f h kf = h
  handle-Keeps (exited n, s) f h kf = h
  handle-Keeps (replaced, s) f h kf = h

  pub catch-Keeps :
      (m : Exec S A) (f : Error → Exec S A)
      → Keeps P m
      → ((e : Error) → Keeps P (f e))
      → Keeps P (catch m f)
  catch-Keeps m f km kf s h = handle-Keeps (m s) f (km s h) kf

  pub if-Keeps :
      (test : Bool) (yes_part no_part : Exec S A)
      → Keeps P yes_part
      → Keeps P no_part
      → Keeps P (if test then yes_part else no_part)
  if-Keeps false yes_part no_part y z = z
  if-Keeps true yes_part no_part y z = y

module _ {ℓ} {S : Type ℓ} {A B : Type ℓ} (P : S → Type 0) where
  pub then-Keeps : (m : Exec S A) (n : Exec S B) → Keeps P m → Keeps P n → Keeps P (m >>= λ _. n)
  then-Keeps m n km kn = bind-Keeps P m (λ _. n) km (λ _. kn)
