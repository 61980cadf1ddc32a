-- ===== src/Base/Assoc.antt =====
-- `std::unordered_map` as an association list; the order of the entries stands for the order of
-- its iteration, which the standard leaves open.
pub mod Keys
pub mod Same
use mathlib.Core.Path.{◌≡◌, refl}
use mathlib.Core.Logic.{inl, inr}
use mathlib.Core.Option.{Option, none, some}
use mathlib.Core.List.{List, [], ◌∷◌}
use native.Mathlib.Omega.{arith}
use task_master.Base.Tests.{KeyEq, ◌==◌, if◌then◌else◌, Bool-cases}
use task_master.Base.Lists.{All}

module _ {ℓ κ} {K : Type ℓ} {V : Type κ} ⦃q : KeyEq K⦄ where
  -- `erase(key)`
  unfoldable pub erase : K → List (K × V) → List (K × V)
  erase key [] = []
  erase key ((name, value) ∷ rest) = if name == key then rest else (name, value) ∷ erase key rest

  -- `m[key] = new`
  unfoldable pub insert : K → V → List (K × V) → List (K × V)
  insert key new [] = (key, new) ∷ []
  insert key new ((name, value) ∷ rest) =
      if name == key then (key, new) ∷ rest else (name, value) ∷ insert key new rest

  -- `find(key)`, `at(key)`
  unfoldable pub lookup : K → List (K × V) → Option V
  lookup key [] = none
  lookup key ((name, value) ∷ rest) = if name == key then some value else lookup key rest

  -- The key is new, as the keys of a map are among themselves.
  abbrev pub IsFresh : K → List (K × V) → Type ℓ
  IsFresh k = All (λ entry. (entry.0 ≡ k → ⊥))

  abbrev pub IsMap : List (K × V) → Type ℓ
  IsMap [] = Unit
  IsMap ((k, v) ∷ m) = IsFresh k m × IsMap m

  -- A read behind a write.
  pub lookup-insert :
      (key other : K) (new : V) (rest : List (K × V))
      → lookup other (insert key new rest) ≡ (if key == other then some new else lookup other rest)
  unfolding insert lookup
  lookup-insert key other new [] = refl
  lookup-insert key other new ((name, value) ∷ rest) = ground (
    arith,
    lookup-insert key other new rest,
    q.same_iff name other,
    q.same_iff name key,
    q.same_iff key other,
  )

  pub lookup_fresh : (k : K) (m : List (K × V)) → IsFresh k m → lookup k m ≡ none
  unfolding lookup
  lookup_fresh k [] h = refl
  lookup_fresh k ((j, w) ∷ m) h = ground (arith, q.same_iff j k, lookup_fresh k m h.1)

  pub IsFresh-lookup : (k : K) (m : List (K × V)) → lookup k m ≡ none → IsFresh k m
  unfolding lookup
  IsFresh-lookup k [] h = tt
  IsFresh-lookup k ((j, w) ∷ m) h = elim (Bool-cases (j == k)) [
    | inl same ↦ absurd (ground arith)
    | inr other ↦ (λ same. ground (arith, q.same_iff j k), IsFresh-lookup k m (ground arith))
  ]

  pub lookup-erase :
      (k j : K) (m : List (K × V))
      → IsMap m
      → lookup j (erase k m) ≡ (if k == j then none else lookup j m)
  unfolding lookup erase
  lookup-erase k j [] h = ground arith
  lookup-erase k j ((i, w) ∷ m) h = ground (
    arith,
    q.same_iff k j,
    q.same_iff i k,
    q.same_iff i j,
    lookup-erase k j m h.1,
    lookup_fresh i m h.0,
  )
