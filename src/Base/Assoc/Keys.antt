-- ===== src/Base/Assoc/Keys.antt =====
-- The keys of an association list stay distinct, and a property of its entries is kept.
use native.Mathlib.Omega.{arith}
use mathlib.Core.Path.{◌≡◌, refl, sym, subst, subst₂}
use mathlib.Core.Logic.{inl, inr}
use mathlib.Core.Bool.{false}
use mathlib.Core.Option.{none, some, some-injective}
use mathlib.Core.List.{List, [], ◌∷◌, ◌++◌}
use task_master.Base.Tests.{KeyEq, ◌==◌, Bool-cases}
use task_master.Base.Lists.{All}
use task_master.Base.Assoc.{lookup, insert, erase, IsFresh, IsMap}

module _ {ℓ} {K : Type ℓ} ⦃q : KeyEq K⦄ where
  pub different : (j k : K) → (j == k) ≡ false → j ≡ k → ⊥
  different j k f p = cc ((q.same_iff j k).1 p)

module _ {ℓ κ} {K : Type ℓ} {V : Type κ} ⦃q : KeyEq K⦄ where
  pub All-insert {μ} :
      (P : K × V → Type μ) (k : K) (v : V) (m : List (K × V))
      → P (k, v)
      → All P m
      → All P (insert k v m)
  unfolding insert
  All-insert P k v [] p h = (p, tt)
  All-insert P k v ((j, w) ∷ m) p h = elim (Bool-cases (j == k)) [
    | inl same ↦ rw (same, insert) (p, h.1)
    | inr other ↦ rw (other, insert) (h.0, All-insert P k v m p h.1)
  ]

  pub All-erase {μ} : (P : K × V → Type μ) (k : K) (m : List (K × V)) → All P m → All P (erase k m)
  unfolding erase
  All-erase P k [] h = tt
  All-erase P k ((j, w) ∷ m) h = elim (Bool-cases (j == k)) [
    | inl same ↦ rw (same, erase) h.1
    | inr other ↦ rw (other, erase) (h.0, All-erase P k m h.1)
  ]

  pub All-lookup {μ} :
      (P : K × V → Type μ) (k : K) (v : V) (m : List (K × V))
      → All P m
      → lookup k m ≡ some v
      → P (k, v)
  unfolding lookup
  All-lookup P k v [] h e = cc
  All-lookup P k v ((j, w) ∷ m) h found = elim (Bool-cases (j == k)) [
    | inl same ↦
        subst₂ (λ a b. P (a, b)) ((q.same_iff j k).0 same)
          (some-injective w v (rw (same, lookup) at found)) h.0
    | inr other ↦ All-lookup P k v m h.1 (rw (other, lookup) at found)
  ]

  pub IsMap-insert : (k : K) (v : V) (m : List (K × V)) → IsMap m → IsMap (insert k v m)
  unfolding insert
  IsMap-insert k v [] h = (tt, tt)
  IsMap-insert k v ((j, w) ∷ m) h = elim (Bool-cases (j == k)) [
    | inl same ↦ rw (same, insert) (subst (λ x. IsFresh x m) ((q.same_iff j k).0 same) h.0, h.1)
    | inr other ↦
        rw (other, insert)
          (
            All-insert (λ x. x.0 ≡ j → ⊥) k v m (λ w. different j k other (sym w)) h.0,
            IsMap-insert k v m h.1,
          )
  ]

  pub IsMap-erase : (k : K) (m : List (K × V)) → IsMap m → IsMap (erase k m)
  unfolding erase
  IsMap-erase k [] h = tt
  IsMap-erase k ((j, w) ∷ m) h = elim (Bool-cases (j == k)) [
    | inl same ↦ rw (same, erase) h.1
    | inr other ↦ rw (other, erase) (All-erase (λ x. x.0 ≡ j → ⊥) k m h.0, IsMap-erase k m h.1)
  ]

  pub All-snoc {μ} :
      (P : K × V → Type μ) (k : K) (v : V) (m : List (K × V))
      → All P m
      → P (k, v)
      → All P (m ++ (k, v) ∷ [])
  All-snoc P k v [] h p = (p, tt)
  All-snoc P k v (x ∷ m) h p = (h.0, All-snoc P k v m h.1 p)

  pub IsMap-snoc :
      (k : K) (v : V) (m : List (K × V)) → IsMap m → IsFresh k m → IsMap (m ++ (k, v) ∷ [])
  IsMap-snoc k v [] h f = (tt, tt)
  IsMap-snoc k v ((j, w) ∷ m) h f =
      (All-snoc (λ x. x.0 ≡ j → ⊥) k v m h.0 (λ q. f.0 (sym q)), IsMap-snoc k v m h.1 f.1)

  pub lookup_snoc_other :
      (k other : K) (v : V) (m : List (K × V))
      → (k == other) ≡ false
      → lookup other (m ++ (k, v) ∷ []) ≡ lookup other m
  unfolding lookup
  lookup_snoc_other k other v [] e = rw (e) refl
  lookup_snoc_other k other v ((j, w) ∷ m) e = ground (arith, lookup_snoc_other k other v m e)

  pub lookup_snoc_own :
      (k : K) (v : V) (m : List (K × V)) → lookup k m ≡ none → lookup k (m ++ (k, v) ∷ []) ≡ some v
  unfolding lookup
  lookup_snoc_own k v [] e = rw ((q.same_iff k k).1 refl) refl
  lookup_snoc_own k v ((j, w) ∷ m) e = elim (Bool-cases (j == k)) [
    | inl same ↦ absurd (ground arith)
    | inr other ↦ rw (other, lookup) (lookup_snoc_own k v m (rw (other, lookup) at e))
  ]

  pub lookup-erase_other :
      (k j : K) (m : List (K × V)) → (k == j) ≡ false → lookup j (erase k m) ≡ lookup j m
  unfolding lookup erase
  lookup-erase_other k j [] e = refl
  lookup-erase_other k j ((i, w) ∷ m) e =
      ground (arith, q.same_iff i k, q.same_iff i j, q.same_iff k j, lookup-erase_other k j m e)
