-- ===== src/Base/Assoc/Same.antt =====
-- Two maps of the standard library are equal when they hold the same entries, in whatever order.
use Prim.Native.Nat.{suc}
use mathlib.Core.Path.{◌≡◌, refl, sym, ap, subst, ◌∙◌}
use mathlib.Core.Logic.{inl, inr}
use mathlib.Core.Option.{none, some}
use mathlib.Core.List.{List, [], ◌∷◌}
use native.Mathlib.Omega.{arith}
use task_master.Base.Tests.{KeyEq, ◌==◌, Bool-cases}
use task_master.Base.Lists.{All, length}
use task_master.Base.Assoc.{lookup, erase, IsMap, IsFresh, lookup-erase, lookup_fresh}
use task_master.Base.Assoc.Keys.{IsMap-erase, different}

module _ {K V : Type 0} ⦃q : KeyEq K⦄ where
  abbrev pub HasEntry : List (K × V) → K × V → Type 0
  HasEntry m entry = lookup entry.0 m ≡ some entry.1

  -- The same answers to every search.
  abbrev pub SameEntries : List (K × V) → List (K × V) → Type 0
  SameEntries a b = (k : K) → lookup k a ≡ lookup k b

  length-erase :
      (k : K) (v : V) (m : List (K × V)) → lookup k m ≡ some v → length m ≡ suc (length (erase k m))
  unfolding lookup erase
  length-erase k v [] h = cc
  length-erase k v ((j, w) ∷ m) h = elim (Bool-cases (j == k)) [
    | inl same ↦ rw same refl
    | inr other ↦ rw other (ap suc (length-erase k v m (rw (other, lookup) at h)))
  ]

  lookup_other :
      (k j : K) (m : List (K × V)) → IsMap m → (j ≡ k → ⊥) → lookup j (erase k m) ≡ lookup j m
  lookup_other k j m h ne = ground (arith, lookup-erase k j m h, q.same_iff k j, ne)

  lookup_gone : (k : K) (m : List (K × V)) → IsMap m → lookup k (erase k m) ≡ none
  lookup_gone k m h = ground (arith, lookup-erase k k m h, q.same_iff k k)

  All-HasEntry-erase :
      (k : K) (b rest : List (K × V))
      → IsMap b
      → IsFresh k rest
      → All (HasEntry b) rest
      → All (HasEntry (erase k b)) rest
  All-HasEntry-erase k b [] m fresh h = tt
  All-HasEntry-erase k b ((j, w) ∷ rest) m (ne, fresh) (now, h) =
      (lookup_other k j b m ne ∙ now, All-HasEntry-erase k b rest m fresh h)

  -- As many entries, and each entry of the one in the other: then the other has no more.
  pub SameEntries-held :
      (a b : List (K × V))
      → IsMap a
      → IsMap b
      → length a ≡ length b
      → All (HasEntry b) a
      → SameEntries a b
  unfolding lookup
  SameEntries-held [] [] ma mb len h k = refl
  SameEntries-held [] (y ∷ b) ma mb len h k = absurd (omega (arith, len))
  SameEntries-held ((j, w) ∷ a) b (fresh, ma) mb len (now, h) k =
      let rest =
        SameEntries-held a (erase j b) ma (IsMap-erase j b mb)
          (omega (arith, len, length-erase j w b now)) (All-HasEntry-erase j b a mb fresh h) in
      elim (Bool-cases (j == k)) [
        | inl same ↦ rw (lookup, same) (sym now ∙ ap (λ i. lookup i b) ((q.same_iff j k).0 same))
        | inr other ↦
            rw (lookup, other) (rest k ∙ lookup_other j k b mb (λ e. different j k other (sym e)))
      ]

  nothing_held : (b : List (K × V)) → ((k : K) → lookup k b ≡ none) → b ≡ []
  unfolding lookup
  nothing_held [] h = refl
  nothing_held ((j, w) ∷ b) h = absurd (ground (arith, h j, q.same_iff j j))

  All-HasEntry-cons :
      (j : K) (w : V) (a rest : List (K × V))
      → IsFresh j rest
      → All (HasEntry a) rest
      → All (HasEntry ((j, w) ∷ a)) rest
  unfolding lookup
  All-HasEntry-cons j w a [] fresh h = tt
  All-HasEntry-cons j w a ((i, v) ∷ rest) (ne, fresh) (now, h) =
      (ground (arith, now, q.same_iff j i, ne), All-HasEntry-cons j w a rest fresh h)

  -- A map has its own entries.
  has_own : (a : List (K × V)) → IsMap a → All (HasEntry a) a
  unfolding lookup
  has_own [] m = tt
  has_own ((j, w) ∷ a) (fresh, m) =
      (ground (arith, q.same_iff j j), All-HasEntry-cons j w a a fresh (has_own a m))

  has_those :
      (a b rest : List (K × V)) → SameEntries a b → All (HasEntry a) rest → All (HasEntry b) rest
  has_those a b [] same h = tt
  has_those a b ((j, w) ∷ rest) same (now, h) = (sym (same j) ∙ now, has_those a b rest same h)

  length-SameEntries :
      (a b : List (K × V)) → IsMap a → IsMap b → SameEntries a b → length a ≡ length b
  unfolding lookup
  length-SameEntries [] b ma mb same = sym (ap length (nothing_held b (λ k. sym (same k))))
  length-SameEntries ((j, w) ∷ a) b (fresh, ma) mb same =
      let now : lookup j b ≡ some w = ground (arith, same j, q.same_iff j j) in
      let rest : SameEntries a (erase j b) = λ k. elim (Bool-cases (j == k)) [
        | inl e ↦
            subst (λ i. lookup i a ≡ lookup i (erase j b)) ((q.same_iff j k).0 e)
              (lookup_fresh j a fresh ∙ sym (lookup_gone j b mb))
        | inr other ↦
            (rw (other, lookup) at (same k))
            ∙ sym (lookup_other j k b mb (λ p. different j k other (sym p)))
      ] in
      ap suc (length-SameEntries a (erase j b) ma (IsMap-erase j b mb) rest)
      ∙ sym (length-erase j w b now)

  pub held-SameEntries :
      (a b : List (K × V))
      → IsMap a
      → IsMap b
      → SameEntries a b
      → (length a ≡ length b) × All (HasEntry b) a
  held-SameEntries a b ma mb same =
      (length-SameEntries a b ma mb same, has_those a b a same (has_own a ma))
