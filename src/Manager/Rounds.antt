-- ===== src/Manager/Rounds.antt =====
-- The loops over the names of the jobs in taskmasterd/src/jobs/JobManager.cpp, each round of which
-- changes the job of its name and no other.
use task_master.Base.{
  List, [], ◌∷◌, Option, some, none, ◌≡◌, refl, sym, arith, Bool, true, false, ◌==◌, if◌then◌else◌,
  inl, inr, Bool-cases,
}
use task_master.Base.Text.{Text, text_key}
use task_master.Base.Assoc.{lookup, IsFresh, IsMap}
use task_master.Exec.{returned}
use task_master.System.{System}
use task_master.Timer.{Method}
use task_master.Job.{Job}
use task_master.Manager.{Manager, keys, for_names}

-- The name is one of them.
abbrev pub among : Text → List Text → Bool
among name [] = false
among name (n ∷ ns) = if n == name then true else among name ns

abbrev pub AreDistinct : List Text → Type 0
AreDistinct [] = Unit
AreDistinct (n ∷ ns) = (among n ns ≡ false) × AreDistinct ns

module _ {V : Type 0} where
  abbrev pub is_held : Option V → Bool
  is_held none = false
  is_held (some v) = true

  pub among-keys :
      (name : Text) (m : List (Text × V)) → among name (keys m) ≡ is_held (lookup name m)
  unfolding lookup
  among-keys name [] = refl
  among-keys name ((n, v) ∷ m) = elim (Bool-cases (n == name)) [
    | inl same ↦ rw (same, lookup) refl
    | inr other ↦ rw (other, lookup) (among-keys name m)
  ]

  among_fresh : (name : Text) (m : List (Text × V)) → IsFresh name m → among name (keys m) ≡ false
  among_fresh name [] h = refl
  among_fresh name ((n, v) ∷ m) h = ground (arith, text_key.same_iff n name, among_fresh name m h.1)

  pub keys-AreDistinct : (m : List (Text × V)) → IsMap m → AreDistinct (keys m)
  keys-AreDistinct [] h = tt
  keys-AreDistinct ((n, v) ∷ m) h = (among_fresh n m h.0, keys-AreDistinct m h.1)

module _ (Inv : Manager → Type 0) (Before After : Text → Option Job → Type 0)
    (f : Text → Method Manager Unit) where
  -- What a job is, by whether its round is still to come.
  abbrev pub Due : Bool → Text → Option Job → Type 0
  Due true = Before
  Due false = After

  abbrev pub Advances : Text → Manager × System → Type 0
  Advances name s =
      let r = f name s in
      (r.0 ≡ returned tt)
      × Inv r.1.0
      × After name (lookup name r.1.0.jobs)
      × ((other : Text) → (name == other) ≡ false → lookup other r.1.0.jobs ≡ lookup other s.0.jobs)

  abbrev pub Finishes : List Text → Manager × System → Type 0
  Finishes names s =
      let r = for_names f names s in
      (r.0 ≡ returned tt) × Inv r.1.0 × ((name : Text) → After name (lookup name r.1.0.jobs))

  turns_after :
      (n : Text) (ns : List Text) (s t : Manager × System)
      → among n ns ≡ false
      → ((name : Text) → Due (among name (n ∷ ns)) name (lookup name s.0.jobs))
      → After n (lookup n t.0.jobs)
      → ((other : Text) → (n == other) ≡ false → lookup other t.0.jobs ≡ lookup other s.0.jobs)
      → (name : Text) → Due (among name ns) name (lookup name t.0.jobs)
  turns_after n ns s t fresh turn done frame name = elim (Bool-cases (n == name)) [
    | inl same ↦ rw (sym ((text_key.same_iff n name).0 same), fresh) done
    | inr other ↦ rw (frame name other) (rw (other) at (turn name))
  ]

  -- A loop over distinct names is right if each of its rounds is.
  pub for_names-Finishes :
      ((name : Text) (s : Manager × System)
        → Inv s.0
        → Before name (lookup name s.0.jobs)
        → Advances name s)
      → (names : List Text) (s : Manager × System) → AreDistinct names
      → Inv s.0
      → ((name : Text) → Due (among name names) name (lookup name s.0.jobs))
      → Finishes names s
  unfolding for_names
  for_names-Finishes round [] s d i turn = (refl, i, turn)
  for_names-Finishes round (n ∷ ns) s d i turn =
      let first : Before n (lookup n s.0.jobs) = rw ((text_key.same_iff n n).1 refl) at (turn n) in
      let (r, i', a, frame) = round n s i first in
      let t = (f n s).1 in
      rw (r) (for_names-Finishes round ns t d.1 i' (turns_after n ns s t d.0 turn a frame))
