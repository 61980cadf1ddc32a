-- ===== src/Socket/Owners.antt =====
-- Every descriptor has one owner (libs/ipc/src/FileDescriptor.cpp).
use task_master.Base.{
  ℕ, zero, suc, ◌+◌, List, [], ◌∷◌, Option, some, none, Bool, true, false, if◌then◌else◌, ◌==◌, ◌≡◌,
  ◌≢◌, refl, sym, ap, ◌∙◌, arith, nat_beq, Option-cases, Bool-cases, inl, inr,
}
use task_master.Base.Int.{ℤ, int_key, int_beq_iff}
use task_master.System
use task_master.System.{System, Syscall, Kernel, minus_one, close_fd}
use task_master.Socket.Descriptor
use task_master.Socket.Descriptor.{Heap, read_at, write_at, set}

-- What a program does with its objects.
pub data Step : Type 0 where
  construct : ℤ → Step
  default_construct : Step
  move_construct close destroy : ℕ → Step
  move_assign : ℕ → ℕ → Step

abbrev pub one_if : Bool → ℕ
one_if b = if b then 1 else 0

module _ (d : ℤ) where
  abbrev pub holds : Option ℤ → ℕ
  holds none = 0
  holds (some fd) = one_if (fd == d)

  abbrev pub owners : List (Option ℤ) → ℕ
  owners [] = 0
  owners (o ∷ os) = holds o + owners os

  abbrev pub is_close : Syscall → Bool
  is_close (System.close fd) = fd == d
  is_close _ = false

  abbrev pub closes : List Syscall → ℕ
  closes [] = 0
  closes (c ∷ cs) = one_if (is_close c) + closes cs

  abbrev pub total : Heap → ℕ
  total h = owners h.objects + closes h.system.trace

  abbrev pub given : List Step → ℕ
  given [] = 0
  given (construct fd ∷ steps) = one_if (fd == d) + given steps
  given (_ ∷ steps) = given steps

module _ (k : Kernel) where
  abbrev pub step : Step → Heap → Heap
  step (construct fd) h = Descriptor.construct fd h
  step default_construct h = Descriptor.default_construct h
  step (move_construct i) h = Descriptor.move_construct i h
  step (move_assign i j) h = Descriptor.move_assign k i j h
  step (close i) h = Descriptor.close k i h
  step (destroy i) h = Descriptor.destroy k i h

  abbrev pub steps : List Step → Heap → Heap
  steps [] h = h
  steps (s ∷ ss) h = steps ss (step s h)

read_written :
    (i : ℕ) (v : Option ℤ) (os : List (Option ℤ)) (fd : ℤ)
    → read_at i os ≡ some fd
    → read_at i (write_at i v os) ≡ v
read_written i v [] fd e = absurd (cc)
read_written zero v (o ∷ os) fd e = refl
read_written (suc i) v (o ∷ os) fd e = read_written i v os fd e

read_elsewhere :
    (i j : ℕ) (v : Option ℤ) (os : List (Option ℤ))
    → nat_beq i j ≡ false
    → read_at j (write_at i v os) ≡ read_at j os
read_elsewhere i j v [] h = refl
read_elsewhere zero zero v (o ∷ os) h = ground arith
read_elsewhere zero (suc j) v (o ∷ os) h = refl
read_elsewhere (suc i) zero v (o ∷ os) h = refl
read_elsewhere (suc i) (suc j) v (o ∷ os) h = read_elsewhere i j v os (ground arith)

module _ (d : ℤ) where
  write_lem :
      (i : ℕ) (v : Option ℤ) (os : List (Option ℤ)) (fd : ℤ)
      → read_at i os ≡ some fd
      → owners d (write_at i v os) + holds d (some fd) ≡ owners d os + holds d v
  write_lem i v [] fd e = absurd (cc)
  write_lem zero v (o ∷ os) fd e = ground arith
  write_lem (suc i) v (o ∷ os) fd e = let h = write_lem i v os fd e in omega arith

  module _ (valid : d ≢ minus_one) where
    holds_none : (fd : ℤ) → (fd == minus_one) ≡ true → holds d (some fd) ≡ 0
    holds_none fd e = elim (Bool-cases (fd == d)) [
      | inl f ↦ absurd (valid (sym ((int_beq_iff fd d).0 f) ∙ (int_beq_iff fd minus_one).0 e))
      | inr f ↦ ap one_if f
    ]

    module _ (k : Kernel) where
      called_lem :
          (fd : ℤ) (h : Heap) → total d (Descriptor.called k fd h) ≡ holds d (some fd) + total d h
      unfolding close_fd
      called_lem fd h = elim (Bool-cases (fd == minus_one)) [
        | inl e ↦ let z = holds_none fd e in rw (e) omega arith
        | inr e ↦ rw (e) omega arith
      ]

      set_lem :
          (i : ℕ) (fd : ℤ) (v : Option ℤ) (h : Heap)
          → read_at i h.objects ≡ some fd
          → total d (set i v h) + holds d (some fd) ≡ total d h + holds d v
      set_lem i fd v h e = let w = write_lem i v h.objects fd e in omega arith

      -- Closing keeps the total: what the object owned is closed.
      close-total : (i : ℕ) (h : Heap) → total d (Descriptor.close k i h) ≡ total d h
      unfolding Descriptor.close
      close-total i h = elim (Option-cases (read_at i h.objects)) [
        | inl e ↦ rw (e) refl
        | inr (fd, e) ↦ rw (e) (held fd e)
      ]
        where
          held :
              (fd : ℤ)
              → read_at i h.objects ≡ some fd
              → total d (Descriptor.close_held k i (some fd) h) ≡ total d h
          held fd e = elim (Bool-cases (fd == minus_one)) [
            | inl q ↦ rw (q) refl
            | inr q ↦
                let c = called_lem fd h in
                let w = set_lem i fd (some minus_one) (Descriptor.called k fd h) e in
                let z = holds_none minus_one refl in rw (q) omega arith
          ]

      close_reads :
          (i : ℕ) (fd : ℤ) (h : Heap)
          → read_at i h.objects ≡ some fd
          → read_at i (Descriptor.close k i h).objects ≡ some minus_one
      unfolding Descriptor.close
      close_reads i fd h e = elim (Bool-cases (fd == minus_one)) [
        | inl q ↦ rw (e, q) (e ∙ ap some ((int_beq_iff fd minus_one).0 q))
        | inr q ↦ rw (e, q) (read_written i (some minus_one) h.objects fd e)
      ]

      close_elsewhere :
          (i j : ℕ) (fd : ℤ) (h : Heap)
          → nat_beq i j ≡ false
          → read_at i h.objects ≡ some fd
          → read_at j (Descriptor.close k i h).objects ≡ read_at j h.objects
      unfolding Descriptor.close
      close_elsewhere i j fd h n e = elim (Bool-cases (fd == minus_one)) [
        | inl q ↦ rw (e, q) refl
        | inr q ↦ rw (e, q) (read_elsewhere i j (some minus_one) h.objects n)
      ]

      -- An assignment from another object closes what the target owned and hands over the rest.
      take_over-total :
          (i j : ℕ) (old fd : ℤ) (h : Heap)
          → read_at i h.objects ≡ some old
          → read_at j h.objects ≡ some fd
          → total d (Descriptor.take_over k i j (some old) (some fd) h) ≡ total d h
      take_over-total i j old fd h ei ej = elim (Bool-cases (nat_beq i j)) [
        | inl q ↦ rw (q) refl
        | inr q ↦
            let closed : Heap = Descriptor.close k i h in
            let taken : Heap = set i (some fd) closed in
            let c = close-total i h in
            let z = holds_none minus_one refl in
            let w = set_lem i minus_one (some fd) closed (close_reads i old h ei) in
            let r : read_at j taken.objects ≡ some fd =
              read_elsewhere i j (some fd) closed.objects q ∙ close_elsewhere i j old h q ei ∙ ej in
            let v = set_lem j fd (some minus_one) taken r in rw (q) omega arith
      ]

      move_assign-total :
          (i j : ℕ) (h : Heap) → total d (Descriptor.move_assign k i j h) ≡ total d h
      unfolding Descriptor.move_assign
      move_assign-total i j h = elim (Option-cases (read_at i h.objects)) [
        | inl e ↦ rw (e) refl
        | inr (old, e) ↦ elim (Option-cases (read_at j h.objects)) [
          | inl f ↦ rw (e, f) refl
          | inr (fd, f) ↦ rw (e, f) (take_over-total i j old fd h e f)
        ]
      ]

      destroy-total : (i : ℕ) (h : Heap) → total d (Descriptor.destroy k i h) ≡ total d h
      unfolding Descriptor.destroy
      destroy-total i h = elim (Option-cases (read_at i h.objects)) [
        | inl e ↦ rw (e) refl
        | inr (fd, e) ↦
            let c = called_lem fd h in
            let w = set_lem i fd none (Descriptor.called k fd h) e in rw (e) omega arith
      ]

      move_construct-total :
          (i : ℕ) (h : Heap) → total d (Descriptor.move_construct i h) ≡ total d h
      unfolding Descriptor.move_construct Descriptor.construct
      move_construct-total i h = elim (Option-cases (read_at i h.objects)) [
        | inl e ↦ rw (e) refl
        | inr (fd, e) ↦
            let w = set_lem i fd (some minus_one) h e in
            let z = holds_none minus_one refl in rw (e) omega arith
      ]

      step-total : (s : Step) (h : Heap) → total d (step k s h) ≡ given d (s ∷ []) + total d h
      unfolding Descriptor.construct Descriptor.default_construct
      step-total (construct fd) h = omega arith
      step-total default_construct h = let z = holds_none minus_one refl in omega arith
      step-total (move_construct i) h = let e = move_construct-total i h in omega arith
      step-total (move_assign i j) h = let e = move_assign-total i j h in omega arith
      step-total (close i) h = let e = close-total i h in omega arith
      step-total (destroy i) h = let e = destroy-total i h in omega arith

given_more : (d : ℤ) (s : Step) (ss : List Step) → given d (s ∷ ss) ≡ given d (s ∷ []) + given d ss
given_more d (construct fd) ss = omega arith
given_more d default_construct ss = omega arith
given_more d (move_construct i) ss = omega arith
given_more d (move_assign i j) ss = omega arith
given_more d (close i) ss = omega arith
given_more d (destroy i) ss = omega arith

-- Whatever a program does with its objects, a descriptor that is not -1 is owned by one of them, or was
-- closed, once for each time that it was given to a constructor, over what was owned and closed before.
pub steps-total :
    (k : Kernel) (d : ℤ)
    → d ≢ minus_one
    → (ss : List Step) (h : Heap)
    → owners d (steps k ss h).objects + closes d (steps k ss h).system.trace
      ≡ given d ss + (owners d h.objects + closes d h.system.trace)
steps-total k d valid [] h = omega arith
steps-total k d valid (s ∷ ss) h =
    let rest = steps-total k d valid ss (step k s h) in
    let one = step-total d valid k s h in let more = given_more d s ss in omega arith
