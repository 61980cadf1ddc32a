-- ===== src/Socket/Descriptor.antt =====
-- The owners of descriptors (libs/ipc/src/FileDescriptor.cpp): objects that stand at places of their own,
-- which are constructed, moved from and to, closed and destroyed.
use task_master.Base.{ℕ, zero, suc, List, [], ◌∷◌, Option, some, none, if◌then◌else◌, ◌==◌, nat_beq}
use task_master.Base.Int.{ℤ, int_key}
use task_master.System.{System, Kernel, minus_one, close_fd}

-- A place holds the `_fd` of its object, or nothing when the object is not alive.
pub record Heap : Type 0 where
  pub objects : List (Option ℤ)
  pub system : System

abbrev pub read_at : ℕ → List (Option ℤ) → Option ℤ
read_at i [] = none
read_at zero (o ∷ os) = o
read_at (suc i) (o ∷ os) = read_at i os

abbrev pub write_at : ℕ → Option ℤ → List (Option ℤ) → List (Option ℤ)
write_at i v [] = []
write_at zero v (o ∷ os) = v ∷ os
write_at (suc i) v (o ∷ os) = o ∷ write_at i v os

abbrev pub set : ℕ → Option ℤ → Heap → Heap
set i v h = record h { objects = write_at i v h.objects }

-- `FileDescriptor()`, `FileDescriptor(i32)`
unfoldable pub construct : ℤ → Heap → Heap
construct fd h = record h { objects = some fd ∷ h.objects }

unfoldable pub default_construct : Heap → Heap
default_construct h = construct minus_one h

-- `FileDescriptor(FileDescriptor&&)`; the new object stands at place 0, and the others one further.
abbrev pub move_from : ℕ → Option ℤ → Heap → Heap
move_from i none h = h
move_from i (some fd) h = construct fd (set i (some minus_one) h)

unfoldable pub move_construct : ℕ → Heap → Heap
move_construct i h = move_from i (read_at i h.objects) h

module _ (k : Kernel) where
  abbrev pub called : ℤ → Heap → Heap
  called fd h = record h { system = (close_fd k fd h.system).1 }

  abbrev pub close_held : ℕ → Option ℤ → Heap → Heap
  close_held i none h = h
  close_held i (some fd) h = if fd == minus_one then h else set i (some minus_one) (called fd h)

  unfoldable pub close : ℕ → Heap → Heap
  close i h = close_held i (read_at i h.objects) h

  -- `operator=(FileDescriptor&&)`, to the object at the first place from the one at the second
  abbrev pub take_over : ℕ → ℕ → Option ℤ → Option ℤ → Heap → Heap
  take_over i j (some old) (some fd) h =
      if nat_beq i j then h else set j (some minus_one) (set i (some fd) (close i h))
  take_over i j _ _ h = h

  unfoldable pub move_assign : ℕ → ℕ → Heap → Heap
  move_assign i j h = take_over i j (read_at i h.objects) (read_at j h.objects) h

  abbrev pub end_of : ℕ → Option ℤ → Heap → Heap
  end_of i none h = h
  end_of i (some fd) h = set i none (called fd h)

  -- `~FileDescriptor`
  unfoldable pub destroy : ℕ → Heap → Heap
  destroy i h = end_of i (read_at i h.objects) h
