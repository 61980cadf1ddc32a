-- ===== src/Tests/Descriptors.antt =====
-- The theorem about the owners of descriptors (libs/ipc/src/FileDescriptor.cpp), applied.
use task_master.Base.{◌+◌, List, [], ◌∷◌, ◌≡◌}
use task_master.Base.Int.{pos}
use task_master.Socket.Descriptor.{Heap}
use task_master.Socket.Owners.{Step, owners, closes, given, steps, steps-total}
use task_master.System.{exit_status}
use task_master.Tests.{calm, quiet}

abbrev nothing_alive : Heap
nothing_alive = record { objects = []; system = quiet }

-- A descriptor is moved into a second object, assigned to a third that owns another, and closed.
abbrev life : List Step
life =
    Step.construct (pos 5)
    ∷ Step.move_construct 0
    ∷ Step.construct (pos 6)
    ∷ Step.move_assign 0 1
    ∷ Step.move_assign 0 0
    ∷ Step.destroy 1
    ∷ Step.destroy 2
    ∷ Step.close 0
    ∷ Step.destroy 0
    ∷ []

steps-total_example :
    let after = steps (calm (exit_status 0)) life nothing_alive in
    owners (pos 5) after.objects + closes (pos 5) after.system.trace
    ≡ given (pos 5) life + (owners (pos 5) [] + closes (pos 5) quiet.trace)
steps-total_example = steps-total (calm (exit_status 0)) (pos 5) (λ e. cc) life nothing_alive
