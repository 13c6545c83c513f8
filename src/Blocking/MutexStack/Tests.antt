-- ===== src/Blocking/MutexStack/Tests.antt =====
-- A producer and a consumer of two elements each.
use shm_sync.Prelude.{ℕ, ◌==◌, Option, none, refl, arith, List, [], ◌∷◌}
use shm_sync.Interleaving.{System, start, run, run-Reach}
use shm_sync.Blocking.MutexStack.{Heap, Stack, Thread, sync}
use shm_sync.Blocking.MutexStack.Balance.{begin, Balanced, stack-Balanced}

abbrev empty : Heap
empty = record { cells = λ _. none; unused = 100 }

-- The consumer takes the element that the constructor made, and then the producer's first.
abbrev schedule : List ℕ
schedule = 1 ∷ 1 ∷ 0 ∷ 1 ∷ 0 ∷ []

abbrev pair : System (Option Stack) Thread
pair = begin empty (λ i. i == 0) (λ _. 2)

stack-Balanced_example : Balanced 2 (run sync pair schedule)
stack-Balanced_example =
    stack-Balanced empty (λ i. i == 0) (λ _. 2) (λ a le. refl)
      (run-Reach sync schedule pair start (omega arith))
