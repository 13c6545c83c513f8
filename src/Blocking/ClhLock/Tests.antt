-- ===== src/Blocking/ClhLock/Tests.antt =====
-- Three threads queue up.
use shm_sync.Prelude.{ℕ, ◌≡◌, true, refl, arith, List, [], ◌∷◌, ℕ_discrete}
use shm_sync.Interleaving.{System, Reach, start, run, run-Reach}
use shm_sync.Blocking.ClhLock.{Memory, Vars, Worker, clhqueue, clhqueue_sync, begin}
use shm_sync.Blocking.ClhLock.Progress.{clh_completion}
use shm_sync.Blocking.Sync.Progress.{Completes}
use shm_sync.Blocking.ClhLock.Safety.{clh_exclusion}

abbrev stale : Memory
stale = record { locked = λ _. true; tail = 7 }

abbrev vars : ℕ → Vars
vars i = record { my_node = 0; my_pred = 0 }

abbrev fresh : System Memory Worker
fresh = begin stale vars (λ _. 1)

-- Thread 2 comes first, leaves, and thread 0 enters; thread 1 still waits.
abbrev schedule : List ℕ
schedule = 2 ∷ 0 ∷ 1 ∷ 2 ∷ 0 ∷ 2 ∷ 0 ∷ 1 ∷ 1 ∷ 0 ∷ 2 ∷ 1 ∷ 2 ∷ 2 ∷ 0 ∷ 1 ∷ []

contended-Reach : Reach clhqueue_sync 3 fresh (run clhqueue_sync fresh schedule)
contended-Reach = run-Reach clhqueue_sync schedule fresh start (omega arith)

clh_exclusion_example : ◌≡◌ {A = ℕ} 0 0
unfolding run clhqueue_sync ℕ_discrete
clh_exclusion_example = clh_exclusion stale vars (λ _. 1) contended-Reach 0 0 refl refl

clh_completion_example : Completes clhqueue 3 (run clhqueue_sync fresh schedule)
clh_completion_example = clh_completion stale vars (λ _. 1) contended-Reach
