-- ===== src/Common/Barrier/Tests.antt =====
-- Two threads meet at the barrier once.
use shm_sync.Prelude.{ℕ, ◌≤◌, ◌<◌, ◌≡◌, refl, arith, List, [], ◌∷◌, ℕ_discrete}
use shm_sync.Interleaving.{System, Reach, start, run, run-Reach, AllBelow}
use shm_sync.Common.Barrier.{Counters, barrier_init, Thread, finished, barrier_wait, begin}
use shm_sync.Common.Barrier.Separation.{entered, barrier_separates}
use shm_sync.Common.Barrier.Progress.{barrier_completes}

abbrev zeroed : Counters
zeroed i = 0

-- Thread 0 enters and looks at thread 1, which is behind; then thread 1 comes and leaves first.
abbrev schedule : List ℕ
schedule = 0 ∷ 0 ∷ 0 ∷ 0 ∷ 1 ∷ 1 ∷ 1 ∷ 1 ∷ 1 ∷ []

abbrev met : System Counters Thread
met = run (barrier_wait 2) (begin 2 zeroed 1) schedule

met-Reach : Reach (barrier_wait 2) 2 (begin 2 zeroed 1) met
met-Reach = run-Reach (barrier_wait 2) schedule _ start (omega arith)

thread_1_passed : (met.pc 1).passed ≡ 1
unfolding run barrier_wait barrier_init ℕ_discrete
thread_1_passed = refl

barrier_separates_example :
    ((met.pc 1).passed ≤ entered (met.pc 0)) × (met.mem 0 ≡ entered (met.pc 0))
barrier_separates_example =
    barrier_separates zeroed (omega arith) met-Reach 1 0 (omega arith) (omega arith)

barrier_completes_example :
    (is : List ℕ) × AllBelow 2 is
    × ((i : ℕ) → i < 2 → ((run (barrier_wait 2) met is).pc i).place ≡ finished)
barrier_completes_example = barrier_completes zeroed (omega arith) met-Reach
