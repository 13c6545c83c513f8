-- ===== src/Blocking/TatasLock/Tests.antt =====
-- Two threads contend for the test-and-test-and-set lock.
use shm_sync.Prelude.{ℕ, ◌≡◌, refl, arith, List, [], ◌∷◌, ℕ_discrete}
use shm_sync.Interleaving.{System, Reach, start, run, run-Reach}
use shm_sync.Blocking.Sync.{Thread, begin}
use shm_sync.Blocking.TatasLock.{Memory, Access, initial, tatas_sync}
use shm_sync.Blocking.TatasLock.Laws.{tatas_exclusion}

abbrev fresh : System Memory (Thread (Unit {0}) Access (Unit {0}))
fresh = begin initial tt (λ _. 2)

-- Both threads see the flag clear; thread 1 comes first, thread 0 fails and goes back to waiting.
abbrev contended : List ℕ
contended = 0 ∷ 1 ∷ 0 ∷ 1 ∷ 1 ∷ 0 ∷ 0 ∷ []

abbrev contended_state : System Memory (Thread (Unit {0}) Access (Unit {0}))
contended_state = run tatas_sync fresh contended

contended-Reach : Reach tatas_sync 2 fresh contended_state
contended-Reach = run-Reach tatas_sync contended fresh start (omega arith)

tatas_exclusion_example : ◌≡◌ {A = ℕ} 1 1
unfolding run tatas_sync ℕ_discrete
tatas_exclusion_example = tatas_exclusion contended-Reach 1 1 refl refl
