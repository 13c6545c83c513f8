-- ===== src/Nonblocking/SpscClient/Tests.antt =====
-- A queue with room for two elements.
use shm_sync.Prelude.{ℕ, ◌≡◌, true, Option, none, some, List, [], ◌∷◌, ◌++◌, refl, arith}
use shm_sync.Nonblocking.SpscClient.{
  Queue, IsFifo, State, start, produce, consume, sync_producer, sync_consumer,
}
use shm_sync.Nonblocking.SpscClient.Order.{begin, InOrder, received-InOrder}

abbrev push_two : ℕ → List ℕ → Option (List ℕ)
push_two v [] = some (v ∷ [])
push_two v (x ∷ []) = some (x ∷ v ∷ [])
push_two v (x ∷ y ∷ xs) = none

abbrev pop_two : List ℕ → Option (ℕ × List ℕ)
pop_two [] = none
pop_two (x ∷ xs) = some (x, xs)

abbrev two : Queue (List ℕ)
two = record { push = push_two; pop = pop_two }

two-pushes : (v : ℕ) (q q' : List ℕ) → push_two v q ≡ some q' → q' ≡ q ++ (v ∷ [])
two-pushes v [] q' e = cc
two-pushes v (x ∷ []) q' e = cc
two-pushes v (x ∷ y ∷ xs) q' e = cc

two-pops : (q : List ℕ) (v : ℕ) (q' : List ℕ) → pop_two q ≡ some (v, q') → q ≡ v ∷ q'
two-pops [] v q' e = cc
two-pops (x ∷ xs) v q' e = cc

two-IsFifo : IsFifo two (λ q. q)
two-IsFifo = record { pushes = two-pushes; pops = two-pops }

-- Two elements go in, a third does not, and one comes out.
abbrev reached : State (List ℕ)
reached = sync_consumer two true (
    sync_producer two (λ i. i)
      (sync_producer two (λ i. i) (sync_producer two (λ i. i) (begin [] 3 3))))

received-InOrder_example : InOrder (λ q. q) (λ i. i) 3 3 reached
received-InOrder_example =
    received-InOrder two two-IsFifo (λ i. i) true 3 3 (λ k lt e. absurd (omega arith)) [] refl
      (consume (produce (produce (produce start))))
