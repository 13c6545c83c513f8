-- ===== src/Nonblocking/MpmcClient/Tests.antt =====
-- Two producers and a consumer, over a queue that is a list of the elements, last one first.
use shm_sync.Prelude.{
  ℕ, zero, suc, ◌<◌, ◌≡◌, ◌≤◌, Bool, true, false, ltb, Option, none, some, List, [], ◌∷◌, length,
  arith, refl, total, sum_below, ap, sym,
}
use shm_sync.Interleaving.{System, AllBelow, run, run-Reach, start}
use shm_sync.Nonblocking.SpscClient.{Queue}
use shm_sync.Nonblocking.MpmcClient.{Role, producer, consumer, Thread, nr_nodes, sync}
use shm_sync.Nonblocking.MpmcClient.Progress.{IsPool, left, begin, mpmc_completion}

abbrev take_last : List ℕ → Option (ℕ × List ℕ)
take_last [] = none
take_last (v ∷ vs) = some (v, vs)

abbrev put : Bool → ℕ → List ℕ → Option (List ℕ)
put true v vs = some (v ∷ vs)
put false v vs = none

abbrev nodes : Queue (List ℕ)
nodes = record { push = λ v vs. put (ltb (length vs) nr_nodes) v vs; pop = take_last }

abbrev size_of : Option (List ℕ) → ℕ
size_of none = 0
size_of (some vs) = length vs

abbrev popped_size : Option (ℕ × List ℕ) → ℕ
popped_size none = 0
popped_size (some (v, vs)) = length vs

nodes-IsPool : IsPool nodes length
nodes-IsPool = record {
  pushes = λ v q q' e. pushed (ltb (length q) nr_nodes) v q q' e;
  pops = λ q v q' e. popped q v q' e;
  full = λ v q e. rejected (ltb (length q) nr_nodes) v q refl e;
  empty = λ q e. drained q e;
}
  where
    pushed : (b : Bool) (v : ℕ) (q q' : List ℕ) → put b v q ≡ some q' → length q' ≡ suc (length q)
    pushed true v q q' e = ap size_of (sym e)
    pushed false v q q' e = cc

    popped :
        (q : List ℕ) (v : ℕ) (q' : List ℕ) → take_last q ≡ some (v, q') → length q ≡ suc (length q')
    popped [] v q' e = cc
    popped (w ∷ q) v q' e = ap (λ o. suc (popped_size o)) e

    rejected :
        (b : Bool) (v : ℕ) (q : List ℕ)
        → ltb (length q) nr_nodes ≡ b
        → put b v q ≡ none
        → nr_nodes ≤ length q
    rejected true v q f e = cc
    rejected false v q f e = ground arith

    drained : (q : List ℕ) → take_last q ≡ none → length q ≡ 0
    drained [] e = refl
    drained (v ∷ q) e = cc

abbrev roles : ℕ → Role
roles zero = producer
roles (suc zero) = producer
roles _ = consumer

abbrev rounds : ℕ → ℕ
rounds zero = 1
rounds (suc zero) = 2
rounds _ = 2

-- The consumer has popped the first element, and each producer has pushed one.
abbrev midway : System (List ℕ) Thread
midway = run (sync nodes) (begin [] roles rounds) (2 ∷ 0 ∷ 2 ∷ 1 ∷ [])

mpmc_completion_example :
    (is : List ℕ) × AllBelow 3 is
    × ((i : ℕ) → i < 3 → left ((run (sync nodes) midway is).pc i) ≡ 0)
    × (length (run (sync nodes) midway is).mem ≡ 1)
unfolding total sum_below
mpmc_completion_example =
    mpmc_completion nodes nodes-IsPool 3 1 [] roles rounds (omega arith) refl
      (run-Reach (sync nodes) (2 ∷ 0 ∷ 2 ∷ 1 ∷ []) _ start (omega arith))
