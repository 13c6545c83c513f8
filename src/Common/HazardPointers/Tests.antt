-- ===== src/Common/HazardPointers/Tests.antt =====
-- Three retired nodes; of their data 70 has a hazard pointer at index 14, and 90 at index 3.
use shm_sync.Prelude.{
  ℕ, ◌+◌, ◌*◌, ◌==◌, if◌then◌else◌, none, ◌≡◌, List, [], ◌∷◌, ◌++◌, Option, some, refl, arith, set,
  replicate, ℕ_discrete,
}
use shm_sync.Common.HazardPointers.{
  Order, Node, Shared, acquire, acq_rel, relaxed, delete_loop, add_to_reclaim_list,
  compare_exchange_weak, outstanding_from, retire, delete_nodes_with_no_hazards,
  outstanding_hazard_pointers_for, initial_start_cid,
}
use shm_sync.Common.HazardPointers.Nodes.{Hazardous}
use shm_sync.Common.HazardPointers.Laws.{Holds, times, data_of, All, retire-Holds, delete_nodes_lem}

abbrev three : List (ℕ × ℕ)
three = (1, 70) ∷ (2, 80) ∷ (3, 90) ∷ []

-- The node at address `i` holds `60 + 10 * i`, and the node at 3 ends the list.
abbrev heap : ℕ → Node
heap i = record { content = 60 + 10 * i; next = if i == 3 then 0 else i + 1 }

abbrev retired : Shared
retired = record {
  hazard_pointers = set (set (replicate 28 0) 14 70) 3 90;
  start_cid = initial_start_cid;
  heap = heap;
  node_to_reclaim = 1;
  reclaim_cnt = 3;
  deleted = [];
  scans = [];
}

retired-Holds : Holds retired three
retired-Holds = omega arith

retire_example :
    let s' = retire 2 9 50 retired in
    Holds s' ((9, 50) ∷ three) × (s'.deleted ≡ []) × (s'.hazard_pointers ≡ retired.hazard_pointers)
retire_example =
    retire-Holds 2 9 50 retired three retired-Holds (omega arith) (omega arith) (omega arith)

delete_nodes_example :
    (s' : Shared) × (back : List (ℕ × ℕ)) × (gone : List ℕ) × (delete_nodes_with_no_hazards 3
        (λ i. i)
        acquire
        retired
      ≡ some s')
    × Holds s' back
    × (s'.deleted ≡ [] ++ gone)
    × All (λ p. Hazardous retired p) (data_of back)
    × All (λ p. ¬ Hazardous retired p) gone
    × ((p : ℕ) → times p (data_of back) + times p gone ≡ times p (data_of three))
delete_nodes_example = delete_nodes_lem (λ i. i) acquire retired three retired-Holds (omega arith)

abbrev swept : Option Shared → List ℕ × List Order
swept none = ([], [])
swept (some s) = (s.deleted, s.scans)

-- The hazard pointer at index 3 does not keep 90, and the looks behind a node that is kept use
-- `memory_order_acq_rel`.
sweep :
    swept (delete_nodes_with_no_hazards 3 (λ i. 0) acquire retired)
    ≡ (80 ∷ 90 ∷ [], acquire ∷ acq_rel ∷ relaxed ∷ [])
unfolding delete_nodes_with_no_hazards delete_loop add_to_reclaim_list compare_exchange_weak
    outstanding_hazard_pointers_for outstanding_from ℕ_discrete
sweep = refl
