-- ===== src/Common/HazardPointers.antt =====
-- common/hazard_pointers/hazard_pointers.hpp: retired data is deleted once no hazard pointer names
-- it. One call runs at a time; pointers and addresses are numbers, 0 the null pointer.
mod Nodes
mod Reclaim
pub mod Laws
mod Tests
use shm_sync.Prelude.{
  ℕ, zero, suc, ◌+◌, ◌-◌, ◌/◌, ◌%◌, ◌^◌, ◌==◌, Bool, true, false, not, ◌&&◌, if◌then◌else◌, Option,
  none, some, List, [], ◌∷◌, ◌++◌, get_or, update,
}

-- `std::memory_order`.
pub data Order : Type 0 where
  relaxed : Order
  consume : Order
  acquire : Order
  release : Order
  acq_rel : Order
  seq_cst : Order

-- `Select_order`: the new value of its argument `Order`.
abbrev pub select_order : Order → Order → Order
select_order seq_cst expected = seq_cst
select_order _ expected = expected

abbrev pub max_hazard_pointers : ℕ
max_hazard_pointers = 28

-- `data_to_reclaim`. The deleter is named by the data it deletes.
pub record Node : Type 0 where
  pub content : ℕ
  pub next : ℕ

-- The globals of the header, and the heap of nodes. `deleted` logs the data given to the deleter,
-- `scans` the memory order of each look over the hazard pointers.
pub record Shared : Type 0 where
  pub hazard_pointers : List ℕ
  pub start_cid : ℕ
  pub heap : ℕ → Node
  pub node_to_reclaim : ℕ
  pub reclaim_cnt : ℕ
  pub deleted : List ℕ
  pub scans : List Order

-- `start_cid` as the header sets it.
abbrev pub initial_start_cid : ℕ
initial_start_cid = max_hazard_pointers / 2

-- The loop of `outstanding_hazard_pointers_for` from index `i`, `todo` indices to go.
pub outstanding_from : ℕ → ℕ → List ℕ → ℕ → Bool
outstanding_from zero i hazards p = false
outstanding_from (suc todo) i hazards p =
    if get_or hazards i 0 == p then true else outstanding_from todo (suc i) hazards p

pub outstanding_hazard_pointers_for : Shared → ℕ → Bool
outstanding_hazard_pointers_for s p =
    outstanding_from (max_hazard_pointers - s.start_cid) s.start_cid s.hazard_pointers p

-- `node_to_reclaim.compare_exchange_weak(node->next, node)`: whether it succeeded, and the state.
-- A failure, spurious or not, stores the value found in `node->next`.
pub compare_exchange_weak : Bool → ℕ → Shared → Bool × Shared
compare_exchange_weak spurious node s =
    if not spurious && ((s.heap node).next == s.node_to_reclaim)
    then (true, record s { node_to_reclaim = node })
    else (
      false,
      record s { heap = update s.heap node (record (s.heap node) { next = s.node_to_reclaim }) },
    )

-- `add_to_reclaim_list`, after the given number of attempts that fail spuriously; with it, whether
-- the last attempt succeeded.
pub add_to_reclaim_list : ℕ → ℕ → Shared → Bool × Shared
add_to_reclaim_list zero node s =
    let (done, s') = compare_exchange_weak false node s in
    if done then (true, s') else compare_exchange_weak false node s'
add_to_reclaim_list (suc failures) node s =
    add_to_reclaim_list failures node (compare_exchange_weak true node s).1

-- `reclaim_cnt` is a `std::atomic<int>`.
abbrev pub word : ℕ
word = 2 ^ 32

-- `Retire`; `node` is the address that `new` returns.
pub retire : ℕ → ℕ → ℕ → Shared → Shared
retire failures node p s =
    let built = record s { heap = update s.heap node (record { content = p; next = 0 }) } in
    let added = (add_to_reclaim_list failures node built).1 in
    record added { reclaim_cnt = (added.reclaim_cnt + 1) % word }

-- `delete current` and the count behind it.
abbrev pub delete_node : ℕ → Shared → Shared
delete_node current s = record s {
  deleted = s.deleted ++ ((s.heap current).content ∷ []);
  reclaim_cnt = (s.reclaim_cnt + (word - 1)) % word;
}

abbrev pub scanned : Order → Shared → Shared
scanned order s = record s { scans = s.scans ++ (order ∷ []) }

-- The loop of `delete_nodes_with_no_hazards`, for at most the given number of nodes. `failures`
-- counts the spurious failures on the way back of each node.
pub delete_loop : ℕ → (ℕ → ℕ) → Order → ℕ → Shared → Option Shared
delete_loop zero failures order current s = if current == 0 then some s else none
delete_loop (suc fuel) failures order current s = elim (current == 0) [
  | true ↦ some s
  | false ↦ elim (outstanding_hazard_pointers_for s (s.heap current).content) [
    | false ↦
        delete_loop fuel failures (select_order order relaxed) (s.heap current).next
          (delete_node current (scanned order s))
    | true ↦
        delete_loop fuel failures (select_order order acq_rel) (s.heap current).next
          (add_to_reclaim_list (failures current) current (scanned order s)).1
  ]
]

pub delete_nodes_with_no_hazards : ℕ → (ℕ → ℕ) → Order → Shared → Option Shared
delete_nodes_with_no_hazards fuel failures order s =
    delete_loop fuel failures order s.node_to_reclaim (record s { node_to_reclaim = 0 })
