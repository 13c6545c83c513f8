-- ===== src/Common/HazardPointers/Nodes.antt =====
-- common/hazard_pointers/hazard_pointers.hpp: the list of nodes to reclaim, and a node put in front.
use shm_sync.Prelude.{
  ℕ, zero, suc, ◌+◌, ◌≤◌, ◌<◌, ◌≡◌, ◌≢◌, ◌==◌, ==→eq, Bool, true, false, List, [], ◌∷◌, get_or,
  update, refl, ◌∙◌, ap, arith, Bool-cases, inl, inr,
}
use mathlib.Core.Logic.{if_pos, if_neg}
use shm_sync.Prelude.{ℕ_discrete}
use shm_sync.Common.HazardPointers.{
  Node, Shared, outstanding_from, outstanding_hazard_pointers_for, compare_exchange_weak,
  add_to_reclaim_list, max_hazard_pointers,
}

-- From `p` the links lead over the nodes of the list, each with its address and data, to the end.
abbrev pub Chain : (ℕ → Node) → ℕ → List (ℕ × ℕ) → Type 0
Chain heap p [] = p ≡ 0
Chain heap p ((a, d) ∷ rest) =
    (p ≡ a) × (a ≢ 0) × ((heap a).content ≡ d) × Chain heap (heap a).next rest

-- No node of the list stands at the address.
abbrev pub Off : ℕ → List (ℕ × ℕ) → Type 0
Off a [] = Unit
Off a ((b, d) ∷ rest) = (a ≢ b) × Off a rest

-- The addresses differ.
abbrev pub Distinct : List (ℕ × ℕ) → Type 0
Distinct [] = Unit
Distinct ((a, d) ∷ rest) = Off a rest × Distinct rest

-- A node outside the list may change.
pub Chain-other :
    (heap heap' : ℕ → Node) (node p : ℕ) (xs : List (ℕ × ℕ))
    → ((j : ℕ) → node ≢ j → heap' j ≡ heap j)
    → Off node xs
    → Chain heap p xs
    → Chain heap' p xs
Chain-other heap heap' node p [] same off c = c
Chain-other heap heap' node p ((a, d) ∷ rest) same off c = (
  c.0,
  c.1,
  ap (λ (n : Node). n.content) (same a off.0) ∙ c.2,
  rw (same a off.0) (Chain-other heap heap' node (heap a).next rest same off.1 c.3),
)

-- `node` now heads the list, linked to the old head, and nothing else has changed.
pub record Pushed (node : ℕ) (s s' : Shared) : Type 0 where
  pub head : s'.node_to_reclaim ≡ node
  pub link : (s'.heap node).next ≡ s.node_to_reclaim
  pub kept : (s'.heap node).content ≡ (s.heap node).content
  pub others : (j : ℕ) → node ≢ j → s'.heap j ≡ s.heap j
  pub hazards : s'.hazard_pointers ≡ s.hazard_pointers
  pub start : s'.start_cid ≡ s.start_cid
  pub count : s'.reclaim_cnt ≡ s.reclaim_cnt
  pub log : s'.deleted ≡ s.deleted
  pub looks : s'.scans ≡ s.scans

abbrev linked : ℕ → Shared → Shared
linked node s = record s {
  heap = update s.heap node (record (s.heap node) { next = s.node_to_reclaim });
}

linked_self : (node : ℕ) (s : Shared) → ((linked node s).heap node).next ≡ s.node_to_reclaim
linked_self node s = ap (λ (n : Node). n.next) (if_pos (ℕ_discrete node node) refl _ _)

linked-content :
    (node : ℕ) (s : Shared) → ((linked node s).heap node).content ≡ (s.heap node).content
linked-content node s = ap (λ (n : Node). n.content) (if_pos (ℕ_discrete node node) refl _ _)

linked-others : (node : ℕ) (s : Shared) (j : ℕ) → node ≢ j → (linked node s).heap j ≡ s.heap j
linked-others node s j ne = if_neg (ℕ_discrete node j) ne _ _

abbrev Added : ℕ → Shared → Bool × Shared → Type 0
Added node s r = (r.0 ≡ true) × Pushed node s r.1

exchange-linked :
    (node : ℕ) (s : Shared) → Added node s (compare_exchange_weak false node (linked node s))
unfolding compare_exchange_weak
exchange-linked node s =
    let same : (((linked node s).heap node).next == s.node_to_reclaim) ≡ true =
      rw (linked_self node s) (ground arith) in
    rw same (
      refl,
      record {
        head = refl;
        link = linked_self node s;
        kept = linked-content node s;
        others = linked-others node s;
        hazards = refl;
        start = refl;
        count = refl;
        log = refl;
        looks = refl;
      },
    )

Pushed-directly :
    (node : ℕ) (s : Shared)
    → (s.heap node).next ≡ s.node_to_reclaim
    → Pushed node s (record s { node_to_reclaim = node })
Pushed-directly node s e = record {
  head = refl;
  link = e;
  kept = refl;
  others = λ j ne. refl;
  hazards = refl;
  start = refl;
  count = refl;
  log = refl;
  looks = refl;
}

-- A failed attempt before the push changes nothing that the push does not.
Pushed-linked : (node : ℕ) (s s' : Shared) → Pushed node (linked node s) s' → Pushed node s s'
Pushed-linked node s s' p = record {
  head = p.head;
  link = p.link;
  kept = p.kept ∙ linked-content node s;
  others = λ j ne. p.others j ne ∙ linked-others node s j ne;
  hazards = p.hazards;
  start = p.start;
  count = p.count;
  log = p.log;
  looks = p.looks;
}

exchange-spurious : (node : ℕ) (s : Shared) → (compare_exchange_weak true node s).1 ≡ linked node s
unfolding compare_exchange_weak
exchange-spurious node s = refl

-- `add_to_reclaim_list` returns after a successful attempt, whatever attempts fail spuriously, and
-- puts the node in front.
pub add_to_reclaim_list-Pushed :
    (failures node : ℕ) (s : Shared) → Added node s (add_to_reclaim_list failures node s)
unfolding add_to_reclaim_list
add_to_reclaim_list-Pushed zero node s =
    elim (Bool-cases ((s.heap node).next == s.node_to_reclaim)) [
      | inl same ↦
          unfold compare_exchange_weak in rw same (refl, Pushed-directly node s (==→eq _ _ same))
      | inr differ ↦
          let e : (compare_exchange_weak false node s) ≡ (false, linked node s) =
            unfold compare_exchange_weak in rw differ refl in
          rw e (exchange-linked node s)
    ]
add_to_reclaim_list-Pushed (suc failures) node s =
    let rest = add_to_reclaim_list-Pushed failures node (linked node s) in
    rw (exchange-spurious node s, add_to_reclaim_list) (rest.0, Pushed-linked node s _ rest.1)

-- The loop finds exactly the pointers that stand between its first index and its end.
outstanding_from-finds :
    (todo i : ℕ) (hazards : List ℕ) (p k : ℕ)
    → i ≤ k
    → k < i + todo
    → get_or hazards k 0 ≡ p
    → outstanding_from todo i hazards p ≡ true
unfolding outstanding_from
outstanding_from-finds zero i hazards p k h h' e = absurd (omega arith)
outstanding_from-finds (suc todo) i hazards p k h h' e = elim (ℕ_discrete i k) [
  | yes here ↦ let found : get_or hazards i 0 ≡ p = rw here e in ground arith
  | no other ↦
      ground (arith, outstanding_from-finds todo (suc i) hazards p k (omega arith) (omega arith) e)
]

outstanding_from-found :
    (todo i : ℕ) (hazards : List ℕ) (p : ℕ)
    → outstanding_from todo i hazards p ≡ true
    → (k : ℕ) × (i ≤ k) × (k < i + todo) × (get_or hazards k 0 ≡ p)
unfolding outstanding_from
outstanding_from-found zero i hazards p h = absurd (ground arith)
outstanding_from-found (suc todo) i hazards p h = elim (Bool-cases (get_or hazards i 0 == p)) [
  | inl here ↦ (i, omega arith, omega arith, ==→eq _ _ here)
  | inr other ↦
      let (k, a, b, e) = outstanding_from-found todo (suc i) hazards p (ground arith) in
      (k, omega arith, omega arith, e)
]

-- A hazard pointer from index `start_cid` on names the data.
abbrev pub Hazardous : Shared → ℕ → Type 0
Hazardous s p =
    (k : ℕ) × (s.start_cid ≤ k) × (k < max_hazard_pointers) × (get_or s.hazard_pointers k 0 ≡ p)

pub outstanding_iff :
    (s : Shared) (p : ℕ)
    → s.start_cid ≤ max_hazard_pointers
    → (outstanding_hazard_pointers_for s p ≡ true → Hazardous s p)
      × (Hazardous s p → outstanding_hazard_pointers_for s p ≡ true)
unfolding outstanding_hazard_pointers_for
outstanding_iff s p h = (
  λ found.
      let (k, a, b, e) = outstanding_from-found _ s.start_cid s.hazard_pointers p found in
      (k, a, omega arith, e),
  λ (k, a, b, e). outstanding_from-finds _ s.start_cid s.hazard_pointers p k a (omega arith) e,
)
