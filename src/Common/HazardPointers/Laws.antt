-- ===== src/Common/HazardPointers/Laws.antt =====
-- common/hazard_pointers/hazard_pointers.hpp: what `Retire` and `delete_nodes_with_no_hazards`
-- keep, and which nodes stay.
use shm_sync.Prelude.{
  ℕ, ◌+◌, ◌≤◌, ◌<◌, ◌≡◌, ◌≢◌, ◌==◌, Bool, true, false, List, [], ◌∷◌, ◌++◌, some, length, refl, ap,
  ◌∙◌, arith, Bool-cases, inl, inr, if◌then◌else◌, update, ℕ_discrete,
}
use mathlib.Core.Logic.{if_pos, if_neg}
use shm_sync.Common.HazardPointers.{
  Order, Node, Shared, outstanding_hazard_pointers_for, add_to_reclaim_list, word, retire,
  delete_nodes_with_no_hazards, max_hazard_pointers,
}
use shm_sync.Common.HazardPointers.Nodes.{
  Chain, Off, Distinct, Chain-other, add_to_reclaim_list-Pushed, Hazardous, outstanding_iff,
}
use shm_sync.Common.HazardPointers.Reclaim.{kept, dropped, reclaimed}

-- The list of nodes to reclaim holds these nodes, each with its data, and they are counted.
pub record Holds (s : Shared) (xs : List (ℕ × ℕ)) : Type 0 where
  pub chain : Chain s.heap s.node_to_reclaim xs
  pub distinct : Distinct xs
  pub counted : s.reclaim_cnt ≡ length xs
  pub start : s.start_cid ≤ max_hazard_pointers

-- How often a value stands in a list.
abbrev pub times : ℕ → List ℕ → ℕ
times p [] = 0
times p (x ∷ xs) = (if x == p then 1 else 0) + times p xs

abbrev pub data_of : List (ℕ × ℕ) → List ℕ
data_of [] = []
data_of ((a, d) ∷ rest) = d ∷ data_of rest

abbrev pub All : (ℕ → Type 0) → List ℕ → Type 0
All P [] = Unit
All P (x ∷ xs) = P x × All P xs

-- `Retire` puts a node for the data in front of the list and counts it; nothing is deleted.
pub retire-Holds :
    (failures node p : ℕ) (s : Shared) (xs : List (ℕ × ℕ))
    → Holds s xs
    → node ≢ 0
    → Off node xs
    → length xs + 1 < word
    → let s' = retire failures node p s in
      Holds s' ((node, p) ∷ xs)
      × (s'.deleted ≡ s.deleted)
      × (s'.hazard_pointers ≡ s.hazard_pointers)
unfolding retire
retire-Holds failures node p s xs h ne off room =
    let built : Shared = record s {
      heap = update s.heap node (record { content = p; next = 0 });
    } in
    let pushed = (add_to_reclaim_list-Pushed failures node built).1 in
    let others : (j : ℕ)
        → node ≢ j
        → (add_to_reclaim_list failures node built).1.heap j ≡ s.heap j =
      λ j ne'. pushed.others j ne' ∙ if_neg (ℕ_discrete node j) ne' _ _ in
    let content : (built.heap node).content ≡ p =
      ap (λ (n : Node). n.content) (if_pos (ℕ_discrete node node) refl _ _) in
    (
      record {
        chain = (
          pushed.head,
          ne,
          pushed.kept ∙ content,
          rw pushed.link (Chain-other s.heap _ node s.node_to_reclaim xs others off h.chain),
        );
        distinct = (off, h.distinct);
        counted = omega (arith, pushed.count, h.counted);
        start = omega (arith, pushed.start, h.start);
      },
      pushed.log,
      pushed.hazards,
    )

kept-guarded :
    (P : ℕ → Type 0) (guard : ℕ → Bool) (back xs : List (ℕ × ℕ))
    → ((p : ℕ) → guard p ≡ true → P p)
    → All P (data_of back)
    → All P (data_of (kept guard back xs))
kept-guarded P guard back [] sound all = all
kept-guarded P guard back ((a, d) ∷ xs) sound all = elim (Bool-cases (guard d)) [
  | inl e ↦ rw e (kept-guarded P guard ((a, d) ∷ back) xs sound (sound d e, all))
  | inr e ↦ rw e (kept-guarded P guard back xs sound all)
]

dropped-unguarded :
    (P : ℕ → Type 0) (guard : ℕ → Bool) (xs : List (ℕ × ℕ))
    → ((p : ℕ) → guard p ≡ false → P p)
    → All P (dropped guard xs)
dropped-unguarded P guard [] sound = tt
dropped-unguarded P guard ((a, d) ∷ xs) sound = elim (Bool-cases (guard d)) [
  | inl e ↦ rw e (dropped-unguarded P guard xs sound)
  | inr e ↦ rw e (sound d e, dropped-unguarded P guard xs sound)
]

times-kept :
    (guard : ℕ → Bool) (back xs : List (ℕ × ℕ)) (p : ℕ)
    → times p (data_of (kept guard back xs)) + times p (dropped guard xs)
      ≡ times p (data_of back) + times p (data_of xs)
times-kept guard back [] p = refl
times-kept guard back ((a, d) ∷ xs) p = elim (Bool-cases (guard d)) [
  | inl e ↦ rw e (omega (arith, times-kept guard ((a, d) ∷ back) xs p))
  | inr e ↦ rw e (omega (arith, times-kept guard back xs p))
]

length-kept :
    (guard : ℕ → Bool) (back xs : List (ℕ × ℕ))
    → length (kept guard back xs) + length (dropped guard xs) ≡ length back + length xs
length-kept guard back [] = refl
length-kept guard back ((a, d) ∷ xs) = elim (Bool-cases (guard d)) [
  | inl e ↦ rw e (omega (arith, length-kept guard ((a, d) ∷ back) xs))
  | inr e ↦ rw e (omega (arith, length-kept guard back xs))
]

-- `delete_nodes_with_no_hazards` ends, whatever attempts of the exchange fail spuriously. It splits
-- the list: the nodes whose data a hazard pointer from index `start_cid` on names are in the list
-- again, the data of all others is deleted, each once, and the count is that of the nodes left.
pub delete_nodes_lem :
    (failures : ℕ → ℕ) (order : Order) (s : Shared) (xs : List (ℕ × ℕ))
    → Holds s xs
    → length xs < word
    → (s' : Shared) × (back : List (ℕ × ℕ)) × (gone : List ℕ) × (delete_nodes_with_no_hazards
          (length xs)
          failures
          order
          s
        ≡ some s')
      × Holds s' back
      × (s'.deleted ≡ s.deleted ++ gone)
      × All (λ p. Hazardous s p) (data_of back)
      × All (λ p. ¬ Hazardous s p) gone
      × ((p : ℕ) → times p (data_of back) + times p gone ≡ times p (data_of xs))
delete_nodes_lem failures order s xs h small =
    let guard = outstanding_hazard_pointers_for s in
    let (s', run, o) =
      reclaimed failures (length xs) order s xs h.chain h.distinct (omega (arith, h.counted))
        (omega (arith, h.counted)) (omega arith) in
    (
      s',
      kept guard [] xs,
      dropped guard xs,
      run,
      record {
        chain = o.chain;
        distinct = o.single;
        counted = omega (arith, o.count, h.counted, length-kept guard [] xs);
        start = omega (arith, o.start, h.start);
      },
      o.log,
      kept-guarded (λ p. Hazardous s p) guard [] xs (λ p e. (outstanding_iff s p h.start).0 e) tt,
      dropped-unguarded (λ p. ¬ Hazardous s p) guard xs
          (λ p e hazard. let e' = (outstanding_iff s p h.start).1 hazard in ground arith),
      λ p. omega (arith, times-kept guard [] xs p),
    )
