-- ===== src/Common/HazardPointers/Reclaim.antt =====
-- common/hazard_pointers/hazard_pointers.hpp: `delete_nodes_with_no_hazards` over a list of retired
-- nodes.
use shm_sync.Prelude.{
  ℕ, zero, suc, ◌+◌, ◌-◌, ◌≤◌, ◌<◌, ◌≡◌, ◌≢◌, ◌==◌, Bool, true, false, List, [], ◌∷◌, ◌++◌, some,
  length, refl, subst, sym, ap, ◌∙◌, arith, Bool-cases, inl, inr, if◌then◌else◌,
}
use mathlib.Core.List.{append-nil, append_assoc}
use shm_sync.Common.HazardPointers.{
  Order, Shared, outstanding_from, outstanding_hazard_pointers_for, word, delete_loop,
  delete_nodes_with_no_hazards, max_hazard_pointers, delete_node, scanned,
}
use shm_sync.Common.HazardPointers.Nodes.{
  Chain, Off, Distinct, Chain-other, Pushed, add_to_reclaim_list-Pushed,
}

-- The look over the hazard pointers depends on these two fields only.
abbrev pub guarded : Shared → ℕ → Bool
guarded s p = outstanding_hazard_pointers_for s p

-- The nodes that stay, put one by one in front of those already back.
abbrev pub kept : (ℕ → Bool) → List (ℕ × ℕ) → List (ℕ × ℕ) → List (ℕ × ℕ)
kept guard back [] = back
kept guard back ((a, d) ∷ rest) = kept guard (if guard d then (a, d) ∷ back else back) rest

-- The data of the nodes that go, in the list's order.
abbrev pub dropped : (ℕ → Bool) → List (ℕ × ℕ) → List ℕ
dropped guard [] = []
dropped guard ((a, d) ∷ rest) = if guard d then dropped guard rest else d ∷ dropped guard rest

-- No address of the first list stands in the second.
abbrev Apart : List (ℕ × ℕ) → List (ℕ × ℕ) → Type 0
Apart [] ys = Unit
Apart ((a, d) ∷ xs) ys = Off a ys × Apart xs ys

Apart-cons : (a d : ℕ) (xs ys : List (ℕ × ℕ)) → Off a xs → Apart xs ys → Apart xs ((a, d) ∷ ys)
Apart-cons a d [] ys off apart = tt
Apart-cons a d ((b, e) ∷ xs) ys off apart =
    ((λ eq. off.0 (sym eq), apart.0), Apart-cons a d xs ys off.1 apart.1)

Apart-nil : (xs : List (ℕ × ℕ)) → Apart xs []
Apart-nil [] = tt
Apart-nil ((a, d) ∷ xs) = (tt, Apart-nil xs)

-- The state `s'` behind a pass from `s`: the list holds the nodes of `back`, the data of `gone` has
-- been deleted, once each and in this order, and is no longer counted.
pub record Outcome (s s' : Shared) (back : List (ℕ × ℕ)) (gone : List ℕ) : Type 0 where
  pub chain : Chain s'.heap s'.node_to_reclaim back
  pub single : Distinct back
  pub log : s'.deleted ≡ s.deleted ++ gone
  pub hazards : s'.hazard_pointers ≡ s.hazard_pointers
  pub start : s'.start_cid ≡ s.start_cid
  pub count : s'.reclaim_cnt + length gone ≡ s.reclaim_cnt

module _ (guard : ℕ → Bool) (failures : ℕ → ℕ) where
  abbrev Passes : (fuel current : ℕ) → Order → Shared → List (ℕ × ℕ) → List (ℕ × ℕ) → Type 0
  Passes fuel current order s xs back =
      (s' : Shared) × (delete_loop fuel failures order current s ≡ some s')
      × Outcome s s' (kept guard back xs) (dropped guard xs)

  -- What the loop needs of the state it starts a round in.
  record Ready (s : Shared) (current : ℕ) (xs back : List (ℕ × ℕ)) : Type 0 where
    guards : (p : ℕ) → outstanding_hazard_pointers_for s p ≡ guard p
    counted : length xs ≤ s.reclaim_cnt
    small : s.reclaim_cnt < word
    todo : Chain s.heap current xs
    done : Chain s.heap s.node_to_reclaim back
    distinct : Distinct xs
    apart : Apart xs back
    over : Distinct back

  outstanding-same :
      (s s' : Shared) (p : ℕ)
      → s'.hazard_pointers ≡ s.hazard_pointers
      → s'.start_cid ≡ s.start_cid
      → outstanding_hazard_pointers_for s' p ≡ outstanding_hazard_pointers_for s p
  unfolding outstanding_hazard_pointers_for
  outstanding-same s s' p h k =
      ap (λ (x : List ℕ × ℕ). outstanding_from (max_hazard_pointers - x.1) x.1 x.0 p)
        (λ i. (h i, k i))

  module _ (s : Shared) (order : Order) (a d : ℕ) (xs back : List (ℕ × ℕ))
      (r : Ready s a ((a, d) ∷ xs) back) where
    abbrev deleted_state : Shared
    deleted_state = delete_node a (scanned order s)

    Ready-delete : Ready deleted_state (s.heap a).next xs back
    Ready-delete = record {
      guards = λ p. outstanding-same s deleted_state p refl refl ∙ r.guards p;
      counted = omega (arith, r.counted, r.small);
      small = omega (arith, r.counted, r.small);
      todo = r.todo.3;
      done = r.done;
      distinct = r.distinct.1;
      apart = r.apart.1;
      over = r.over;
    }

    module _ (s' : Shared) (p : Pushed a (scanned order s) s') where
      Ready-keep : Ready s' (s.heap a).next xs ((a, d) ∷ back)
      Ready-keep = record {
        guards = λ q. outstanding-same s s' q p.hazards p.start ∙ r.guards q;
        counted = omega (arith, r.counted, p.count);
        small = omega (arith, r.small, p.count);
        todo = Chain-other s.heap s'.heap a (s.heap a).next xs p.others r.distinct.0 r.todo.3;
        done = (
          p.head,
          r.todo.1,
          p.kept ∙ r.todo.2,
          rw p.link (Chain-other s.heap s'.heap a s.node_to_reclaim back p.others r.apart.0 r.done),
        );
        distinct = r.distinct.1;
        apart = Apart-cons a d xs back r.distinct.0 r.apart.1;
        over = (r.apart.0, r.over);
      }

  Outcome-delete :
      (s s' : Shared) (order : Order) (a d : ℕ) (xs back ys : List (ℕ × ℕ)) (gone : List ℕ)
      → Ready s a ((a, d) ∷ xs) back
      → Outcome (delete_node a (scanned order s)) s' ys gone
      → Outcome s s' ys (d ∷ gone)
  Outcome-delete s s' order a d xs back ys gone r o = record {
    chain = o.chain;
    single = o.single;
    log = o.log ∙ rw (r.todo.2) (append_assoc s.deleted (d ∷ []) gone);
    hazards = o.hazards;
    start = o.start;
    count = omega (arith, o.count, r.counted, r.small);
  }

  Outcome-keep :
      (s t s' : Shared) (order : Order) (a : ℕ) (ys : List (ℕ × ℕ)) (gone : List ℕ)
      → Pushed a (scanned order s) t
      → Outcome t s' ys gone
      → Outcome s s' ys gone
  Outcome-keep s t s' order a ys gone p o = record {
    chain = o.chain;
    single = o.single;
    log = o.log ∙ ap (λ l. l ++ gone) p.log;
    hazards = o.hazards ∙ p.hazards;
    start = o.start ∙ p.start;
    count = o.count ∙ p.count;
  }

  nothing_left :
      (s : Shared) (back : List (ℕ × ℕ))
      → Chain s.heap s.node_to_reclaim back
      → Distinct back
      → Outcome s s back []
  nothing_left s back c distinct = record {
    chain = c;
    single = distinct;
    log = sym (append-nil s.deleted);
    hazards = refl;
    start = refl;
    count = omega arith;
  }

  -- One round at a node, from the passes over what is left.
  round-Passes :
      (fuel : ℕ) (order : Order) (s : Shared) (a d : ℕ) (xs back : List (ℕ × ℕ))
      → Ready s a ((a, d) ∷ xs) back
      → ((order' : Order) (t : Shared) (back' : List (ℕ × ℕ))
          → Ready t (s.heap a).next xs back'
          → Passes fuel (s.heap a).next order' t xs back')
      → Passes (suc fuel) a order s ((a, d) ∷ xs) back
  unfolding delete_loop
  round-Passes fuel order s a d xs back r further =
      let more : (a == 0) ≡ false = let ne : a ≢ 0 = r.todo.1 in ground arith in
      let look : outstanding_hazard_pointers_for s (s.heap a).content ≡ guard d =
        ap (outstanding_hazard_pointers_for s) r.todo.2 ∙ r.guards d in
      let p = (add_to_reclaim_list-Pushed (failures a) a (scanned order s)).1 in
      rw (more, look, delete_loop)
        (elim (Bool-cases (guard d)) [
          | inl stays ↦
              let (s', run, o) = further _ _ _ (Ready-keep s order a d xs back r _ p) in
              rw stays (s', run, Outcome-keep s _ s' order a _ _ p o)
          | inr goes ↦
              let (s', run, o) = further _ _ _ (Ready-delete s order a d xs back r) in
              rw goes (s', run, Outcome-delete s s' order a d xs back _ _ r o)
        ])

  delete_loop-Passes :
      (fuel current : ℕ) (order : Order) (s : Shared) (xs back : List (ℕ × ℕ))
      → length xs ≤ fuel
      → Ready s current xs back
      → Passes fuel current order s xs back
  unfolding delete_loop
  delete_loop-Passes zero current order s [] back le r =
      let ends : (current == 0) ≡ true = let e : current ≡ 0 = r.todo in ground arith in
      rw ends (s, refl, nothing_left s back r.done r.over)
  delete_loop-Passes zero current order s (x ∷ xs) back le r = absurd (omega arith)
  delete_loop-Passes (suc fuel) current order s [] back le r =
      let ends : (current == 0) ≡ true = let e : current ≡ 0 = r.todo in ground arith in
      rw (ends, delete_loop) (s, refl, nothing_left s back r.done r.over)
  delete_loop-Passes (suc fuel) current order s ((a, d) ∷ xs) back le r =
      subst (λ c. Passes (suc fuel) c order s ((a, d) ∷ xs) back) (sym r.todo.0)
        (round-Passes fuel order s a d xs back
          (subst (λ c. Ready s c ((a, d) ∷ xs) back) r.todo.0 r)
          (λ order' t back'.
            delete_loop-Passes fuel (s.heap a).next order' t xs back' (omega arith)))

-- The whole pass.
pub reclaimed :
    (failures : ℕ → ℕ) (fuel : ℕ) (order : Order) (s : Shared) (xs : List (ℕ × ℕ))
    → Chain s.heap s.node_to_reclaim xs
    → Distinct xs
    → length xs ≤ s.reclaim_cnt
    → s.reclaim_cnt < word
    → length xs ≤ fuel
    → (s' : Shared) × (delete_nodes_with_no_hazards fuel failures order s ≡ some s')
      × Outcome s s'
          (kept (outstanding_hazard_pointers_for s) [] xs)
          (dropped (outstanding_hazard_pointers_for s) xs)
unfolding delete_nodes_with_no_hazards
reclaimed failures fuel order s xs chain distinct counted small enough =
    let taken : Shared = record s { node_to_reclaim = 0 } in
    let ready : Ready (outstanding_hazard_pointers_for s) failures taken s.node_to_reclaim xs [] =
      record {
        guards =
            λ p. outstanding-same (outstanding_hazard_pointers_for s) failures s taken p refl refl;
        counted = counted;
        small = small;
        todo = chain;
        done = refl;
        distinct = distinct;
        apart = Apart-nil xs;
        over = tt;
      } in
    let (s', run, o) =
      delete_loop-Passes (outstanding_hazard_pointers_for s) failures fuel s.node_to_reclaim order
        taken xs [] enough ready in
    (
      s',
      run,
      record {
        chain = o.chain;
        single = o.single;
        log = o.log;
        hazards = o.hazards;
        start = o.start;
        count = o.count;
      },
    )
