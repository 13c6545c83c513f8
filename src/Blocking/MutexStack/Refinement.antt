-- ===== src/Blocking/MutexStack/Refinement.antt =====
-- The linked nodes of mutexstack.cpp as a list.
use shm_sync.Prelude.{
  ℕ, ◌≤◌, ◌≡◌, Option, none, some, List, [], ◌∷◌, update, refl, sym, ap, ◌∙◌, arith, ℕ_discrete,
  subst,
}
use shm_sync.Blocking.MutexStack.{
  Node, Heap, Stack, delete_node, threadsafe_stack, push, retry, popped, pop_node, pop_at, pop,
}
use mathlib.Core.Logic.{if_pos, if_neg}
use mathlib.Core.Path.{fun_ext}

-- The list of the data from node `p` on. The rest of it does not need the first node.
pub Chain : (ℕ → Option Node) → Option ℕ → List ℕ → Type 0
Chain cells p [] = p ≡ none
Chain cells p (x ∷ xs) =
    (a : ℕ) × (next : Option ℕ) × (p ≡ some a)
    × (cells a ≡ some (record { data_ = x; next = next }))
    × Chain (update cells a none) next xs

-- The stack holds the list `xs`, and `new` gives no address in use.
pub record Holds (s : Stack) (xs : List ℕ) : Type 0 where
  pub chain : Chain s.heap.cells s.head xs
  pub free : (a : ℕ) → s.heap.unused ≤ a → s.heap.cells a ≡ none

restored :
    (cells : ℕ → Option Node) (a : ℕ) (n : Option Node)
    → cells a ≡ none
    → update (update cells a n) a none ≡ cells
restored cells a n h = fun_ext (λ j. at j)
  where
    at : (j : ℕ) → update (update cells a n) a none j ≡ cells j
    at j = elim (ℕ_discrete a j) [
      | yes e ↦ if_pos (ℕ_discrete a j) e none (update cells a n j) ∙ sym h ∙ ap cells e
      | no ne ↦
          if_neg (ℕ_discrete a j) ne none (update cells a n j)
          ∙ if_neg (ℕ_discrete a j) ne n (cells j)
    ]

pub push-Holds : (v : ℕ) (s : Stack) (xs : List ℕ) → Holds s xs → Holds (push v s) (v ∷ xs)
unfolding Chain push
push-Holds v s xs h =
    let taken = h.free s.heap.unused (omega arith) in
    let node : Option Node = some (record { data_ = v; next = s.head }) in
    record {
      chain = (
        s.heap.unused,
        s.head,
        refl,
        if_pos (ℕ_discrete s.heap.unused s.heap.unused) refl node (s.heap.cells s.heap.unused),
        subst (λ c. Chain c s.head xs) (sym (restored s.heap.cells s.heap.unused node taken))
            h.chain,
      );
      free = λ a le.
          if_neg (ℕ_discrete s.heap.unused a) (λ e. absurd (omega arith)) node (s.heap.cells a)
          ∙ h.free a (omega arith);
    }

pub pop-Holds :
    (s : Stack) (x : ℕ) (xs : List ℕ)
    → Holds s (x ∷ xs)
    → (s' : Stack) × (pop s ≡ popped s') × Holds s' xs
unfolding Chain pop pop_at pop_node
pop-Holds s x xs h =
    let (a, next, first, node, rest) = h.chain in
    (
      record { heap = delete_node a s.heap; head = next },
      ap (λ p. pop_at s p) first ∙ ap (λ c. pop_node s a c) node,
      record { chain = rest; free = λ a' le. deleted a a' (h.free a' le) },
    )
  where
    deleted : (a a' : ℕ) → s.heap.cells a' ≡ none → update s.heap.cells a none a' ≡ none
    deleted a a' e = elim (ℕ_discrete a a') [
      | yes same ↦ if_pos (ℕ_discrete a a') same none (s.heap.cells a')
      | no other ↦ if_neg (ℕ_discrete a a') other none (s.heap.cells a') ∙ e
    ]

pub pop-empty : (s : Stack) → Holds s [] → pop s ≡ retry
unfolding Chain pop pop_at
pop-empty s h = ap (λ p. pop_at s p) h.chain

pub threadsafe_stack-Holds :
    (h : Heap) → ((a : ℕ) → h.unused ≤ a → h.cells a ≡ none) → Holds (threadsafe_stack h) (0 ∷ [])
unfolding Chain threadsafe_stack
threadsafe_stack-Holds h free =
    let taken = free h.unused (omega arith) in
    let node : Option Node = some (record { data_ = 0; next = none }) in
    record {
      chain = (
        h.unused,
        none,
        refl,
        if_pos (ℕ_discrete h.unused h.unused) refl node (h.cells h.unused),
        refl,
      );
      free = λ a le.
          if_neg (ℕ_discrete h.unused a) (λ e. absurd (omega arith)) node (h.cells a)
          ∙ free a (omega arith);
    }
