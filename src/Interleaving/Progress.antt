-- ===== src/Interleaving/Progress.antt =====
-- No state is stuck: if in every state that is not final some thread can shorten the work that is
-- left, then from every state there is a schedule to the end.
use shm_sync.Prelude.{
  ℕ, zero, suc, ◌≤◌, ◌<◌, ◌≡◌, ◌⊎◌, inl, inr, List, [], ◌∷◌, total, total-update, each-zero, arith,
}
use shm_sync.Interleaving.{System, turn, run, AllBelow}

module _ {M L : Type 0} (step : ℕ → M → L → M × L) (n : ℕ) (left : L → ℕ) where
  -- Some thread shortens its work by its next step.
  abbrev pub Drives : System M L → Type 0
  Drives s = (i : ℕ) × (i < n) × (left (step i s.mem (s.pc i)).1 < left (s.pc i))

  abbrev pub Finishes : System M L → Type 0
  Finishes s = (is : List ℕ) × AllBelow n is × ((i : ℕ) → i < n → left ((run step s is).pc i) ≡ 0)

  pub can_finish :
      (P : System M L → Type 0)
      → ((s : System M L) (i : ℕ) → i < n → P s → P (turn step s i))
      → ((s : System M L) → P s → (total left n s.pc ≡ 0) ⊎ Drives s)
      → (fuel : ℕ) (s : System M L) → P s
      → total left n s.pc ≤ fuel
      → Finishes s
  unfolding run turn
  can_finish P keep drive zero s p h = ([], tt, each-zero left n s.pc (omega arith))
  can_finish P keep drive (suc fuel) s p h = elim (drive s p) [
    | inl done ↦ ([], tt, each-zero left n s.pc done)
    | inr (i, lt, less) ↦
        let (is, below, end) =
          can_finish P keep drive fuel (turn step s i) (keep s i lt p)
            (omega (arith, total-update left n s.pc i (step i s.mem (s.pc i)).1 lt)) in
        (i ∷ is, (lt, below), end)
  ]
