-- ===== src/Common/Stats/Widths/Columns.antt =====
-- common/stats/stats.cpp: every sample fits into the column that `computeSampleWidths` measures.
use shm_sync.Prelude.{
  ℕ, zero, suc, ◌+◌, ◌^◌, ◌≤◌, ◌<◌, ◌≡◌, ◌⊎◌, inl, inr, pos, negsuc, Bool, true, false,
  if◌then◌else◌, ℤ, Bool-cases, leb, List, [], ◌∷◌, length, get_or, set, length-set,
  get_or-set_self, get_or-set_ne, replicate, length-replicate, refl, sym, ap, ◌∙◌, arith,
  ℕ_discrete, dec_lt,
}
use native.Mathlib.Nat.{pow-le-pow_right, le_refl, le_trans}
use shm_sync.Common.Stats.Samples.{Stats}
use shm_sync.Common.Stats.Summary.{larger}
use shm_sync.Common.Stats.Widths.{
  Printer, num_width, widest, sample_at, widen_from, widen_rows, compute_sample_widths, Exact,
}

-- A number fits a column of width `w`.
abbrev pub Fits : ℕ → ℕ → Type 0
Fits n w = (n < 10 ^ w) × (0 < w)

pub Fits-mono : (n v w : ℕ) → v ≤ w → Fits n v → Fits n w
Fits-mono n v w le f =
    (omega (arith, pow-le-pow_right {n = 10} (omega arith) le, f.0), omega (arith, f.1))

set_beyond : (a : List ℕ) (i v : ℕ) → length a ≤ i → set a i v ≡ a
set_beyond [] i v h = refl
set_beyond (x ∷ a) zero v h = absurd (omega arith)
set_beyond (x ∷ a) (suc i) v h = ap (λ t. x ∷ t) (set_beyond a i v (omega arith))

module _ {D : Type 0} (P : Printer D) (exact : Exact P) where
  num_width-Fits : (n : ℕ) → n < 2 ^ 53 → (w : ℕ) × (num_width P (P.of n) ≡ pos w) × Fits n w
  unfolding num_width
  num_width-Fits zero h = (1, rw exact.nought refl, (omega arith, omega arith))
  num_width-Fits (suc n) h =
      let (k, log, small) = exact.log10 (suc n) (omega arith) h in
      (
        suc k,
        rw (exact.nonzero (suc n) (omega arith) h, exact.positive (suc n) h, log) refl,
        (small, omega arith),
      )

  -- A column that is widened for a number holds it, and what it held before.
  pub widest-Fits :
      (w n : ℕ)
      → n < 2 ^ 53
      → Fits n (widest P w (num_width P (P.of n))) × (w ≤ widest P w (num_width P (P.of n)))
  widest-Fits w n h =
      let (v, e, fits) = num_width-Fits n h in
      rw e (Fits-mono n v (larger w v) (ground arith) fits, ground arith)

  widest-reached : (w : ℕ) (z : ℤ) → (widest P w z ≡ w) ⊎ (z ≡ pos (widest P w z))
  widest-reached w (negsuc n) = inl refl
  widest-reached w (pos n) = elim (Bool-cases (leb n w)) [
    | inl e ↦ rw e (inl refl)
    | inr e ↦ rw e (inr refl)
  ]

  module _ (st : Stats) (run : ℕ)
      (small : (exec thr : ℕ) → sample_at P st run exec thr < 2 ^ 53) where
    abbrev width_of : (exec thr : ℕ) → ℤ
    width_of exec thr = num_width P (P.of (sample_at P st run exec thr))

    -- From `width` to `width'` the columns are widened for the samples that `In` picks.
    pub record Widened (In : (exec thr : ℕ) → Type 0) (width width' : List ℕ) : Type 0 where
      pub same_length : length width' ≡ length width
      pub grows : (thr : ℕ) → get_or width thr 0 ≤ get_or width' thr 0
      pub fits :
          (exec thr : ℕ)
          → In exec thr
          → thr < length width
          → Fits (sample_at P st run exec thr) (get_or width' thr 0)
      pub reached :
          (thr : ℕ)
          → (get_or width' thr 0 ≡ get_or width thr 0)
            ⊎ ((exec : ℕ) × In exec thr × (width_of exec thr ≡ pos (get_or width' thr 0)))

    Widened-both :
        (In Jn Kn : ℕ → ℕ → Type 0) (a b c : List ℕ)
        → ((exec thr : ℕ) → In exec thr → Kn exec thr)
        → ((exec thr : ℕ) → Jn exec thr → Kn exec thr)
        → ((exec thr : ℕ) → Kn exec thr → In exec thr ⊎ Jn exec thr)
        → Widened In a b
        → Widened Jn b c
        → Widened Kn a c
    Widened-both In Jn Kn a b c into from split p q = record {
      same_length = q.same_length ∙ p.same_length;
      grows = λ thr. le_trans (p.grows thr) (q.grows thr);
      fits = λ exec thr k lt. elim (split exec thr k) [
        | inl i ↦ Fits-mono _ _ _ (q.grows thr) (p.fits exec thr i lt)
        | inr j ↦ q.fits exec thr j (omega (arith, p.same_length, lt))
      ];
      reached = λ thr. elim (q.reached thr) [
        | inr (exec, j, e) ↦ inr (exec, from exec thr j, e)
        | inl same ↦ elim (p.reached thr) [
          | inl old ↦ inl (same ∙ old)
          | inr (exec, i, e) ↦ inr (exec, into exec thr i, e ∙ ap pos (sym same))
        ]
      ];
    }

    Widened-none :
        (In : ℕ → ℕ → Type 0) (a : List ℕ) → ((exec thr : ℕ) → ¬ In exec thr) → Widened In a a
    Widened-none In a empty = record {
      same_length = refl;
      grows = λ thr. le_refl _;
      fits = λ exec thr i lt. absurd (empty exec thr i);
      reached = λ thr. inl refl;
    }

    abbrev Just : ℕ → ℕ → ℕ → ℕ → Type 0
    Just e t exec thr = (e ≡ exec) × (t ≡ thr)

    Widened-one :
        (e t : ℕ) (a : List ℕ)
        → Widened (Just e t) a (set a t (widest P (get_or a t 0) (width_of e t)))
    Widened-one e t a =
        let (holds, wider) = widest-Fits (get_or a t 0) (sample_at P st run e t) (small e t) in
        let w = widest P (get_or a t 0) (width_of e t) in
        record {
          same_length = length-set a t w;
          grows = λ thr. elim (ℕ_discrete t thr) [
            | no ne ↦ rw (get_or-set_ne a t thr w 0 ne) (le_refl _)
            | yes here ↦ elim (dec_lt t (length a)) [
              | yes lt ↦ rw (← here, get_or-set_self a t w 0 lt) wider
              | no ge ↦ rw (set_beyond a t w (omega arith)) (le_refl _)
            ]
          ];
          fits = λ exec thr (p, q) lt.
              rw (← p, ← q, get_or-set_self a t w 0 (omega (arith, q, lt))) holds;
          reached = λ thr. elim (ℕ_discrete t thr) [
            | no ne ↦ inl (get_or-set_ne a t thr w 0 ne)
            | yes here ↦ elim (dec_lt t (length a)) [
              | no ge ↦ inl (rw (set_beyond a t w (omega arith)) refl)
              | yes lt ↦
                  let at : get_or (set a t w) t 0 ≡ w = get_or-set_self a t w 0 lt in
                  rw (← here, at)
                    (elim (widest-reached (get_or a t 0) (width_of e t)) [
                      | inl same ↦ inl same
                      | inr new ↦ inr (e, (refl, refl), new)
                    ])
            ]
          ];
        }

    abbrev InRow : ℕ → ℕ → ℕ → ℕ → ℕ → Type 0
    InRow e lo hi exec thr = (e ≡ exec) × (lo ≤ thr) × (thr < hi)

    abbrev InRows : ℕ → ℕ → ℕ → ℕ → Type 0
    InRows lo hi exec thr = (lo ≤ exec) × (exec < hi) × (thr < st.nr_threads)

    widen_from-Widened :
        (e todo thr hi : ℕ) (a : List ℕ)
        → thr + todo ≡ hi
        → Widened (InRow e thr hi) a (widen_from P st run e todo thr a)
    unfolding widen_from
    widen_from-Widened e zero thr hi a end =
        Widened-none (InRow e thr hi) a (λ exec t i. omega arith)
    widen_from-Widened e (suc todo) thr hi a end =
        Widened-both (Just e thr) (InRow e (suc thr) hi) (InRow e thr hi) a _ _
          (λ exec t i. (i.0, omega (arith, i.1), omega (arith, i.1)))
          (λ exec t i. (i.0, omega (arith, i.1), i.2))
          (λ exec t i. elim (ℕ_discrete thr t) [
            | yes here ↦ inl (i.0, here)
            | no ne ↦ inr (i.0, omega (arith, i.1), i.2)
          ])
          (Widened-one e thr a) (widen_from-Widened e todo (suc thr) hi _ (omega arith))

    widen_rows-Widened :
        (todo lo hi : ℕ) (a : List ℕ)
        → lo + todo ≡ hi
        → Widened (InRows lo hi) a (widen_rows P st run todo lo a)
    unfolding widen_rows
    widen_rows-Widened zero lo hi a end = Widened-none (InRows lo hi) a (λ exec t i. omega arith)
    widen_rows-Widened (suc todo) lo hi a end =
        Widened-both (InRow lo 0 st.nr_threads) (InRows (suc lo) hi) (InRows lo hi) a _ _
          (λ exec t i. (omega (arith, i.0), omega (arith, i.0), i.2))
          (λ exec t i. (omega (arith, i.0), i.1, i.2))
          (λ exec t i. elim (ℕ_discrete lo exec) [
            | yes here ↦ inl (here, omega arith, i.2)
            | no ne ↦ inr (omega (arith, i.0), i.1, i.2)
          ])
          (widen_from-Widened lo st.nr_threads 0 st.nr_threads a (omega arith))
          (widen_rows-Widened todo (suc lo) hi _ (omega arith))

    -- `computeSampleWidths` over samples that a double holds exactly: every sample of the run fits
    -- into the column of its thread. A column is not narrower than before, if the widths are not
    -- initialized, and no wider than it was or than `numWidth` of one of the run's samples.
    pub compute_sample_widths_lem :
        (width : List ℕ) (initialize : Bool)
        → length width ≡ st.nr_threads
        → let start = if initialize then replicate st.nr_threads 0 else width in
          let width' = compute_sample_widths P st width run initialize in
          (length width' ≡ st.nr_threads)
          × ((exec thr : ℕ)
              → exec < st.nr_executions
              → thr < st.nr_threads
              → Fits (sample_at P st run exec thr) (get_or width' thr 0))
          × ((thr : ℕ) → get_or start thr 0 ≤ get_or width' thr 0)
          × ((thr : ℕ)
              → (get_or width' thr 0 ≡ get_or start thr 0)
                ⊎ ((exec : ℕ) × (exec < st.nr_executions)
                    × (num_width P (P.of (sample_at P st run exec thr))
                        ≡ pos (get_or width' thr 0))))
    unfolding compute_sample_widths
    compute_sample_widths_lem width initialize full =
        let start = if initialize then replicate st.nr_threads 0 else width in
        let full' : length start ≡ st.nr_threads = started initialize in
        let w = widen_rows-Widened st.nr_executions 0 st.nr_executions start (omega arith) in
        (
          w.same_length ∙ full',
          λ exec thr h k. w.fits exec thr (omega arith, h, k) (omega (arith, full', k)),
          w.grows,
          λ thr. elim (w.reached thr) [
            | inl same ↦ inl same
            | inr (exec, i, e) ↦ inr (exec, i.1, e)
          ],
        )
      where
        started :
            (b : Bool) → length (if b then replicate st.nr_threads 0 else width) ≡ st.nr_threads
        started true = length-replicate {A = ℕ} st.nr_threads 0
        started false = full
