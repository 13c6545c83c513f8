-- ===== src/Common/Stats/Samples/Layout.antt =====
-- Where `initStats` and `enterSample` put the samples, and where the aggregation looks for them.
use shm_sync.Prelude.{
  ℕ, ◌+◌, ◌*◌, ◌%◌, ◌^◌, ◌≤◌, ◌<◌, ◌≡◌, ◌≢◌, ◌⊎◌, Option, some, List, length, get_or, set,
  length-set, length-replicate, get_or-set_self, get_or-set_ne, ap, lt→ltb, replicate, ◌∙◌, arith,
  refl, dec_lt,
}
use native.Mathlib.Nat.{mod-eq_of_lt, mul_comm}
use shm_sync.Common.Stats.Samples.{Stats, elements, init_stats, s_index, enter_sample, exec_offset}

-- The counts fit into 32 bits, and so does their product.
pub record IsValid (st : Stats) : Type 0 where
  pub fits : st.nr_threads * st.nr_executions * st.nr_runs < 2 ^ 32
  pub block : length st.sample ≡ st.nr_threads * st.nr_executions * st.nr_runs

-- The row-major index.
abbrev pub cell : Stats → ℕ → ℕ → ℕ → ℕ
cell st tid exec run = (run * st.nr_executions + exec) * st.nr_threads + tid

pub record InRange (st : Stats) (tid exec run : ℕ) : Type 0 where
  pub thread : tid < st.nr_threads
  pub execution : exec < st.nr_executions
  pub scaling : run < st.nr_runs

-- `a * k + b < c * k` for a digit `b` below `k` and `a` below `c`.
digit-lt : (a b c k : ℕ) → a < c → b < k → a * k + b < c * k
digit-lt a b c k h p = grind arith

digits-injective : (a b c d k : ℕ) → b < k → d < k → a * k + b ≡ c * k + d → (a ≡ c) × (b ≡ d)
digits-injective a b c d k p q e = elim (dec_lt a c) [
  | yes lt ↦ absurd (omega (arith, digit-lt a b c k lt p))
  | no ge ↦ elim (dec_lt c a) [
    | yes lt ↦ absurd (omega (arith, digit-lt c d a k lt q))
    | no ge' ↦ let same : a ≡ c = omega arith in (same, omega (arith, ap (λ (x : ℕ). x * k) same))
  ]
]

le-mul : (a b : ℕ) → 0 < b → a ≤ a * b
le-mul a b h = grind arith

module _ {st : Stats} (v : IsValid st) {tid exec run : ℕ} (h : InRange st tid exec run) where
  row-lt : run * st.nr_executions + exec < st.nr_runs * st.nr_executions
  row-lt = digit-lt run exec st.nr_runs st.nr_executions h.scaling h.execution

  pub cell-lt : cell st tid exec run < length st.sample
  cell-lt = omega (
    arith,
    v.block,
    digit-lt (run * st.nr_executions + exec) tid (st.nr_runs * st.nr_executions) st.nr_threads
        row-lt h.thread,
  )

  plane_small : (st.nr_threads * st.nr_executions) % 2 ^ 32 ≡ st.nr_threads * st.nr_executions
  plane_small = mod-eq_of_lt (
      omega (
        arith,
        v.fits,
        le-mul (st.nr_threads * st.nr_executions) st.nr_runs (omega (arith, h.scaling)),
      ))

  s_index-eq-cell : s_index st tid exec run ≡ cell st tid exec run
  unfolding s_index
  s_index-eq-cell = rw plane_small (omega (arith, cell-lt, v.fits, v.block))

  pub exec_offset-eq-cell : exec_offset st run exec + tid ≡ cell st tid exec run
  unfolding exec_offset
  exec_offset-eq-cell =
      rw (mul_comm st.nr_executions st.nr_threads, plane_small)
        (omega (arith, cell-lt, v.fits, v.block))

elements-eq :
    (threads execs runs : ℕ)
    → threads * execs * runs < 2 ^ 32
    → 0 < runs
    → elements threads execs runs ≡ threads * execs * runs
elements-eq threads execs runs small pos = rw plane (mod-eq_of_lt small)
  where
    plane : (threads * execs) % 2 ^ 32 ≡ threads * execs
    plane = mod-eq_of_lt (omega (arith, small, le-mul (threads * execs) runs pos))

-- `initStats` leaves a block of zeros that holds every sample, if the counts' product has 32 bits
-- and the allocator gives a block.
pub init_stats-IsValid :
    (memory : ℕ → Option (List ℕ)) (threads execs runs : ℕ) (b : List ℕ)
    → threads * execs * runs < 2 ^ 32
    → 0 < runs
    → memory (threads * execs * runs) ≡ some b
    → (st : Stats) × (init_stats memory threads execs runs ≡ some st)
      × IsValid st
      × (st.nr_threads ≡ threads)
      × (st.nr_executions ≡ execs)
      × (st.nr_runs ≡ runs)
unfolding init_stats
init_stats-IsValid memory threads execs runs b small pos got =
    let size = elements-eq threads execs runs small pos in
    (
      record {
        nr_threads = threads;
        nr_executions = execs;
        nr_runs = runs;
        sample = replicate (elements threads execs runs) 0;
      },
      rw (ap memory size ∙ got, init_stats),
      record { fits = small; block = length-replicate (elements threads execs runs) 0 ∙ size },
      refl,
      refl,
      refl,
    )

cell-injective :
    (st : Stats) {tid exec run tid' exec' run' : ℕ}
    → InRange st tid exec run
    → InRange st tid' exec' run'
    → cell st tid exec run ≡ cell st tid' exec' run'
    → (tid ≡ tid') × (exec ≡ exec') × (run ≡ run')
cell-injective st {tid} {exec} {run} {tid'} {exec'} {run'} h k e =
    let (rows, threads) =
      digits-injective (run * st.nr_executions + exec) tid (run' * st.nr_executions + exec') tid'
        st.nr_threads h.thread k.thread e in
    let (runs, execs) =
      digits-injective run exec run' exec' st.nr_executions h.execution k.execution rows in
    (threads, execs, runs)

module _ {st : Stats} (v : IsValid st) {tid exec run : ℕ} (h : InRange st tid exec run)
    (s : ℕ) where
  -- The block behind the sample's entry.
  abbrev after : Stats
  after = record st { sample = set st.sample (s_index st tid exec run) s }

  accepted : enter_sample st s tid exec run ≡ some after
  unfolding enter_sample
  accepted = rw (
    lt→ltb exec st.nr_executions h.execution,
    lt→ltb run st.nr_runs h.scaling,
    lt→ltb (s_index st tid exec run) (length st.sample)
        (omega (arith, cell-lt v h, s_index-eq-cell v h)),
  )

  found : get_or after.sample (exec_offset st run exec + tid) 0 ≡ s
  found =
      rw (exec_offset-eq-cell v h, s_index-eq-cell v h)
        (get_or-set_self st.sample (cell st tid exec run) s 0 (cell-lt v h))

  untouched :
      {tid' exec' run' : ℕ}
      → InRange st tid' exec' run'
      → (tid ≢ tid') ⊎ ((exec ≢ exec') ⊎ (run ≢ run'))
      → get_or after.sample (exec_offset st run' exec' + tid') 0
        ≡ get_or st.sample (exec_offset st run' exec' + tid') 0
  untouched {tid'} {exec'} {run'} k differ =
      rw (exec_offset-eq-cell v k, s_index-eq-cell v h)
        (get_or-set_ne st.sample (cell st tid exec run) (cell st tid' exec' run') s 0
          (λ e. let (a, b, c) = cell-injective st h k e in ground arith))

  -- A sample of a thread, execution and run in range is taken, and keeps the block valid and the
  -- counts unchanged. The aggregation finds it in the row of its run and execution, at the thread's
  -- place, and finds every other sample as it was.
  pub enter_sample_lem :
      (st' : Stats) × (enter_sample st s tid exec run ≡ some st')
      × (st' ≡ record st { sample = st'.sample })
      × IsValid st'
      × (get_or st'.sample (exec_offset st run exec + tid) 0 ≡ s)
      × ((tid' exec' run' : ℕ)
          → InRange st tid' exec' run'
          → (tid ≢ tid') ⊎ ((exec ≢ exec') ⊎ (run ≢ run'))
          → get_or st'.sample (exec_offset st run' exec' + tid') 0
            ≡ get_or st.sample (exec_offset st run' exec' + tid') 0)
  enter_sample_lem = (
    after,
    accepted,
    refl,
    record { fits = v.fits; block = length-set st.sample (s_index st tid exec run) s ∙ v.block },
    found,
    λ tid' exec' run' k. untouched k,
  )
