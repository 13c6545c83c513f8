-- ===== src/Common/Collector/Laws.antt =====
-- The methods of `range_smpl_collector`.
use shm_sync.Prelude.{
  ℕ, zero, suc, ◌+◌, ◌-◌, ◌^◌, ◌≤◌, ◌<◌, ◌≡◌, Bool, true, ltb, leb, ◌&&◌, if◌then◌else◌, Option,
  some, List, length, get_or, set, length-set, get_or-set_self, get_or-set_ne, arith, refl, dec_lt,
  ◌∙◌, ap,
}
use shm_sync.Common.Collector.{
  Collector, u32, sub_u32, upper, range_smpl_collector, copy_from, get_samples, get_nr_samples,
  includes,
}

-- What the constructor builds from an allocator that gives the memory asked for.
pub record IsValid (c : Collector) : Type 0 where
  pub ordered : c.start_index ≤ c.stop_index
  pub within : c.stop_index ≤ c.population_size
  pub word : c.population_size < 2 ^ 32
  pub counted : c.nr_samples ≡ c.stop_index - c.start_index
  pub room : length c.sample ≡ c.nr_samples

-- From a buffer of the size asked for, the constructor builds a valid collector of the range from
-- `start` to `stop`.
pub range_smpl_collector-IsValid :
    (memory : ℕ → Option (List ℕ)) (population start stop : ℕ) (scaling : Bool) (b : List ℕ)
    → start ≤ stop
    → stop ≤ population
    → population < 2 ^ 32
    → memory (stop - start) ≡ some b
    → length b ≡ stop - start
    → (c : Collector) × (range_smpl_collector memory population start stop scaling ≡ some c)
      × IsValid c
      × (c.start_index ≡ start)
      × (c.stop_index ≡ stop)
      × (c.is_scaling ≡ scaling)
unfolding range_smpl_collector
range_smpl_collector-IsValid memory population start stop scaling b h k w got full =
    let diff : sub_u32 stop start ≡ stop - start = omega arith in
    (
      record {
        population_size = population;
        start_index = start;
        stop_index = stop;
        nr_samples = sub_u32 stop start;
        is_scaling = scaling;
        sample = b;
      },
      rw (ap memory diff ∙ got, range_smpl_collector),
      omega arith,
      refl,
      refl,
      refl,
    )

length-copy_from :
    (todo i : ℕ) (buffer : List ℕ) (start : ℕ) (row : List ℕ)
    → length (copy_from todo i buffer start row) ≡ length buffer
unfolding copy_from
length-copy_from zero i buffer start row = refl
length-copy_from (suc todo) i buffer start row =
    length-copy_from todo (suc i) (set buffer i (get_or row (u32 (start + i)) 0)) start row
    ∙ length-set buffer i (get_or row (u32 (start + i)) 0)

module _ (start : ℕ) (row : List ℕ) where
  abbrev copied : ℕ → ℕ → List ℕ → ℕ → ℕ
  copied todo i buffer k = get_or (copy_from todo i buffer start row) k 0

  copy_from-below :
      (todo i : ℕ) (buffer : List ℕ) (k : ℕ) → k < i → copied todo i buffer k ≡ get_or buffer k 0
  unfolding copy_from
  copy_from-below zero i buffer k h = refl
  copy_from-below (suc todo) i buffer k h =
      copy_from-below todo (suc i) (set buffer i (get_or row (u32 (start + i)) 0)) k (omega arith)
      ∙ get_or-set_ne buffer i k (get_or row (u32 (start + i)) 0) 0 (omega arith)

  copy_from-copies :
      (todo i : ℕ) (buffer : List ℕ) (k : ℕ)
      → i + todo ≤ length buffer
      → i ≤ k
      → k < i + todo
      → copied todo i buffer k ≡ get_or row (u32 (start + k)) 0
  unfolding copy_from
  copy_from-copies zero i buffer k h p q = absurd (omega arith)
  copy_from-copies (suc todo) i buffer k h p q = elim (dec_lt i k) [
    | yes later ↦
        copy_from-copies todo (suc i) (set buffer i (get_or row (u32 (start + i)) 0)) k
          (omega (arith, length-set buffer i (get_or row (u32 (start + i)) 0))) later (omega arith)
    | no first ↦
        let e : i ≡ k = omega arith in
        copy_from-below todo (suc i) (set buffer i (get_or row (u32 (start + i)) 0)) k (omega arith)
        ∙ rw e (get_or-set_self buffer k (get_or row (u32 (start + k)) 0) 0 (omega arith))
  ]

module _ {c : Collector} (v : IsValid c) (run : ℕ) (in_range : run < c.nr_samples) where
  -- For a run in range, `get_samples` and `get_nr_samples` pass their assertions. A scaling run `run`
  -- counts `run + 1` samples, any other as many as the range has; the buffer begins with that many
  -- samples of the row from `start_index` on, in order, none of them past `stop_index`; the
  -- collector stays valid and its range unchanged.
  pub get_samples_lem :
      (row : List ℕ)
      → (c' : Collector) × (n : ℕ) × (get_samples c run row ≡ some c')
        × (get_nr_samples c' run ≡ some n)
        × (n ≡ (if c.is_scaling then run + 1 else c.stop_index - c.start_index))
        × (c.start_index + n ≤ c.stop_index)
        × ((k : ℕ) → k < n → get_or c'.sample k 0 ≡ get_or row (c.start_index + k) 0)
        × IsValid c'
        × (c' ≡ record c { sample = c'.sample })
  unfolding get_samples get_nr_samples
  get_samples_lem row = (
    record c { sample = copy_from (upper c run) 0 c.sample c.start_index row },
    upper c run,
    ground arith,
    ground arith,
    ground arith,
    upper_fits,
    λ k h.
        copy_from-copies c.start_index row (upper c run) 0 c.sample k
          (omega (arith, upper_fits, v.room)) (omega arith) (omega arith)
        ∙ ap (λ j. get_or row j 0) (omega (arith, upper_fits)),
    ground (arith, length-copy_from (upper c run) 0 c.sample c.start_index row),
    refl,
  )
    where
      upper_fits : c.start_index + upper c run ≤ c.stop_index
      upper_fits = ground arith

  -- `includes` tells of a sample of the population whether it is one of those that `get_samples`
  -- collects for the run.
  pub includes_iff :
      (k n : ℕ)
      → k < c.population_size
      → get_nr_samples c run ≡ some n
      → (b : Bool) × (includes c run k ≡ some b)
        × (b ≡ true → (c.start_index ≤ k) × (k < c.start_index + n))
        × (c.start_index ≤ k → k < c.start_index + n → b ≡ true)
  unfolding includes get_nr_samples
  includes_iff k n h e = (
    leb c.start_index k && ltb k (c.start_index + n),
    ground arith,
    λ q. ground arith,
    λ p q. ground arith,
  )
