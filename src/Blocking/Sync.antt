-- ===== src/Blocking/Sync.antt =====
-- The loop that every lock benchmark runs (`taslock_sync`, `arraylock_sync` and so on), over the
-- `lock` and `unlock` of the benchmark. Each access to shared memory is one step.
pub mod Progress
use shm_sync.Interleaving.{System}
use shm_sync.Prelude.{ℕ, suc, Bool, true, false, ◌==◌, if◌then◌else◌}

-- What a routine does after an access: it goes on at another place of its code, or it returns.
pub data Next (W : Type 0) : Type 0 where
  goto : W → Next W
  return : Next W

-- A lock over memory `M`, with thread-local variables `X`. `W` and `U` are the places in the code
-- of `lock` and of `unlock`; a routine is called at the first of them.
pub record Lock (M X W U : Type 0) : Type 0 where
  pub enter : W
  pub lock : ℕ → M → X → W → M × X × Next W
  pub leave : U
  pub unlock : ℕ → M → X → U → M × X × Next U

-- Where a thread stands in the loop.
pub data Place (W U : Type 0) : Type 0 where
  head : Place W U  -- the test `iter != nr_iter`
  locking : W → Place W U
  inside : Place W U  -- `useful_in(ui)`, the critical section
  unlocking : U → Place W U
  outside : Place W U  -- `useful_out(uo)`
  finished : Place W U

pub record Thread (X W U : Type 0) : Type 0 where
  pub place : Place W U
  pub vars : X
  pub iter : ℕ
  pub nr_iter : ℕ

abbrev pub in_lock : {W U : Type 0} → Next W → Place W U
in_lock (goto w) = locking w
in_lock return = inside

abbrev pub in_unlock : {W U : Type 0} → Next U → Place W U
in_unlock (goto u) = unlocking u
in_unlock return = outside

module _ {M X W U : Type 0} (l : Lock M X W U) where
  unfoldable pub sync_at : ℕ → M → Thread X W U → Place W U → M × Thread X W U
  sync_at i m t head =
      (m, record t { place = if t.iter == t.nr_iter then finished else locking l.enter })
  sync_at i m t (locking w) =
      let (m', x, r) = l.lock i m t.vars w in (m', record t { place = in_lock r; vars = x })
  sync_at i m t inside = (m, record t { place = unlocking l.leave })
  sync_at i m t (unlocking u) =
      let (m', x, r) = l.unlock i m t.vars u in (m', record t { place = in_unlock r; vars = x })
  sync_at i m t outside = (m, record t { place = head; iter = suc t.iter })
  sync_at i m t finished = (m, record t { place = finished })

  -- The next step of thread `i`.
  unfoldable pub sync : ℕ → M → Thread X W U → M × Thread X W U
  unfolding sync_at
  sync i m t = sync_at i m t t.place

-- In the critical section.
abbrev pub critical_at : {W U : Type 0} → Place W U → Bool
critical_at inside = true
critical_at _ = false

abbrev pub critical : {X W U : Type 0} → Thread X W U → Bool
critical t = critical_at t.place

-- A thread at the call of the loop.
abbrev pub call : {X W U : Type 0} → X → ℕ → Thread X W U
call x n = record { place = head; vars = x; iter = 0; nr_iter = n }

-- The threads at the call of the loop, thread `i` with `rounds i` rounds to run.
abbrev pub begin : {M X W U : Type 0} → M → X → (ℕ → ℕ) → System M (Thread X W U)
begin m x rounds = record { mem = m; pc = λ i. call x (rounds i) }
