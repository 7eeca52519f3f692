-- ===== src/Pool/Ordered.antt =====
-- src/filter/pool.c: how the counters of the pool agree with its threads.
use jaro_mail.Base.{
  ltb, ◌==◌, if◌then◌else◌, get_elem?, count, ℕ, zero, suc, ◌+◌, ◌^◌, ◌≤◌, ◌<◌, ◌≡◌, refl, ap, ◌≢◌,
  Bool, true, false, some, List, [], ◌∷◌, map, arith,
}
use jaro_mail.Pool.{
  Worker, idle, asleep, returned, running, Coordinator, outside, waiting, blocked, joining,
  finished, Pool, replace, wake_worker, signal_settled,
}

abbrev pub runs : Worker → Bool
runs (running j) = true
runs w = false

abbrev pub runs_job : ℕ → Worker → Bool
runs_job j (running k) = k == j
runs_job j w = false

abbrev pub has_left : Worker → Bool
has_left returned = true
has_left w = false

abbrev pub is_asleep : Worker → Bool
is_asleep asleep = true
is_asleep w = false

-- In jf_pool_window.
abbrev pub in_window : Coordinator → Bool
in_window waiting = true
in_window blocked = true
in_window c = false

-- Before jf_pool_finish.
abbrev pub is_open : Coordinator → Bool
is_open outside = true
is_open c = in_window c

-- The counters agree with the threads, and every job that was taken is with one worker, or settled
-- once. Where a worker sleeps there is no job to take, and where the coordinator sleeps there is a job
-- that is not settled; in jf_pool_finish the pool is to quit.
pub record IsOrdered (p : Pool) : Type 0 where
  pub below : p.next ≤ p.count
  pub enough : p.remaining ≤ p.count
  pub word : p.count < 2 ^ 64
  pub left : p.remaining + p.next ≡ p.count + count runs p.workers
  pub once :
      (j : ℕ)
      → count (λ k. k == j) p.settled + count (runs_job j) p.workers
        ≡ (if ltb j p.next then 1 else 0)
  pub still : in_window p.coordinator ≡ false → p.remaining ≡ 0
  pub working : is_open p.coordinator ≡ true → p.quit ≡ false
  pub manned : p.quit ≡ false → count has_left p.workers ≡ 0
  pub parked : count is_asleep p.workers ≢ 0 → (p.next ≡ p.count) × (p.quit ≡ false)
  pub pending : p.coordinator ≡ blocked → p.remaining ≢ 0
  pub quitting : p.coordinator ≡ joining → p.quit ≡ true

pub replace-count {ℓ} :
    {A : Type ℓ} (t : A → Bool) (i : ℕ) (x y : A) (xs : List A)
    → get_elem? xs i ≡ some x
    → count t (replace i y xs) + (if t x then 1 else 0) ≡ count t xs + (if t y then 1 else 0)
replace-count t i x y [] h = cc h
replace-count t zero x y (z ∷ zs) h =
    let same : z ≡ x = cc h in
    let e : ◌≡◌ {A = ℕ} (if t z then 1 else 0) (if t x then 1 else 0) =
      ap (λ a. if t a then 1 else 0) same in
    omega (arith, e)
replace-count t (suc i) x y (z ∷ zs) h = omega (arith, replace-count t i x y zs h)

pub Option-injective : {A : Type 0} {x y : A} → some x ≡ some y → x ≡ y
Option-injective h = cc h

-- To wake the workers changes none of the counts but that of the sleepers.
pub wake-count :
    (t : Worker → Bool) (ws : List Worker)
    → t idle ≡ t asleep
    → count t (map wake_worker ws) ≡ count t ws
unfolding wake_worker
wake-count t [] h = refl
wake-count t (idle ∷ ws) h = omega (arith, wake-count t ws h)
wake-count t (returned ∷ ws) h = omega (arith, wake-count t ws h)
wake-count t (running j ∷ ws) h = omega (arith, wake-count t ws h)
wake-count t (asleep ∷ ws) h =
    let e : ◌≡◌ {A = ℕ} (if t idle then 1 else 0) (if t asleep then 1 else 0) =
      ap (λ b. if b then 1 else 0) h in
    omega (arith, e, wake-count t ws h)

pub wake-is_asleep : (ws : List Worker) → count is_asleep (map wake_worker ws) ≡ 0
unfolding wake_worker
wake-is_asleep [] = refl
wake-is_asleep (idle ∷ ws) = omega (arith, wake-is_asleep ws)
wake-is_asleep (asleep ∷ ws) = omega (arith, wake-is_asleep ws)
wake-is_asleep (returned ∷ ws) = omega (arith, wake-is_asleep ws)
wake-is_asleep (running j ∷ ws) = omega (arith, wake-is_asleep ws)

pub signal_settled-in_window : (c : Coordinator) → in_window (signal_settled c) ≡ in_window c
unfolding signal_settled
signal_settled-in_window outside = refl
signal_settled-in_window waiting = refl
signal_settled-in_window blocked = refl
signal_settled-in_window joining = refl
signal_settled-in_window finished = refl

pub signal_settled-is_open : (c : Coordinator) → is_open (signal_settled c) ≡ is_open c
unfolding signal_settled
signal_settled-is_open outside = refl
signal_settled-is_open waiting = refl
signal_settled-is_open blocked = refl
signal_settled-is_open joining = refl
signal_settled-is_open finished = refl

pub signal_settled-not_blocked : (c : Coordinator) → signal_settled c ≢ blocked
unfolding signal_settled
signal_settled-not_blocked outside e = cc e
signal_settled-not_blocked waiting e = cc e
signal_settled-not_blocked blocked e = cc e
signal_settled-not_blocked joining e = cc e
signal_settled-not_blocked finished e = cc e

pub runs_job-runs : (j : ℕ) (ws : List Worker) → count (runs_job j) ws ≤ count runs ws
runs_job-runs j [] = omega arith
runs_job-runs j (idle ∷ ws) = omega (arith, runs_job-runs j ws)
runs_job-runs j (asleep ∷ ws) = omega (arith, runs_job-runs j ws)
runs_job-runs j (returned ∷ ws) = omega (arith, runs_job-runs j ws)
runs_job-runs j (running k ∷ ws) = let h = runs_job-runs j ws in ground arith

pub signal_settled-joining :
    (c : Coordinator) (last : Bool) → (if last then signal_settled c else c) ≡ joining → c ≡ joining
unfolding signal_settled
signal_settled-joining c false e = e
signal_settled-joining joining true e = refl
signal_settled-joining outside true e = cc e
signal_settled-joining waiting true e = cc e
signal_settled-joining blocked true e = cc e
signal_settled-joining finished true e = cc e
