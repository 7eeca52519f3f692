-- ===== src/Pool/Control.antt =====
-- src/filter/pool.c: the sections of the coordinator and of the signals keep the pool ordered.
use jaro_mail.Base.{
  ◌==◌, Bool-cases, all, count, ℕ, zero, suc, ◌^◌, ◌<◌, ◌≡◌, refl, ap, subst, ◌≢◌, inl, inr, Bool,
  true, false, none, some, List, [], ◌∷◌, map, arith,
}
use jaro_mail.Pool.{
  Coordinator, outside, waiting, blocked, joining, finished, Pool, wake_worker, broadcast_ready,
  observe_loop, observe_signals, begin_window, end_window, wait_settled, begin_finish, has_returned,
  end_finish,
}
use jaro_mail.Pool.Ordered.{
  runs, runs_job, has_left, in_window, is_open, IsOrdered, runs_job-runs, Option-injective,
  wake-count, wake-is_asleep,
}

pub begin_window-IsOrdered :
    (n : ℕ) (p : Pool)
    → p.coordinator ≡ outside
    → n < 2 ^ 64
    → IsOrdered p
    → IsOrdered (begin_window n p)
unfolding begin_window broadcast_ready
begin_window-IsOrdered zero p out small w = w
begin_window-IsOrdered (suc n) p out small w =
    let rest : p.remaining ≡ 0 = w.still (ap in_window out) in
    let none_runs : count runs p.workers ≡ 0 = let l = w.left in let b = w.below in omega arith in
    let not_zero : (suc n == 0) ≡ false = ground arith in
    let begun : record p {
      next = 0;
      count = suc n;
      remaining = suc n;
      workers = map wake_worker p.workers;
      coordinator = blocked;
      settled = [];
    }
        ≡ begin_window (suc n) p =
      rw (not_zero, begin_window) refl in
    subst IsOrdered begun (record {
      below = omega arith;
      enough = omega arith;
      word = small;
      left = omega (arith, none_runs, wake-count runs p.workers refl);
      once = λ j.
          let r = runs_job-runs j p.workers in
          let k = wake-count (runs_job j) p.workers refl in ground arith;
      still = λ h. cc h;
      working = λ h. w.working (ap is_open out);
      manned = λ f. omega (arith, w.manned f, wake-count has_left p.workers refl);
      parked = λ f. absurd (f (wake-is_asleep p.workers));
      pending = λ e z. omega (arith, z);
      quitting = λ e. cc e;
    })

-- The signal and the stop may change.
pub signalled-IsOrdered :
    (p : Pool) (s : ℕ) (b : Bool) → IsOrdered p → IsOrdered (record p { signal = s; stop = b })
signalled-IsOrdered p s b w = record {
  below = w.below;
  enough = w.enough;
  word = w.word;
  left = w.left;
  once = w.once;
  still = w.still;
  working = w.working;
  manned = w.manned;
  parked = w.parked;
  pending = w.pending;
  quitting = w.quitting;
}

-- The coordinator may move on.
pub moved-IsOrdered :
    (p : Pool) (c : Coordinator)
    → (in_window c ≡ false → p.remaining ≡ 0)
    → (is_open c ≡ true → p.quit ≡ false)
    → (c ≡ blocked → p.remaining ≢ 0)
    → (c ≡ joining → p.quit ≡ true)
    → IsOrdered p
    → IsOrdered (record p { coordinator = c })
moved-IsOrdered p c still working pending quitting w = record {
  below = w.below;
  enough = w.enough;
  word = w.word;
  left = w.left;
  once = w.once;
  still = still;
  working = working;
  manned = w.manned;
  parked = w.parked;
  pending = pending;
  quitting = quitting;
}

pub broadcast_ready-IsOrdered : (p : Pool) → IsOrdered p → IsOrdered (broadcast_ready p)
unfolding broadcast_ready
broadcast_ready-IsOrdered p w = record {
  below = w.below;
  enough = w.enough;
  word = w.word;
  left = omega (arith, w.left, wake-count runs p.workers refl);
  once = λ j. omega (arith, w.once j, wake-count (runs_job j) p.workers refl);
  still = w.still;
  working = w.working;
  manned = λ f. omega (arith, w.manned f, wake-count has_left p.workers refl);
  parked = λ f. absurd (f (wake-is_asleep p.workers));
  pending = w.pending;
  quitting = w.quitting;
}

pub observe_loop-IsOrdered :
    (n : ℕ) (pending : List ℕ) (received : Bool) (p : Pool)
    → IsOrdered p
    → IsOrdered (observe_loop n pending received p)
unfolding observe_loop
observe_loop-IsOrdered zero pending true p w = broadcast_ready-IsOrdered p w
observe_loop-IsOrdered zero pending false p w = w
observe_loop-IsOrdered (suc n) [] true p w = broadcast_ready-IsOrdered p w
observe_loop-IsOrdered (suc n) [] false p w = w
observe_loop-IsOrdered (suc n) (s ∷ pending) received p w =
    observe_loop-IsOrdered n pending true (record p { signal = s; stop = true })
      (signalled-IsOrdered p s true w)

pub end_window-IsOrdered :
    (p q : Pool) → p.coordinator ≡ waiting → end_window p ≡ some q → IsOrdered p → IsOrdered q
unfolding end_window
end_window-IsOrdered p q out h w = elim (Bool-cases (p.remaining == 0)) [
  | inr f ↦ cc (rw (f, end_window) at h)
  | inl t ↦ subst IsOrdered (Option-injective (rw (t, end_window) at h)) (
      moved-IsOrdered p outside (λ e. ground arith) (λ e. w.working (ap is_open out)) (λ e. cc e)
        (λ e. cc e) w)
]

pub wait_settled-IsOrdered :
    (p : Pool)
    → p.coordinator ≡ waiting
    → end_window p ≡ none
    → IsOrdered p
    → IsOrdered (wait_settled p)
unfolding end_window wait_settled
wait_settled-IsOrdered p out h w =
    moved-IsOrdered p blocked (λ e. cc e) (λ e. w.working (ap is_open out))
      (λ e z. (ground (arith, h, z))) (λ e. cc e) w

pub finish-IsOrdered :
    (p : Pool) → p.coordinator ≡ outside → IsOrdered p → IsOrdered (begin_finish p)
unfolding begin_finish broadcast_ready
finish-IsOrdered p out w = record {
  below = w.below;
  enough = w.enough;
  word = w.word;
  left = omega (arith, w.left, wake-count runs p.workers refl);
  once = λ j. omega (arith, w.once j, wake-count (runs_job j) p.workers refl);
  still = λ e. w.still (ap in_window out);
  working = λ e. cc e;
  manned = λ e. cc e;
  parked = λ f. absurd (f (wake-is_asleep p.workers));
  pending = λ e. cc e;
  quitting = λ e. refl;
}

pub end_finish-IsOrdered :
    (pending : List ℕ) (p q : Pool)
    → p.coordinator ≡ joining
    → end_finish pending p ≡ some q
    → IsOrdered p
    → IsOrdered q
unfolding end_finish observe_signals
end_finish-IsOrdered pending p q out h w = elim (Bool-cases (all has_returned p.workers)) [
  | inr f ↦ cc (rw (f, end_finish) at h)
  | inl t ↦ subst IsOrdered (Option-injective (rw (t, end_finish) at h)) (
      observe_loop-IsOrdered 8 pending false (record p { coordinator = finished })
        (moved-IsOrdered p finished (λ e. w.still (ap in_window out)) (λ e. cc e) (λ e. cc e)
          (λ e. cc e) w))
]
