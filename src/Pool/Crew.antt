-- ===== src/Pool/Crew.antt =====
-- src/filter/pool.c: no step changes the number of the workers.
use jaro_mail.Base.{
  length, ℕ, zero, suc, ◌≡◌, refl, ◌∙◌, Bool, true, false, List, [], ◌∷◌, map, arith,
}
use jaro_mail.Pool.{
  idle, asleep, returned, running, finished, Pool, replace, start, wake_worker, broadcast_ready,
  observe_loop, observe_signals, pool_stop, take_job, wait_ready, settle_job, begin_window,
  end_window, wait_settled, begin_finish, end_finish, taken, sleeps, settles, Advance, works, ends,
  waits, joins, Step, advances, observes, stops, begins, finishes, rouses, rises, IsReachable,
  started, stepped,
}

replace-length {ℓ} :
    {A : Type ℓ} (i : ℕ) (y : A) (xs : List A) → length (replace i y xs) ≡ length xs
replace-length i y [] = refl
replace-length zero y (x ∷ xs) = refl
replace-length (suc i) y (x ∷ xs) = omega (arith, replace-length i y xs)

map-length {ℓ} : {A : Type ℓ} (f : A → A) (xs : List A) → length (map f xs) ≡ length xs
map-length f [] = refl
map-length f (x ∷ xs) = omega (arith, map-length f xs)

abbrev pub crew : Pool → ℕ
crew p = length p.workers

broadcast_ready-crew : (p : Pool) → crew (broadcast_ready p) ≡ crew p
unfolding broadcast_ready
broadcast_ready-crew p = map-length wake_worker p.workers

observe_loop-crew :
    (n : ℕ) (pending : List ℕ) (received : Bool) (p : Pool)
    → crew (observe_loop n pending received p) ≡ crew p
unfolding observe_loop
observe_loop-crew zero pending true p = broadcast_ready-crew p
observe_loop-crew zero pending false p = refl
observe_loop-crew (suc n) [] true p = broadcast_ready-crew p
observe_loop-crew (suc n) [] false p = refl
observe_loop-crew (suc n) (s ∷ pending) received p = observe_loop-crew n pending true _

Advance-crew : {p q : Pool} → Advance p q → crew q ≡ crew p
unfolding take_job wait_ready settle_job end_window wait_settled end_finish observe_signals
Advance-crew (works (taken {p} {q} i at h)) =
    let gone = replace-length i returned p.workers in
    let busy = replace-length i (running p.next) p.workers in ground (arith, h, gone, busy)
Advance-crew (works (sleeps {p} i at h)) = replace-length i asleep p.workers
Advance-crew (works (settles {p} i j at)) = replace-length i idle p.workers
Advance-crew (ends {p} {q} out h) = ground (arith, h)
Advance-crew (waits {p} out h) = refl
Advance-crew (joins {p} {q} pending out h) =
    let o = observe_loop-crew 8 pending false (record p { coordinator = finished }) in
    ground (arith, h, o)

Step-crew : {p q : Pool} → Step p q → crew q ≡ crew p
unfolding observe_signals pool_stop begin_window broadcast_ready begin_finish end_finish
Step-crew (advances h) = Advance-crew h
Step-crew (observes {p} pending) = observe_loop-crew 8 pending false p
Step-crew (stops {p}) = map-length wake_worker p.workers
Step-crew (begins {p} n out small) =
    let woken = map-length wake_worker p.workers in ground (arith, woken)
Step-crew (finishes {p} out) = map-length wake_worker p.workers
Step-crew (rouses {p} i at) = replace-length i idle p.workers
Step-crew (rises {p} out) = refl

pub IsReachable-crew : (p : Pool) → IsReachable p → crew p ≡ 16
IsReachable-crew p started = unfold start in refl
IsReachable-crew q (stepped {p} r s) = Step-crew s ∙ IsReachable-crew p r
