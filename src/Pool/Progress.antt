-- ===== src/Pool/Progress.antt =====
-- src/filter/pool.c, jf_pool_window: the steps up to its return.
use jaro_mail.Base.{
  ◌==◌, if◌then◌else◌, Bool-cases, Option-cases, length, get_elem?, count, ℕ, zero, suc, ◌+◌, ◌-◌,
  ◌*◌, ◌%◌, ◌^◌, ◌≤◌, ◌<◌, ◌≡◌, refl, sym, ap, ◌∙◌, subst, ◌⊎◌, inl, inr, Bool, true, false, some,
  List, [], ◌∷◌, arith,
}
use jaro_mail.Pool.{
  Worker, idle, asleep, returned, running, Coordinator, outside, waiting, blocked, joining,
  finished, Pool, signal_settled, take_job, wait_ready, settle_job, end_window, wait_settled, Work,
  taken, sleeps, settles, Advance, works, ends, waits, joins, advances, IsReachable, stepped,
}
use jaro_mail.Pool.Ordered.{
  runs, has_left, is_asleep, in_window, is_open, IsOrdered, replace-count, Option-injective,
  signal_settled-in_window,
}
use jaro_mail.Pool.Crew.{crew, IsReachable-crew}
use jaro_mail.Pool.Invariant.{IsReachable-IsOrdered}

abbrev pub is_idle : Worker → Bool
is_idle idle = true
is_idle w = false

abbrev is_awake : Coordinator → Bool
is_awake blocked = false
is_awake c = true

-- A bound on the steps that are left in a window to the threads that are awake: a job is taken,
-- settled, and its worker goes to sleep; a settled job may wake the coordinator.
abbrev pub left_work : Pool → ℕ
left_work p =
    4 * (p.count - p.next)
    + 3 * count runs p.workers
    + count is_idle p.workers
    + (if is_awake p.coordinator then 1 else 0)

-- A worker that runs a job or is awake, or all of them sleep.
pub data Crew (ws : List Worker) : Type 0 where
  runs_one : (i j : ℕ) → get_elem? ws i ≡ some (running j) → Crew ws
  idles_one : (i : ℕ) → get_elem? ws i ≡ some idle → Crew ws
  all_asleep : count runs ws ≡ 0 → count is_asleep ws + count has_left ws ≡ length ws → Crew ws

pub Crew-cases : (ws : List Worker) → Crew ws
Crew-cases [] = all_asleep refl refl
Crew-cases (idle ∷ ws) = idles_one 0 refl
Crew-cases (running j ∷ ws) = runs_one 0 j refl
Crew-cases (asleep ∷ ws) = elim (Crew-cases ws) [
  | runs_one i j h ↦ runs_one (suc i) j h
  | idles_one i h ↦ idles_one (suc i) h
  | all_asleep r a ↦ all_asleep (omega (arith, r)) (omega (arith, a))
]
Crew-cases (returned ∷ ws) = elim (Crew-cases ws) [
  | runs_one i j h ↦ runs_one (suc i) j h
  | idles_one i h ↦ idles_one (suc i) h
  | all_asleep r a ↦ all_asleep (omega (arith, r)) (omega (arith, a))
]

pub idle-works : (p : Pool) (i : ℕ) → get_elem? p.workers i ≡ some idle → (q : Pool) × Advance p q
idle-works p i at = elim (Option-cases (take_job i p)) [
  | inl e ↦ (wait_ready i p, works (sleeps i at e))
  | inr (q, e) ↦ (q, works (taken i at e))
]

window-cases : (c : Coordinator) → in_window c ≡ true → (c ≡ waiting) ⊎ (c ≡ blocked)
window-cases waiting h = inl refl
window-cases blocked h = inr refl
window-cases outside h = cc h
window-cases joining h = cc h
window-cases finished h = cc h

window-is_open : (c : Coordinator) → in_window c ≡ true → is_open c ≡ true
window-is_open c h = elim (window-cases c h) [ inl e ↦ ap is_open e | inr e ↦ ap is_open e ]

-- Someone is awake.
window-Advance :
    (p : Pool)
    → IsOrdered p
    → crew p ≡ 16
    → in_window p.coordinator ≡ true
    → (q : Pool) × Advance p q
window-Advance p w many inside = elim (window-cases p.coordinator inside) [
  | inl at ↦ elim (Option-cases (end_window p)) [
    | inl e ↦ (wait_settled p, waits at e)
    | inr (q, e) ↦ (q, ends at e)
  ]
  | inr at ↦ elim (Crew-cases p.workers) [
    | runs_one i j h ↦ (settle_job i j p, works (settles i j h))
    | idles_one i h ↦ idle-works p i h
    | all_asleep r a ↦
        let l = w.left in
        let m = w.manned (w.working (ap is_open at)) in
        let full = (w.parked (λ z. omega (arith, z, a, m, many))).0 in
        absurd (w.pending at (omega (arith, l, full, r)))
  ]
]

signal-awake :
    (c : Coordinator) (last : Bool)
    → (if is_awake (if last then signal_settled c else c) then 1 else 0)
      ≤ (if is_awake c then 1 else 0) + 1
unfolding signal_settled
signal-awake c last = ground arith

Work-left_work :
    {p q : Pool}
    → Work p q
    → IsOrdered p
    → in_window p.coordinator ≡ true
    → left_work q < left_work p
unfolding take_job wait_ready settle_job signal_settled
Work-left_work (taken {p} {q} i at h) w inside = elim (Bool-cases (p.next == p.count)) [
  | inl e ↦ cc (rw (w.working (window-is_open p.coordinator inside), e, take_job) at h)
  | inr e ↦
      let r = replace-count runs i idle (running p.next) p.workers at in
      let d = replace-count is_idle i idle (running p.next) p.workers at in
      let b = w.below in
      let c = w.word in
      let more : p.next < p.count = ground arith in
      let small : (p.next + 1) % 2 ^ 64 ≡ p.next + 1 = omega arith in
      subst (λ s. left_work s < left_work p)
        (Option-injective (rw (w.working (window-is_open p.coordinator inside), e, take_job) at h))
        (omega (arith, r, d, small, more))
]
Work-left_work (sleeps {p} i at h) w inside =
    let r = replace-count runs i idle asleep p.workers at in
    let d = replace-count is_idle i idle asleep p.workers at in omega (arith, r, d)
Work-left_work (settles {p} i j at) w inside =
    let r = replace-count runs i (running j) idle p.workers at in
    let d = replace-count is_idle i (running j) idle p.workers at in
    let at_most = signal-awake p.coordinator ((p.remaining + 2 ^ 64 - 1) % 2 ^ 64 == 0) in
    omega (arith, r, d, at_most)

Advance-left_work :
    {p q : Pool}
    → Advance p q
    → IsOrdered p
    → in_window p.coordinator ≡ true
    → (q.coordinator ≡ outside) ⊎ (left_work q < left_work p)
unfolding end_window wait_settled
Advance-left_work (works h) w inside = inr (Work-left_work h w inside)
Advance-left_work (ends {p} {q} out h) w inside = inl (ground (arith, h))
Advance-left_work (joins {p} {q} pending out h) w inside = cc (sym (ap in_window out) ∙ inside)
Advance-left_work (waits {p} out h) w inside = inr (let a = ap is_awake out in ground arith)

Work-in_window : {p q : Pool} → Work p q → in_window q.coordinator ≡ in_window p.coordinator
unfolding take_job wait_ready settle_job
Work-in_window (taken {p} {q} i at h) = ground (arith, h)
Work-in_window (sleeps {p} i at h) = refl
Work-in_window (settles {p} i j at) = elim (Bool-cases ((p.remaining + 2 ^ 64 - 1) % 2 ^ 64 == 0)) [
  | inl t ↦ rw t (signal_settled-in_window p.coordinator)
  | inr f ↦ rw f refl
]

Advance-in_window :
    {p q : Pool}
    → Advance p q
    → in_window p.coordinator ≡ true
    → (q.coordinator ≡ outside) ⊎ (in_window q.coordinator ≡ true)
unfolding end_window wait_settled
Advance-in_window (works h) inside = inr (Work-in_window h ∙ inside)
Advance-in_window (ends {p} {q} out h) inside = inl (ground (arith, h))
Advance-in_window (joins {p} {q} pending out h) inside = cc (sym (ap in_window out) ∙ inside)
Advance-in_window (waits {p} out h) inside = inr refl

-- Whichever steps the threads that are awake take, the coordinator comes to `target` after finitely
-- many of them, and before that one of them has a step to take.
pub data Returns (target : Coordinator) : Pool → Type 0 where
  over : {p : Pool} → p.coordinator ≡ target → Returns target p
  goes_on :
      {p : Pool} (q : Pool)
      → Advance p q
      → ((r : Pool) → Advance p r → Returns target r)
      → Returns target p

Returns-below :
    (n : ℕ) (p : Pool)
    → left_work p < n
    → IsReachable p
    → in_window p.coordinator ≡ true
    → Returns outside p
Returns-below zero p small r inside = absurd (omega arith)
Returns-below (suc n) p small r inside =
    let w = IsReachable-IsOrdered p r in
    let (q, h) = window-Advance p w (IsReachable-crew p r) inside in
    goes_on q h (λ s k. elim (Advance-left_work k w inside) [
      | inl out ↦ over out
      | inr less ↦ elim (Advance-in_window k inside) [
        | inl out ↦ over out
        | inr within_it ↦
            Returns-below n s (omega (arith, small, less)) (stepped r (advances k)) within_it
      ]
    ])

-- jf_pool_window returns. In a pool that any order of steps has led to, with the coordinator in
-- jf_pool_window and perhaps asleep, a thread that is awake always has a step to take, so no wake-up
-- is lost; and however the threads are scheduled, after finitely many steps of threads that are awake
-- the coordinator has left, where no further stop, signal or wake-up without a cause comes between.
pub end_window-Returns :
    (p : Pool) → IsReachable p → in_window p.coordinator ≡ true → Returns outside p
end_window-Returns p r inside = Returns-below (left_work p + 1) p (omega arith) r inside
