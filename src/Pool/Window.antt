-- ===== src/Pool/Window.antt =====
-- src/filter/pool.c, jf_pool_window: what has happened when it returns.
use jaro_mail.Base.{
  ltb, ◌==◌, if◌then◌else◌, Bool-cases, count, ℕ, ◌+◌, ◌≡◌, ap, ◌∙◌, subst, inl, inr, some, arith,
}
use jaro_mail.Pool.{waiting, Pool, end_window, IsReachable}
use jaro_mail.Pool.Ordered.{runs, runs_job, runs_job-runs, Option-injective}
use jaro_mail.Pool.Invariant.{IsReachable-IsOrdered}

-- When jf_pool_window returns, in a pool that any order of steps has led to, every job of the window
-- has been run to its end exactly once, and nothing else has.
pub end_window-settled :
    (p q : Pool)
    → IsReachable p
    → p.coordinator ≡ waiting
    → end_window p ≡ some q
    → (j : ℕ) → count (λ k. k == j) q.settled ≡ (if ltb j q.count then 1 else 0)
unfolding end_window
end_window-settled p q r waits h j = elim (Bool-cases (p.remaining == 0)) [
  | inr f ↦ cc (rw (f, end_window) at h)
  | inl t ↦
      let w = IsReachable-IsOrdered p r in
      let rest : p.remaining ≡ 0 = ground arith in
      let l = w.left in
      let b = w.below in
      let none_runs : count runs p.workers ≡ 0 = omega arith in
      let all_taken : p.next ≡ p.count = omega arith in
      let few = runs_job-runs j p.workers in
      let once : count (λ k. k == j) p.settled + count (runs_job j) p.workers
          ≡ (if ltb j p.count then 1 else 0) =
        w.once j ∙ ap (λ n. if ltb j n then 1 else 0) all_taken in
      subst (λ (s : Pool). count (λ k. k == j) s.settled ≡ (if ltb j s.count then 1 else 0))
        (Option-injective (rw (t, end_window) at h)) (omega (arith, once, few, none_runs))
]
