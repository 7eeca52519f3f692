-- ===== src/Pool/Finish.antt =====
-- src/filter/pool.c, jf_pool_finish: the steps up to its return.
use jaro_mail.Base.{count, ℕ, ◌+◌, ◌*◌}
use jaro_mail.Pool.{Pool}
use jaro_mail.Pool.Ordered.{runs}
use jaro_mail.Pool.Progress.{is_idle}

-- The sections that are left to the workers: a worker returns, or settles its job first.
abbrev left_workers : Pool → ℕ
left_workers p = 2 * count runs p.workers + count is_idle p.workers
