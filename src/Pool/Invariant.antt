-- ===== src/Pool/Invariant.antt =====
-- src/filter/pool.c: what holds of the pool between two sections.
use jaro_mail.Base.{refl, ap, true, false, arith}
use jaro_mail.Pool.{
  waiting, Pool, start, observe_signals, pool_stop, Work, taken, sleeps, settles, Advance, works,
  ends, waits, joins, Step, advances, observes, stops, begins, finishes, rouses, rises, IsReachable,
  started, stepped,
}
use jaro_mail.Pool.Ordered.{is_open, IsOrdered}
use jaro_mail.Pool.Workers.{
  take_job-IsOrdered, wait_ready-IsOrdered, settle_job-IsOrdered, rouses-IsOrdered,
}
use jaro_mail.Pool.Control.{
  signalled-IsOrdered, moved-IsOrdered, broadcast_ready-IsOrdered, observe_loop-IsOrdered,
  begin_window-IsOrdered, end_window-IsOrdered, wait_settled-IsOrdered, finish-IsOrdered,
  end_finish-IsOrdered,
}

start-IsOrdered : IsOrdered start
unfolding start
start-IsOrdered = record {
  below = omega arith;
  enough = omega arith;
  word = omega arith;
  left = refl;
  once = λ j. ground arith;
  still = λ h. refl;
  working = λ h. refl;
  manned = λ h. refl;
  parked = λ h. absurd (h refl);
  pending = λ h. cc h;
  quitting = λ h. cc h;
}

Work-IsOrdered : {p q : Pool} → Work p q → IsOrdered p → IsOrdered q
Work-IsOrdered (taken {p} {q} i at h) w = take_job-IsOrdered i p q at h w
Work-IsOrdered (sleeps {p} i at h) w = wait_ready-IsOrdered i p at h w
Work-IsOrdered (settles {p} i j at) w = settle_job-IsOrdered i j p at w

Advance-IsOrdered : {p q : Pool} → Advance p q → IsOrdered p → IsOrdered q
Advance-IsOrdered (works h) w = Work-IsOrdered h w
Advance-IsOrdered (ends {p} {q} out h) w = end_window-IsOrdered p q out h w
Advance-IsOrdered (waits {p} out h) w = wait_settled-IsOrdered p out h w
Advance-IsOrdered (joins {p} {q} pending out h) w = end_finish-IsOrdered pending p q out h w

Step-IsOrdered : {p q : Pool} → Step p q → IsOrdered p → IsOrdered q
unfolding observe_signals pool_stop
Step-IsOrdered (advances h) w = Advance-IsOrdered h w
Step-IsOrdered (observes {p} pending) w = observe_loop-IsOrdered 8 pending false p w
Step-IsOrdered (stops {p}) w =
    broadcast_ready-IsOrdered (record p { stop = true }) (signalled-IsOrdered p p.signal true w)
Step-IsOrdered (begins {p} n out small) w = begin_window-IsOrdered n p out small w
Step-IsOrdered (finishes {p} out) w = finish-IsOrdered p out w
Step-IsOrdered (rouses {p} i at) w = rouses-IsOrdered i p at w
Step-IsOrdered (rises {p} out) w =
    moved-IsOrdered p waiting (λ e. cc e) (λ e. w.working (ap is_open out)) (λ e. cc e) (λ e. cc e)
      w

-- In whatever order the workers, the signals and the coordinator take their steps, a pool that is
-- reached keeps its counters in step with its threads: of the jobs of the window, the first `next`
-- are each with exactly one worker or settled exactly once, no other is either, `remaining` is what
-- is not settled, and it is 0 unless the coordinator is in jf_pool_window. No worker sleeps while
-- there is a job to take or the pool is to quit, and the coordinator does not while `remaining` is 0.
pub IsReachable-IsOrdered : (p : Pool) → IsReachable p → IsOrdered p
IsReachable-IsOrdered p started = start-IsOrdered
IsReachable-IsOrdered q (stepped {p} r s) = Step-IsOrdered s (IsReachable-IsOrdered p r)
