-- ===== src/Pool/Tests.antt =====
-- src/filter/pool.c: the theorems on a window of one job.
use jaro_mail.Base.{◌==◌, count, ◌≡◌, refl, true, false, some, [], ◌∷◌, arith}
use jaro_mail.Pool.{
  idle, asleep, running, outside, waiting, blocked, joining, Pool, copies, start, wake_worker,
  broadcast_ready, signal_settled, take_job, settle_job, begin_window, end_window, taken, settles,
  works, advances, begins, IsReachable, started, stepped,
}
use jaro_mail.Pool.Ordered.{IsOrdered}
use jaro_mail.Pool.Invariant.{IsReachable-IsOrdered}
use jaro_mail.Pool.Progress.{Returns, end_window-Returns}
use jaro_mail.Pool.Window.{end_window-settled}

abbrev opened : Pool
opened = record {
  next = 0;
  count = 1;
  remaining = 1;
  stop = false;
  quit = false;
  signal = 0;
  workers = copies 16 idle;
  coordinator = blocked;
  settled = [];
}

abbrev busy : Pool
busy = record opened { next = 1; workers = running 0 ∷ copies 15 idle }

-- The last job wakes the coordinator.
abbrev done : Pool
done = record opened { next = 1; remaining = 0; coordinator = waiting; settled = 0 ∷ [] }

opened-IsReachable : IsReachable opened
unfolding start begin_window broadcast_ready wake_worker
opened-IsReachable = stepped started (begins 1 refl (omega arith))

busy-IsReachable : IsReachable busy
unfolding take_job
busy-IsReachable = stepped opened-IsReachable (advances (works (taken 0 refl refl)))

done-IsReachable : IsReachable done
unfolding settle_job signal_settled
done-IsReachable = stepped busy-IsReachable (advances (works (settles 0 0 refl)))

IsReachable-IsOrdered_example : IsOrdered busy
IsReachable-IsOrdered_example = IsReachable-IsOrdered busy busy-IsReachable

closed : end_window done ≡ some (record done { coordinator = outside })
unfolding end_window
closed = refl

end_window-settled_example : count (λ k. k == 0) (0 ∷ []) ≡ 1
end_window-settled_example =
    end_window-settled done (record done { coordinator = outside }) done-IsReachable refl closed 0

-- A worker has gone to sleep before the window, and is woken by it.
abbrev drowsy : Pool
drowsy = record opened {
  count = 0;
  remaining = 0;
  workers = asleep ∷ copies 15 idle;
  coordinator = outside;
}

woken : begin_window 1 drowsy ≡ opened
unfolding begin_window broadcast_ready wake_worker
woken = refl

end_window-Returns_example : Returns outside busy
end_window-Returns_example = end_window-Returns busy busy-IsReachable refl

abbrev leaving : Pool
leaving = record drowsy { quit = true; workers = copies 16 idle; coordinator = joining }
