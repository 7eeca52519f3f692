-- ===== src/Pool.antt =====
-- src/filter/pool.c: the workers and the coordinator as steps, one for every section that holds the
-- mutex. The array of jobs is given by its size; a job is its index.
pub mod Ordered
mod Workers
mod Control
pub mod Invariant
pub mod Window
mod Crew
pub mod Progress
pub mod Finish
mod Tests
use jaro_mail.Base.{
  ltb, leb, ◌==◌, if◌then◌else◌, ltb→lt, lt→ltb, leb→le, ==_iff, ==_refl, Bool-cases, Option-cases,
  &&-eq-true, within, length, get_elem?, take, drop, length-append, All, all, any, All-append,
  All-get_elem?, get_elem?-some, All-map, In, In-take-or-drop, In-drop, All-In, drop-length,
  All-of-In, List-cases, count, count-append, Bytes, codes, str_eq, str_eq_iff, in_set, strcmp,
  strcmp_iff, strcmp_antisymm, strcmp_trans, strcmp_lt_le_trans, StrLe, ℕ, zero, suc, ◌+◌, ◌-◌, ◌*◌,
  ◌/◌, ◌%◌, ◌^◌, ◌≤◌, ◌<◌, min, max, compare, Ordering, String, ◌≡◌, refl, sym, ap, ap₂, ◌∙◌, subst,
  ◌≡⟨◌⟩◌, ◌∎, ◌≢◌, ◌↔◌, ◌⊎◌, inl, inr, Bool, true, false, not, ◌&&◌, ◌||◌, Option, none, some, List,
  [], ◌∷◌, ◌++◌, map, foldl, append-nil, append_assoc, reverse, reverse-append, reverse-reverse,
  arith,
}

-- Where a worker is between two sections: before the test of the queue, in the wait for `ready`, in
-- `run`, or returned. In the wait a thread takes no step before it is woken.
pub data Worker : Type 0 where
  idle asleep returned : Worker
  running : ℕ → Worker

-- Where the coordinator is: outside, in jf_pool_window and before its test of `remaining`, in its wait
-- for `settled`, or in jf_pool_finish.
pub data Coordinator : Type 0 where
  outside waiting blocked joining finished : Coordinator

-- struct jf_pool, with its threads. `settled` is no field: it records the jobs of the window whose
-- `run` has returned.
pub record Pool : Type 0 where
  pub next : ℕ
  pub count : ℕ
  pub remaining : ℕ
  pub stop : Bool
  pub quit : Bool
  pub signal : ℕ
  pub workers : List Worker
  pub coordinator : Coordinator
  pub settled : List ℕ

abbrev pub replace {ℓ} : {A : Type ℓ} → ℕ → A → List A → List A
replace i y [] = []
replace zero y (x ∷ xs) = y ∷ xs
replace (suc i) y (x ∷ xs) = x ∷ replace i y xs

abbrev pub copies {ℓ} : {A : Type ℓ} → ℕ → A → List A
copies zero x = []
copies (suc n) x = x ∷ copies n x

abbrev pub pool_workers : ℕ
pool_workers = 16

-- `pthread_cond_broadcast(&p->ready)`.
unfoldable pub wake_worker : Worker → Worker
wake_worker asleep = idle
wake_worker w = w

unfoldable pub broadcast_ready : Pool → Pool
broadcast_ready p = record p { workers = map wake_worker p.workers }

-- `pthread_cond_signal(&p->settled)`: only the coordinator waits for it.
unfoldable pub signal_settled : Coordinator → Coordinator
signal_settled blocked = waiting
signal_settled c = c

-- `jf_pool_start`, where every call succeeds: `calloc`, and the threads.
unfoldable pub start : Pool
start = record {
  next = 0;
  count = 0;
  remaining = 0;
  stop = false;
  quit = false;
  signal = 0;
  workers = copies pool_workers idle;
  coordinator = outside;
  settled = [];
}

-- `observe_signals`: of the signals that are pending, at most eight are taken; if there was one, the
-- workers are woken.
unfoldable pub observe_loop : ℕ → List ℕ → Bool → Pool → Pool
observe_loop zero pending received p = if received then broadcast_ready p else p
observe_loop (suc n) [] received p = if received then broadcast_ready p else p
observe_loop (suc n) (s ∷ pending) received p =
    observe_loop n pending true (record p { signal = s; stop = true })

unfoldable pub observe_signals : List ℕ → Pool → Pool
observe_signals pending p = observe_loop 8 pending false p

unfoldable pub pool_stop : Pool → Pool
pool_stop p = broadcast_ready (record p { stop = true })

-- `worker`, up to its first unlock: a job is taken, or the thread returns; `none` is the wait.
unfoldable pub take_job : ℕ → Pool → Option Pool
take_job i p =
    if p.quit
    then some (record p { workers = replace i returned p.workers })
    else if p.next == p.count
    then none
    else some
        (record p { next = (p.next + 1) % 2 ^ 64; workers = replace i (running p.next) p.workers })

-- `worker`, in the wait.
unfoldable pub wait_ready : ℕ → Pool → Pool
wait_ready i p = record p { workers = replace i asleep p.workers }

-- `worker`, behind `run`.
unfoldable pub settle_job : ℕ → ℕ → Pool → Pool
settle_job i j p =
    let remaining : ℕ = (p.remaining + 2 ^ 64 - 1) % 2 ^ 64 in
    record p {
      remaining = remaining;
      workers = replace i idle p.workers;
      coordinator = if remaining == 0 then signal_settled p.coordinator else p.coordinator;
      settled = j ∷ p.settled;
    }

-- `jf_pool_window`, up to the wait, which the first test enters as `remaining` is not 0.
unfoldable pub begin_window : ℕ → Pool → Pool
begin_window n p =
    if n == 0
    then p
    else broadcast_ready
        (record p { next = 0; count = n; remaining = n; coordinator = blocked; settled = [] })

-- The wait is left where it holds that `!p->remaining`; `none` is the wait again.
unfoldable pub end_window : Pool → Option Pool
end_window p = if p.remaining == 0 then some (record p { coordinator = outside }) else none

unfoldable pub wait_settled : Pool → Pool
wait_settled p = record p { coordinator = blocked }

-- `jf_pool_finish`, up to the joins.
unfoldable pub begin_finish : Pool → Pool
begin_finish p = broadcast_ready (record p { quit = true; coordinator = joining })

unfoldable pub has_returned : Worker → Bool
has_returned returned = true
has_returned w = false

-- The joins are left where every worker has returned; what is pending is observed once more.
unfoldable pub end_finish : List ℕ → Pool → Option Pool
end_finish pending p =
    if all has_returned p.workers
    then some (observe_signals pending (record p { coordinator = finished }))
    else none

-- A step of a worker that is awake.
pub data Work : Pool → Pool → Type 0 where
  taken :
      {p q : Pool} (i : ℕ) → get_elem? p.workers i ≡ some idle → take_job i p ≡ some q → Work p q
  sleeps :
      {p : Pool} (i : ℕ)
      → get_elem? p.workers i ≡ some idle
      → take_job i p ≡ none
      → Work p (wait_ready i p)
  settles :
      {p : Pool} (i j : ℕ) → get_elem? p.workers i ≡ some (running j) → Work p (settle_job i j p)

-- A step of a worker that is awake, or of the coordinator on its way to return from jf_pool_window or
-- jf_pool_finish.
pub data Advance : Pool → Pool → Type 0 where
  works : {p q : Pool} → Work p q → Advance p q
  ends : {p q : Pool} → p.coordinator ≡ waiting → end_window p ≡ some q → Advance p q
  waits : {p : Pool} → p.coordinator ≡ waiting → end_window p ≡ none → Advance p (wait_settled p)
  joins :
      {p q : Pool} (pending : List ℕ)
      → p.coordinator ≡ joining
      → end_finish pending p ≡ some q
      → Advance p q

-- A step of any thread; the coordinator calls one function after the other. A wait may also end
-- without a signal.
pub data Step : Pool → Pool → Type 0 where
  advances : {p q : Pool} → Advance p q → Step p q
  observes : {p : Pool} (pending : List ℕ) → Step p (observe_signals pending p)
  stops : {p : Pool} → Step p (pool_stop p)
  begins : {p : Pool} (n : ℕ) → p.coordinator ≡ outside → n < 2 ^ 64 → Step p (begin_window n p)
  finishes : {p : Pool} → p.coordinator ≡ outside → Step p (begin_finish p)
  rouses :
      {p : Pool} (i : ℕ)
      → get_elem? p.workers i ≡ some asleep
      → Step p (record p { workers = replace i idle p.workers })
  rises : {p : Pool} → p.coordinator ≡ blocked → Step p (record p { coordinator = waiting })

-- What a pool comes to, whatever the order of the steps.
pub data IsReachable : Pool → Type 0 where
  started : IsReachable start
  stepped : {p q : Pool} → IsReachable p → Step p q → IsReachable q
