-- ===== src/Pool/Workers.antt =====
-- src/filter/pool.c, worker: its sections keep the pool ordered.
use jaro_mail.Base.{
  ltb, ◌==◌, if◌then◌else◌, Bool-cases, get_elem?, ℕ, ◌+◌, ◌-◌, ◌%◌, ◌^◌, ◌<◌, ◌≡◌, refl, sym, ◌∙◌,
  subst, inl, inr, true, false, none, some, arith,
}
use jaro_mail.Pool.{
  idle, asleep, returned, running, Pool, replace, signal_settled, take_job, wait_ready, settle_job,
}
use jaro_mail.Pool.Ordered.{
  runs, runs_job, has_left, is_asleep, in_window, is_open, IsOrdered, replace-count,
  Option-injective, signal_settled-in_window, signal_settled-is_open, signal_settled-not_blocked,
  signal_settled-joining,
}

pub take_job-IsOrdered :
    (i : ℕ) (p q : Pool)
    → get_elem? p.workers i ≡ some idle
    → take_job i p ≡ some q
    → IsOrdered p
    → IsOrdered q
unfolding take_job
take_job-IsOrdered i p q at h w = elim (Bool-cases p.quit) [
  | inl t ↦
      let c = replace-count runs i idle returned p.workers at in
      subst IsOrdered (Option-injective (rw (t, take_job) at h)) (record {
        below = w.below;
        enough = w.enough;
        word = w.word;
        left = omega (arith, w.left, c);
        once =
            λ j. omega (arith, w.once j, replace-count (runs_job j) i idle returned p.workers at);
        still = w.still;
        working = λ e. sym t ∙ w.working e;
        manned = λ e. cc e;
        parked = λ e.
            let none_more = replace-count is_asleep i idle returned p.workers at in
            let k = w.parked (λ z. e (omega (arith, z, none_more))) in (k.0, sym t ∙ k.1);
        pending = w.pending;
        quitting = λ e. refl;
      })
  | inr t ↦ elim (Bool-cases (p.next == p.count)) [
    | inl e ↦ cc (rw (t, e, take_job) at h)
    | inr e ↦
        let r = replace-count runs i idle (running p.next) p.workers at in
        let l = replace-count has_left i idle (running p.next) p.workers at in
        let more : p.next < p.count = let b = w.below in ground arith in
        let small : (p.next + 1) % 2 ^ 64 ≡ p.next + 1 = let c = w.word in omega arith in
        subst IsOrdered (Option-injective (rw (t, e, take_job) at h)) (record {
          below = omega (arith, small);
          enough = w.enough;
          word = w.word;
          left = omega (arith, w.left, r, small);
          once = λ j.
              let o = w.once j in
              let k = replace-count (runs_job j) i idle (running p.next) p.workers at in
              let s : (if ltb j ((p.next + 1) % 2 ^ 64) then 1 else 0)
                  ≡ (if ltb j p.next then 1 else 0) + (if p.next == j then 1 else 0) =
                ground (arith, small) in
              omega (arith, o, k, s);
          still = w.still;
          working = λ e. refl;
          manned = λ f. let m = w.manned t in omega (arith, l);
          parked = λ f.
              let none_more = replace-count is_asleep i idle (running p.next) p.workers at in
              absurd
                (let full = (w.parked (λ z. f (omega (arith, z, none_more)))).0 in ground arith);
          pending = w.pending;
          quitting = λ e. sym t ∙ w.quitting e;
        })
  ]
]

pub wait_ready-IsOrdered :
    (i : ℕ) (p : Pool)
    → get_elem? p.workers i ≡ some idle
    → take_job i p ≡ none
    → IsOrdered p
    → IsOrdered (wait_ready i p)
unfolding wait_ready take_job
wait_ready-IsOrdered i p at h w =
    let empty_queue : (p.quit ≡ false) × (p.next ≡ p.count) = ground (arith, h) in
    let r = replace-count runs i idle asleep p.workers at in
    let l = replace-count has_left i idle asleep p.workers at in
    record {
      below = w.below;
      enough = w.enough;
      word = w.word;
      left = omega (arith, w.left, r);
      once = λ j. omega (arith, w.once j, replace-count (runs_job j) i idle asleep p.workers at);
      still = w.still;
      working = w.working;
      manned = λ f. omega (arith, w.manned f, l);
      parked = λ f. (empty_queue.1, empty_queue.0);
      pending = w.pending;
      quitting = w.quitting;
    }

pub settle_job-IsOrdered :
    (i j : ℕ) (p : Pool)
    → get_elem? p.workers i ≡ some (running j)
    → IsOrdered p
    → IsOrdered (settle_job i j p)
unfolding settle_job
settle_job-IsOrdered i j p at w =
    let r = replace-count runs i (running j) idle p.workers at in
    let l = replace-count has_left i (running j) idle p.workers at in
    let s = replace-count is_asleep i (running j) idle p.workers at in
    let less : (p.remaining + 2 ^ 64 - 1) % 2 ^ 64 ≡ p.remaining - 1 =
      let e = w.enough in let c = w.word in let l = w.left in let b = w.below in omega arith in
    let last = (p.remaining + 2 ^ 64 - 1) % 2 ^ 64 == 0 in
    let window : in_window (if last then signal_settled p.coordinator else p.coordinator)
        ≡ in_window p.coordinator =
      elim (Bool-cases last) [
        | inl t ↦ rw t (signal_settled-in_window p.coordinator)
        | inr f ↦ rw f refl
      ] in
    let opens : is_open (if last then signal_settled p.coordinator else p.coordinator)
        ≡ is_open p.coordinator =
      elim (Bool-cases last) [
        | inl t ↦ rw t (signal_settled-is_open p.coordinator)
        | inr f ↦ rw f refl
      ] in
    record {
      below = w.below;
      enough = let e = w.enough in omega (arith, less);
      word = w.word;
      left = let e = w.left in let b = w.below in omega (arith, r, less);
      once = λ k.
          let o = w.once k in
          let c = replace-count (runs_job k) i (running j) idle p.workers at in omega (arith, o, c);
      still = λ out. let z = w.still (sym window ∙ out) in omega (arith, less);
      working = λ e. w.working (sym opens ∙ e);
      manned = λ f. let m = w.manned f in omega (arith, l);
      parked = λ f. w.parked (λ z. f (omega (arith, z, s)));
      pending = λ e zero_left.
          let t : last ≡ true = ground arith in
          signal_settled-not_blocked p.coordinator (rw t at e);
      quitting = λ e. w.quitting (signal_settled-joining p.coordinator last e);
    }

pub rouses-IsOrdered :
    (i : ℕ) (p : Pool)
    → get_elem? p.workers i ≡ some asleep
    → IsOrdered p
    → IsOrdered (record p { workers = replace i idle p.workers })
rouses-IsOrdered i p at w =
    let r = replace-count runs i asleep idle p.workers at in
    let l = replace-count has_left i asleep idle p.workers at in
    let s = replace-count is_asleep i asleep idle p.workers at in
    record {
      below = w.below;
      enough = w.enough;
      word = w.word;
      left = omega (arith, w.left, r);
      once = λ j. omega (arith, w.once j, replace-count (runs_job j) i asleep idle p.workers at);
      still = w.still;
      working = w.working;
      manned = λ f. omega (arith, w.manned f, l);
      parked = λ f. w.parked (λ z. omega (arith, z, s));
      pending = w.pending;
      quitting = w.quitting;
    }
