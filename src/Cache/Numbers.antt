-- ===== src/Cache/Numbers.antt =====
-- src/filter/cache.c and policy.c: the numbers that a cache holds are read back.
use jaro_mail.Base.{
  ltb, ◌==◌, Bool-cases, Bytes, str_eq, ℕ, zero, suc, ◌+◌, ◌-◌, ◌*◌, ◌/◌, ◌%◌, ◌^◌, ◌≤◌, ◌<◌, ◌≡◌,
  refl, sym, ap, ◌∙◌, ◌≢◌, inl, inr, true, false, some, [], ◌∷◌, arith,
}
use jaro_mail.Text.Decimal
use jaro_mail.Text.Decimal.{decimal}
use jaro_mail.Cache.Fields
use jaro_mail.Cache.Fields.{read_decimal}
use jaro_mail.Cache.Restore.{number_from, cached_number}

decimal_loop-digit :
    (m d : ℕ) (w : Bytes)
    → d < 10
    → m * 10 + d < 2 ^ 64
    → Fields.decimal_loop m ((b'0' + d) ∷ w) ≡ Fields.decimal_loop (m * 10 + d) w
unfolding Fields.decimal_loop
decimal_loop-digit m d w h k =
    let back : b'0' + d - b'0' ≡ d = omega arith in
    let digit : ltb (b'0' + d) b'0' ≡ false = ground arith in
    let small : ltb 9 d ≡ false = ground arith in
    let room : ltb ((2 ^ 64 - 1 - d) / 10) m ≡ false = ground arith in
    rw (back, digit, small, room) refl

number_from-digit :
    (m d : ℕ) (w : Bytes)
    → d < 10
    → m * 10 + d < 2 ^ 64
    → number_from m ((b'0' + d) ∷ w) ≡ number_from (m * 10 + d) w
unfolding number_from
number_from-digit m d w h k =
    let back : (m * 10 + (b'0' + d - b'0')) % 2 ^ 64 ≡ m * 10 + d = omega arith in
    ap (λ v. number_from v w) back

decimal_loop-stop :
    (fuel n : ℕ) (w : Bytes) → n < 10 → Decimal.decimal_loop (suc fuel) n w ≡ (b'0' + n) ∷ w
unfolding Decimal.decimal_loop
decimal_loop-stop fuel n w h =
    let last : (n / 10 == 0) ≡ true = ground arith in
    let same : n % 10 ≡ n = omega arith in rw (last, same) refl

decimal_loop-more :
    (fuel n : ℕ) (w : Bytes)
    → 10 ≤ n
    → Decimal.decimal_loop (suc fuel) n w ≡ Decimal.decimal_loop fuel (n / 10) ((b'0' + n % 10) ∷ w)
unfolding Decimal.decimal_loop
decimal_loop-more fuel n w h = let more : (n / 10 == 0) ≡ false = ground arith in rw more refl

-- Both readers, from 0 over the digits of `n` and what follows them.
readers-decimal_loop :
    (fuel n : ℕ) (w : Bytes)
    → n < fuel
    → n < 2 ^ 64
    → (Fields.decimal_loop 0 (Decimal.decimal_loop fuel n w) ≡ Fields.decimal_loop n w)
      × (number_from 0 (Decimal.decimal_loop fuel n w) ≡ number_from n w)
readers-decimal_loop zero n w h k = absurd (omega arith)
readers-decimal_loop (suc fuel) n w h k = elim (Bool-cases (ltb n 10)) [
  | inl small ↦
      let stop = decimal_loop-stop fuel n w (ground arith) in
      let zero_sum : 0 * 10 + n ≡ n = omega arith in
      rw stop (
        decimal_loop-digit 0 n w (ground arith) (omega arith)
            ∙ ap (λ v. Fields.decimal_loop v w) zero_sum,
        number_from-digit 0 n w (ground arith) (omega arith) ∙ ap (λ v. number_from v w) zero_sum,
      )
  | inr large ↦
      let more = decimal_loop-more fuel n w (ground arith) in
      let ih =
        readers-decimal_loop fuel (n / 10) ((b'0' + n % 10) ∷ w) (ground arith) (omega arith) in
      let whole : n / 10 * 10 + n % 10 ≡ n = omega arith in
      rw more (
        ih.0
            ∙ decimal_loop-digit (n / 10) (n % 10) w (omega arith) (omega arith)
            ∙ ap (λ v. Fields.decimal_loop v w) whole,
        ih.1
            ∙ number_from-digit (n / 10) (n % 10) w (omega arith) (omega arith)
            ∙ ap (λ v. number_from v w) whole,
      )
]

decimal-decimal_loop : (n : ℕ) → decimal n ≡ Decimal.decimal_loop (n + 1) n []
unfolding decimal
decimal-decimal_loop n = refl

pub decimal_loop-decimal : (n : ℕ) → n < 2 ^ 64 → Fields.decimal_loop 0 (decimal n) ≡ some n
unfolding Fields.decimal_loop
decimal_loop-decimal n k =
    ap (λ s. Fields.decimal_loop 0 s) (decimal-decimal_loop n)
    ∙ (readers-decimal_loop (n + 1) n [] (omega arith) k).0

-- The first digit of a positive number is not 0.
decimal_loop-first :
    (fuel n : ℕ) (w : Bytes)
    → n < fuel
    → 0 < n
    → (c : ℕ) × (t : Bytes) × (Decimal.decimal_loop fuel n w ≡ c ∷ t) × (c ≢ b'0')
decimal_loop-first zero n w h k = absurd (omega arith)
decimal_loop-first (suc fuel) n w h k = elim (Bool-cases (ltb n 10)) [
  | inl small ↦ (b'0' + n, w, decimal_loop-stop fuel n w (ground arith), omega arith)
  | inr large ↦
      let (c, t, e, differs) =
        decimal_loop-first fuel (n / 10) ((b'0' + n % 10) ∷ w) (ground arith) (ground arith) in
      (c, t, decimal_loop-more fuel n w (ground arith) ∙ e, differs)
]

read_decimal-first :
    (c : ℕ) (t : Bytes) → c ≢ b'0' → read_decimal (c ∷ t) ≡ Fields.decimal_loop 0 (c ∷ t)
unfolding read_decimal str_eq
read_decimal-first c t h = ground arith

read_decimal-zero : read_decimal (decimal 0) ≡ some 0
unfolding read_decimal decimal Decimal.decimal_loop Fields.decimal_loop str_eq
read_decimal-zero = refl

read_decimal-positive : (n : ℕ) → 0 < n → n < 2 ^ 64 → read_decimal (decimal n) ≡ some n
unfolding Fields.decimal_loop
read_decimal-positive n h k =
    let (c, t, e, differs) = decimal_loop-first (n + 1) n [] (omega arith) h in
    let digits = decimal-decimal_loop n ∙ e in
    ap read_decimal digits
    ∙ read_decimal-first c t differs
    ∙ ap (λ s. Fields.decimal_loop 0 s) (sym e)
    ∙ (readers-decimal_loop (n + 1) n [] (omega arith) k).0

-- A number below 2 ^ 64 that is written in decimal is read back both by the validation of a cache,
-- which refuses leading zeros and overflow, and by the restoration of a policy from it.
pub read_decimal-decimal :
    (n : ℕ) → n < 2 ^ 64 → (read_decimal (decimal n) ≡ some n) × (cached_number (decimal n) ≡ n)
unfolding cached_number number_from
read_decimal-decimal n k = (
  elim (Bool-cases (n == 0)) [
    | inl none_left ↦
        let is : n ≡ 0 = ground arith in
        ap (λ m. read_decimal (decimal m)) is ∙ read_decimal-zero ∙ ap (λ m. some m) (sym is)
    | inr more ↦ read_decimal-positive n (ground arith) k
  ],
  ap (λ s. number_from 0 s) (decimal-decimal_loop n)
      ∙ (readers-decimal_loop (n + 1) n [] (omega arith) k).1,
)
