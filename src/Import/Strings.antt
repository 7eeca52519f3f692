-- ===== src/Import/Strings.antt =====
-- src/filter/import.c, strings: the loop over a list ends.
use jaro_mail.Base.{
  ◌==◌, Bool-cases, length, count, Bytes, ℕ, zero, suc, ◌+◌, ◌≤◌, ◌<◌, ◌≡◌, refl, ap, inl, inr,
  Bool, true, false, not, ◌||◌, Option, some, List, [], ◌∷◌, arith,
}
use jaro_mail.Result.{Result, ok, err, sieve_import, ◌>>=◌, Result-cases, bind-eq-ok, ok-injective}
use jaro_mail.Product.Buffer.{product_error}
use jaro_mail.Policy.Resolve.{rule_max}
use jaro_mail.Import.{
  Token, finish, word, string, mark, Parser, next, same_token, take, strings_loop, strings,
}
use jaro_mail.Import.Shorter.{next-shorter}

same_token-mark : (t : Token) (c : ℕ) → same_token t (mark c) ≡ true → t ≡ mark c
unfolding same_token
same_token-mark (mark d) c h = ap mark (ground (arith, h))
same_token-mark finish c h = absurd (ground (arith, h))
same_token-mark word c h = absurd (ground (arith, h))
same_token-mark string c h = absurd (ground (arith, h))

-- Behind a separator less is left.
take-shorter :
    (q r : Parser) (c : ℕ)
    → take q (mark c) ≡ ok r
    → (q.token ≡ mark c) × (length r.rest ≤ length q.rest)
unfolding take product_error
take-shorter q r c h = elim (Bool-cases (same_token q.token (mark c))) [
  | inl e ↦ (same_token-mark q.token c e, (next-shorter q r (rw (e, take) at h)).0)
  | inr e ↦ absurd (ground (arith, h, e))
]

abbrev Ends : Option (Result (List Bytes × Parser)) → ℕ → Type 0
Ends out count =
    (r : Result (List Bytes × Parser)) × (out ≡ some r)
    × ((ss : List Bytes) (q : Parser)
        → r ≡ ok (ss, q)
        → (0 < length ss) × (count + length ss ≤ rule_max))

one-held :
    (count : ℕ) (v : Bytes) (q : Parser) (ss : List Bytes) (q' : Parser)
    → count + 1 ≤ rule_max
    → ◌≡◌ {A = Result (List Bytes × Parser)} (ok (v ∷ [], q)) (ok (ss, q'))
    → (0 < length ss) × (count + length ss ≤ rule_max)
one-held count v q ss q' room h =
    let sizes = ap (λ (x : List Bytes × Parser). length x.0) (ok-injective h) in
    (omega (arith, sizes), omega (arith, sizes, room))

below :
    (count : ℕ) (is_string : Bool)
    → (not is_string || count == rule_max) ≡ false
    → count ≤ rule_max
    → count + 1 ≤ rule_max
below count true e few = ground (arith, e, few)
below count false e few = absurd (ground (arith, e))

strings_loop-Ends :
    (list : Bool) (fuel count : ℕ) (p : Parser)
    → length p.rest < fuel
    → count ≤ rule_max
    → Ends (strings_loop list fuel count p) count
unfolding strings_loop product_error
strings_loop-Ends list zero count p enough few = absurd (omega arith)
strings_loop-Ends list (suc fuel) count p enough few =
    elim (Bool-cases (not (same_token p.token string) || count == rule_max)) [
      | inl e ↦
          (product_error sieve_import p.token_line, rw e refl, λ ss q h. absurd (ground (arith, h)))
      | inr e ↦
          let room : count + 1 ≤ rule_max = below count (same_token p.token string) e few in
          elim (Result-cases (next p)) [
            | inl (why, f) ↦ (err why, rw (e, f, strings_loop) refl, λ ss q h. absurd (cc h))
            | inr (q, f) ↦ elim (Bool-cases (not list)) [
              | inl g ↦ (
                ok (p.value ∷ [], q),
                rw (e, f, g, strings_loop) refl,
                λ ss q' h. one-held count p.value q ss q' room h,
              )
              | inr g ↦ elim (Bool-cases (same_token q.token (mark b']'))) [
                | inl k ↦ (
                  next q >>= λ r. ok (p.value ∷ [], r),
                  rw (e, f, g, k, strings_loop) refl,
                  λ ss q' h.
                      one-held count p.value _ ss q' room
                        (bind-eq-ok (next q) (λ r. ok (p.value ∷ [], r)) h).2,
                )
                | inr k ↦ elim (Result-cases (take q (mark b','))) [
                  | inl (why, m) ↦
                      (err why, rw (e, f, g, k, m, strings_loop) refl, λ ss q' h. absurd (cc h))
                  | inr (r, m) ↦
                      let (at, shorter) = take-shorter q r b',' m in
                      let (later, ends, held) =
                        strings_loop-Ends list fuel (count + 1) r
                          (omega (arith, (next-shorter p q f).1 b',' at)) room in
                      (
                        later >>= λ more. ok (p.value ∷ more.0, more.1),
                        rw (e, f, g, k, m, ends, strings_loop) refl,
                        λ ss q' h.
                            let (more, run, whole) =
                              bind-eq-ok later (λ more. ok (p.value ∷ more.0, more.1)) h in
                            let sizes =
                              ap (λ (x : List Bytes × Parser). length x.0) (ok-injective whole) in
                            let bounds = held more.0 more.1 run in
                            (omega (arith, sizes, bounds), omega (arith, sizes, bounds)),
                      )
                ]
              ]
            ]
          ]
    ]

strings-Ends : (p : Parser) → Ends (strings p) 0
unfolding strings
strings-Ends p = elim (Bool-cases (same_token p.token (mark b'['))) [
  | inr e ↦ rw e (strings_loop-Ends false (length p.rest + 1) 0 p (omega arith) (omega arith))
  | inl e ↦ elim (Result-cases (next p)) [
    | inl (why, f) ↦ rw (e, f, strings) (err why, refl, λ ss q h. absurd (cc h))
    | inr (q, f) ↦
        rw (e, f, strings)
          (strings_loop-Ends true (length q.rest + 1) 0 q (omega arith) (omega arith))
  ]
]

-- `strings` returns: its loop ends however long the list is. Where the result is no error, it holds
-- at least one string and at most 100000.
pub strings-total :
    (p : Parser)
    → (r : Result (List Bytes × Parser)) × (strings p ≡ some r)
      × ((ss : List Bytes) (q : Parser) → r ≡ ok (ss, q) → (0 < length ss) × (length ss ≤ rule_max))
strings-total p =
    let (r, e, held) = strings-Ends p in
    (r, e, λ ss q h. let b = held ss q h in (b.0, omega (arith, b.1)))
