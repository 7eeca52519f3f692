-- ===== src/Contact/Words.antt =====
-- src/filter/contact.c: how the words of an appended record begin and end.
use jaro_mail.Base.{
  ◌==◌, Bool-cases, Option-cases, length, All, Bytes, in_set, ℕ, zero, suc, ◌+◌, ◌/◌, ◌%◌, ◌^◌, ◌≤◌,
  ◌<◌, ◌≡◌, sym, ap, subst, ◌≢◌, inl, inr, Bool, true, false, not, ◌&&◌, some, [], ◌∷◌, arith,
}
use jaro_mail.Text.Ascii.{alnum_ascii, atext}
use jaro_mail.Text.Domain.{valid_domain, domain_loop}
use jaro_mail.Text.Mailbox.{
  quoted_rest, at_sign, local_rest, domain_part, valid_mailbox, normalize_mailbox,
}
use jaro_mail.Text.Decimal.{decimal, decimal_loop}
use jaro_mail.Contact.{canonical}
use jaro_mail.Contact.Scan.{EndsVisible, EndsVisible-append}

-- The digits of a number.
abbrev pub IsDigits : Bytes → Type 0
IsDigits s = All (λ c. (b'0' ≤ c) × (c ≤ b'9')) s

decimal_loop-IsDigits : (fuel n : ℕ) (w : Bytes) → IsDigits w → IsDigits (decimal_loop fuel n w)
unfolding decimal_loop
decimal_loop-IsDigits zero n w h = h
decimal_loop-IsDigits (suc fuel) n w h = elim (Bool-cases (n / 10 == 0)) [
  | inl t ↦ rw t ((omega arith, omega arith), h)
  | inr f ↦
      rw f
        (decimal_loop-IsDigits fuel (n / 10) ((b'0' + n % 10) ∷ w) ((omega arith, omega arith), h))
]

pub decimal-IsDigits : (n : ℕ) → IsDigits (decimal n)
unfolding decimal
decimal-IsDigits n = decimal_loop-IsDigits (n + 1) n [] tt

decimal_loop-grows : (fuel n : ℕ) (w : Bytes) → length w ≤ length (decimal_loop fuel n w)
unfolding decimal_loop
decimal_loop-grows zero n w = omega arith
decimal_loop-grows (suc fuel) n w = elim (Bool-cases (n / 10 == 0)) [
  | inl t ↦ rw t (omega arith)
  | inr f ↦ rw f (omega (arith, decimal_loop-grows fuel (n / 10) ((b'0' + n % 10) ∷ w)))
]

decimal_loop-positive : (fuel n : ℕ) (w : Bytes) → 0 < length (decimal_loop (suc fuel) n w)
unfolding decimal_loop
decimal_loop-positive fuel n w = elim (Bool-cases (n / 10 == 0)) [
  | inl t ↦ rw t (omega arith)
  | inr f ↦ rw f (omega (arith, decimal_loop-grows fuel (n / 10) ((b'0' + n % 10) ∷ w)))
]

pub decimal-nonempty : (n : ℕ) → decimal n ≢ []
unfolding decimal
decimal-nonempty n e =
    let fuel : suc n ≡ n + 1 = omega arith in
    let p = subst (λ f. 0 < length (decimal_loop f n [])) fuel (decimal_loop-positive n n []) in
    omega (arith, p, ap length e)

-- At most `k` digits.
abbrev Fits : ℕ → ℕ → Type 0
Fits zero n = n ≡ 0
Fits (suc k) n = Fits k (n / 10)

decimal_loop-length :
    (k fuel n : ℕ) (w : Bytes) → Fits k n → length (decimal_loop fuel n w) ≤ k + 1 + length w
unfolding decimal_loop
decimal_loop-length k zero n w h = omega arith
decimal_loop-length zero (suc fuel) n w h =
    let z : (n / 10 == 0) ≡ true = ground arith in rw z (omega arith)
decimal_loop-length (suc k) (suc fuel) n w h = elim (Bool-cases (n / 10 == 0)) [
  | inl t ↦ rw t (omega arith)
  | inr f ↦ rw f (omega (arith, decimal_loop-length k fuel (n / 10) ((b'0' + n % 10) ∷ w) h))
]

pub decimal-length : (n : ℕ) → n < 2 ^ 64 → length (decimal n) ≤ 21
unfolding decimal
decimal-length n h = decimal_loop-length 20 (n + 1) n [] (omega arith)

last_byte : (label prev c : ℕ) → domain_loop label prev (c ∷ []) ≡ true → 32 < c
unfolding domain_loop alnum_ascii
last_byte label prev c h = ground (arith, h)

domain_loop-EndsVisible :
    (label prev c : ℕ) (s : Bytes) → domain_loop label prev (c ∷ s) ≡ true → EndsVisible (c ∷ s)
unfolding domain_loop
domain_loop-EndsVisible label prev c [] h = last_byte label prev c h
domain_loop-EndsVisible label prev c (d ∷ s) h =
    let a = domain_loop-EndsVisible 0 c d s in
    let b = domain_loop-EndsVisible (label + 1) c d s in ground (arith, h, a, b)

valid_domain-EndsVisible : (s : Bytes) → valid_domain s ≡ true → EndsVisible s
unfolding valid_domain
valid_domain-EndsVisible [] h = cc h
valid_domain-EndsVisible (c ∷ s) h = domain_loop-EndsVisible 0 0 c s (ground (arith, h))

one_more : (c : ℕ) (s : Bytes) → EndsVisible s → EndsVisible (c ∷ s)
one_more c s h = EndsVisible-append (c ∷ []) s h

local_rest-EndsVisible :
    (component : Bool) (s d : Bytes)
    → local_rest component s ≡ some d
    → EndsVisible d
    → EndsVisible s
unfolding local_rest
local_rest-EndsVisible component [] d h v = cc h
local_rest-EndsVisible component (c ∷ s) d h v =
    let ih = local_rest-EndsVisible (not (c == b'.')) s d in one_more c s (ground (arith, h, v, ih))

quoted_rest-EndsVisible :
    (escaped : Bool) (s d : Bytes) → quoted_rest escaped s ≡ some d → EndsVisible d → EndsVisible s
unfolding quoted_rest
quoted_rest-EndsVisible escaped [] d h v = cc h
quoted_rest-EndsVisible escaped (c ∷ s) d h v =
    let ih = quoted_rest-EndsVisible (not escaped && c == b'\\') s d in
    one_more c s (ground (arith, h, v, ih))

at_sign-EndsVisible : (s d : Bytes) → at_sign s ≡ some d → EndsVisible d → EndsVisible s
unfolding at_sign
at_sign-EndsVisible [] d h v = cc h
at_sign-EndsVisible (c ∷ s) d h v = one_more c s (elim (Bool-cases (c == b'@')) [
  | inl t ↦ let e : s ≡ d = cc (rw (t, at_sign) at h) in subst EndsVisible (sym e) v
  | inr f ↦ cc (rw (f, at_sign) at h)
])

atext-visible : (c : ℕ) → atext c ≡ true → 32 < c
unfolding atext alnum_ascii in_set
atext-visible c h = ground (arith, h)

-- Visible at both ends.
abbrev pub IsBare : Bytes → Type 0
IsBare [] = ⊥
IsBare (c ∷ s) = (32 < c) × EndsVisible (c ∷ s)

valid_mailbox-EndsVisible : (s : Bytes) → valid_mailbox s ≡ true → EndsVisible s
unfolding valid_mailbox domain_part at_sign
valid_mailbox-EndsVisible [] h = cc h
valid_mailbox-EndsVisible (c ∷ s) h = elim (Option-cases (domain_part (c ∷ s))) [
  | inl e ↦ cc (rw (e, valid_mailbox) at h)
  | inr (d, e) ↦
      let visible = valid_domain-EndsVisible d (rw (e, valid_mailbox) at h) in
      elim (Bool-cases (c == b'"')) [
        | inr f ↦ local_rest-EndsVisible false (c ∷ s) d (rw (f, domain_part) at e) visible
        | inl t ↦ one_more c s (elim (Option-cases (quoted_rest false s)) [
          | inl g ↦ cc (rw (t, g, domain_part) at e)
          | inr (rest, g) ↦
              quoted_rest-EndsVisible false s rest g
                (at_sign-EndsVisible rest d (rw (t, g, domain_part) at e) visible)
        ])
      ]
]

valid_mailbox-first : (c : ℕ) (s : Bytes) → valid_mailbox (c ∷ s) ≡ true → 32 < c
unfolding valid_mailbox domain_part local_rest
valid_mailbox-first c s h = elim (Bool-cases (c == b'"')) [
  | inl t ↦ ground arith
  | inr f ↦ elim (Bool-cases (atext c)) [ inl a ↦ atext-visible c a | inr a ↦ ground (arith, h) ]
]

-- What canonical accepts is visible at both ends.
pub canonical-IsBare : (s n : Bytes) → canonical s ≡ some n → IsBare s
unfolding canonical normalize_mailbox
canonical-IsBare [] n h = ground (arith, h)
canonical-IsBare (c ∷ s) n h =
    let valid : valid_mailbox (c ∷ s) ≡ true = ground (arith, h) in
    (valid_mailbox-first c s valid, valid_mailbox-EndsVisible (c ∷ s) valid)
