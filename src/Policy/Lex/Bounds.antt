-- ===== src/Policy/Lex/Bounds.antt =====
-- src/filter/policy.c, lex: the caller's buffer of n + 1 bytes and its array of five are enough.
use jaro_mail.Base.{
  ltb, ◌==◌, if◌then◌else◌, Bool-cases, Option-cases, length, drop, length-append, Bytes, ℕ, zero,
  suc, ◌+◌, ◌-◌, ◌*◌, ◌≤◌, ◌<◌, ◌≡◌, inl, inr, true, ◌&&◌, ◌||◌, some, List, [], ◌∷◌, ◌++◌, arith,
}
use jaro_mail.Result.{quote, ok, ◌>>=◌, bind-eq-ok}
use jaro_mail.Text.Blank.{is_blank}
use jaro_mail.Text.Utf8.{encode}
use jaro_mail.Policy.Lex.{
  fail, separated, Place, hex_digit, hex_loop, hex4, low_surrogate, unicode, unescape, quoted, bare,
  read_token, lex_loop, lex,
}

-- What the tokens take in the buffer, each with its NUL.
abbrev pub stored : List Bytes → ℕ
stored [] = 0
stored (t ∷ ts) = length t + 1 + stored ts

module _ (p : Place) where
  -- What is written, and what is left, is no more than was read.
  abbrev Fits : ℕ → Bytes × Bytes → Type 0
  Fits n r = length r.0 + length r.1 ≤ n

  hex_loop-length : (n v : ℕ) (s : Bytes) {c : ℕ} → hex_loop n v s ≡ some c → n ≤ length s
  unfolding hex_loop
  hex_loop-length zero v s h = omega arith
  hex_loop-length (suc n) v [] h = cc h
  hex_loop-length (suc n) v (b ∷ s) h = elim (Option-cases (hex_digit b)) [
    | inl e ↦ cc (rw (e, hex_loop) at h)
    | inr (d, e) ↦ omega (arith, hex_loop-length n (v * 16 + d) s (rw (e, hex_loop) at h))
  ]

  length-drop : (n : ℕ) (s : Bytes) → n ≤ length s → length (drop n s) + n ≡ length s
  length-drop zero s h = omega arith
  length-drop (suc n) [] h = absurd (omega arith)
  length-drop (suc n) (c ∷ s) h = omega (arith, length-drop n s (omega arith))

  length-encode-le : (c : ℕ) → length (encode c) ≤ 4
  unfolding encode
  length-encode-le c = ground arith

  low_surrogate-length : (s : Bytes) {c : ℕ} → low_surrogate s ≡ some c → 6 ≤ length s
  unfolding low_surrogate hex4
  low_surrogate-length [] h = cc h
  low_surrogate-length (a ∷ []) h = cc h
  low_surrogate-length (a ∷ b ∷ s) h = elim (Bool-cases (a == b'\\' && b == b'u')) [
    | inl e ↦ omega (arith, hex_loop-length 4 0 s (rw e at h))
    | inr e ↦ cc (rw e at h)
  ]

  -- An escape writes no more than it takes.
  unicode-Fits : (s : Bytes) (r : Bytes × Bytes) → unicode p s ≡ ok r → Fits (length s) r
  unfolding unicode hex4
  unicode-Fits s r h = elim (Option-cases (hex4 s)) [
    | inl e ↦ cc (rw (e, unicode) at h)
    | inr (c, e) ↦
        let four = hex_loop-length 4 0 s e in
        let left = length-drop 4 s four in
        elim (Option-cases (low_surrogate (drop 4 s))) [
          | inl f ↦ let h' = rw (e, f, unicode) at h in ground (arith, length-encode-le c, left)
          | inr (low, f) ↦
              let h' = rw (e, f, unicode) at h in
              let six = low_surrogate-length (drop 4 s) f in
              ground (
                arith,
                length-encode-le c,
                length-encode-le (0x10000 + (c - 0xd800) * 1024 + (low - 0xdc00)),
                left,
                length-drop 6 (drop 4 s) six,
              )
        ]
  ]

  unescape-Fits : (s : Bytes) (r : Bytes × Bytes) → unescape p s ≡ ok r → Fits (length s) r
  unfolding unescape
  unescape-Fits [] r h = cc h
  unescape-Fits (c ∷ s) r h = ground (arith, unicode-Fits s r)

  -- The two ways to go on in a quoted token.
  plain-Fits :
      (fuel c : ℕ) (s : Bytes) (r : Bytes × Bytes)
      → ((q : Bytes × Bytes) → quoted p fuel s ≡ ok q → length q.0 + length q.1 < length s)
      → (quoted p fuel s >>= λ later. ok (c ∷ later.0, later.1)) ≡ ok r
      → length r.0 + length r.1 < suc (length s)
  plain-Fits fuel c s r ih h =
      let (later, run, e) = bind-eq-ok (quoted p fuel s) (λ later. ok (c ∷ later.0, later.1)) h in
      let less = ih later run in ground arith

  escaped-Fits :
      (fuel : ℕ) (s : Bytes) (r : Bytes × Bytes)
      → ((t : Bytes) (q : Bytes × Bytes)
          → quoted p fuel t ≡ ok q
          → length q.0 + length q.1 < length t)
      → (unescape p s >>= λ first.
          quoted p fuel first.1 >>= λ later. ok (first.0 ++ later.0, later.1))
        ≡ ok r
      → length r.0 + length r.1 < suc (length s)
  escaped-Fits fuel s r ih h =
      let (first, read, h') =
        bind-eq-ok (unescape p s)
          (λ first. quoted p fuel first.1 >>= λ later. ok (first.0 ++ later.0, later.1)) h in
      let (later, run, e) =
        bind-eq-ok (quoted p fuel first.1) (λ later. ok (first.0 ++ later.0, later.1)) h' in
      ground
        (arith, unescape-Fits s first read, ih first.1 later run, length-append first.0 later.0)

  quoted-Fits :
      (fuel : ℕ) (s : Bytes) (r : Bytes × Bytes)
      → quoted p fuel s ≡ ok r
      → length r.0 + length r.1 < length s
  unfolding quoted
  quoted-Fits fuel [] r h = cc h
  quoted-Fits zero (c ∷ s) r h = cc h
  quoted-Fits (suc fuel) (c ∷ s) r h = elim (Bool-cases (c == b'"')) [
    | inl close ↦ ground arith
    | inr open_still ↦ elim (Bool-cases (ltb c 32)) [
      | inl bad ↦ cc (rw (open_still, bad, quoted) at h)
      | inr good ↦ elim (Bool-cases (c == b'\\')) [
        | inr plain ↦
            plain-Fits fuel c s r (quoted-Fits fuel s) (rw (open_still, good, plain, quoted) at h)
        | inl backslash ↦
            escaped-Fits fuel s r (quoted-Fits fuel) (rw (open_still, good, backslash, quoted) at h)
      ]
    ]
  ]

  bare-Fits : (s : Bytes) (r : Bytes × Bytes) → bare p s ≡ ok r → Fits (length s) r
  unfolding bare
  bare-Fits [] r h = ground arith
  bare-Fits (c ∷ s) r h = elim (Bool-cases (is_blank c)) [
    | inl blank ↦ ground arith
    | inr inside ↦ elim (Bool-cases (ltb c 32 || c == 127 || c == b'"')) [
      | inl bad ↦ cc (rw (inside, bad, bare) at h)
      | inr good ↦
          let (later, run, e) =
            bind-eq-ok (bare p s) (λ rest. ok (c ∷ rest.0, rest.1))
              (rw (inside, good, bare) at h) in
          let less = bare-Fits s later run in ground arith
    ]
  ]

  bare-separated : (s : Bytes) (r : Bytes × Bytes) → bare p s ≡ ok r → separated r.1 ≡ true
  unfolding bare separated
  bare-separated [] r h = ground arith
  bare-separated (c ∷ s) r h = elim (Bool-cases (is_blank c)) [
    | inl blank ↦ ground arith
    | inr inside ↦ elim (Bool-cases (ltb c 32 || c == 127 || c == b'"')) [
      | inl bad ↦ cc (rw (inside, bad, bare) at h)
      | inr good ↦
          let (later, run, e) =
            bind-eq-ok (bare p s) (λ rest. ok (c ∷ rest.0, rest.1))
              (rw (inside, good, bare) at h) in
          let rest_separated = bare-separated s later run in ground arith
    ]
  ]

  -- A token, and what follows it: a blank or nothing.
  read_token-Fits :
      (c : ℕ) (s : Bytes) (r : Bytes × Bytes)
      → read_token p c s ≡ ok r
      → (length r.0 + length r.1 ≤ suc (length s)) × (separated r.1 ≡ true)
  unfolding read_token
  read_token-Fits c s r h = elim (Bool-cases (c == b'"')) [
    | inr plain ↦
        let read : bare p (c ∷ s) ≡ ok r = rw (plain, read_token) at h in
        (bare-Fits (c ∷ s) r read, bare-separated (c ∷ s) r read)
    | inl quote_mark ↦
        let (t, run, e) =
          bind-eq-ok (quoted p (length s) s) (λ t. if separated t.1 then ok t else fail p quote)
            (rw (quote_mark, read_token) at h) in
        let less = quoted-Fits (length s) s t run in (ground arith, ground arith)
  ]

  -- At a blank, or at the end, no token begins, which leaves room for the NUL before.
  abbrev Stored : Bytes → List Bytes → Type 0
  Stored s ts = (stored ts ≤ length s + 1) × (separated s ≡ true → stored ts ≤ length s)

  lex_loop-Stored :
      (fuel count : ℕ) (s : Bytes) (ts : List Bytes)
      → lex_loop p fuel count s ≡ ok ts
      → count ≤ 5
      → Stored s ts × (count + length ts ≤ 5)
  unfolding lex_loop separated
  lex_loop-Stored fuel count [] ts h few = ground arith
  lex_loop-Stored zero count (c ∷ s) ts h few = cc h
  lex_loop-Stored (suc fuel) count (c ∷ s) ts h few = elim (Bool-cases (is_blank c)) [
    | inl blank ↦
        let ih = lex_loop-Stored fuel count s ts (rw (blank, lex_loop) at h) few in ground arith
    | inr inside ↦ elim (Bool-cases (c == b'#')) [
      | inl comment ↦ ground arith
      | inr text ↦ elim (Bool-cases (count == 5)) [
        | inl full ↦ cc (rw (inside, text, full, lex_loop) at h)
        | inr room ↦
            let (t, read, h') =
              bind-eq-ok (read_token p c s)
                (λ t. lex_loop p fuel (count + 1) t.1 >>= λ later. ok (t.0 ∷ later))
                (rw (inside, text, room, lex_loop) at h) in
            let (later, run, e) =
              bind-eq-ok (lex_loop p fuel (count + 1) t.1) (λ later. ok (t.0 ∷ later)) h' in
            let ih = lex_loop-Stored fuel (count + 1) t.1 later run (ground arith) in
            let (fits, apart) = read_token-Fits c s t read in
            let rest_fits = ih.0.1 apart in ground arith
      ]
    ]
  ]

  -- Whatever line `lex` accepts, the tokens with their NULs fit the buffer of n + 1 bytes, and the
  -- array of five.
  pub lex-fits :
      (s : Bytes) (ts : List Bytes) → lex p s ≡ ok ts → (stored ts ≤ length s + 1) × (length ts ≤ 5)
  unfolding lex
  lex-fits s ts h =
      let r = lex_loop-Stored (length s) 0 s ts h (omega arith) in (r.0.0, omega (arith, r.1))
