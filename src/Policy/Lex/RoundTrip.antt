-- ===== src/Policy/Lex/RoundTrip.antt =====
-- src/filter/policy.c, lex: what is quoted is read back.
use jaro_mail.Base.{
  true, ltb, ◌==◌, if◌then◌else◌, ltb→lt, Bool-cases, length, length-append, All, Bytes, ℕ, zero,
  suc, ◌+◌, ◌-◌, ◌*◌, ◌/◌, ◌%◌, ◌≤◌, ◌<◌, ◌≡◌, refl, ap, ◌∙◌, inl, inr, ◌||◌, List, [], ◌∷◌, ◌++◌,
  append_assoc, arith,
}
use jaro_mail.Result.{ok, ◌>>=◌}
use jaro_mail.Text.Utf8.{encode}
use jaro_mail.Policy.Lex.{
  Place, hex_digit, hex_loop, hex4, unicode, unescape, quoted, separated, read_token, lex_loop, lex,
}

-- A writer of quoted tokens: quote and backslash escaped, control bytes as \u00XX.
abbrev digit : ℕ → ℕ
digit d = if ltb d 10 then b'0' + d else b'a' + d - 10

unfoldable pub quote_byte : ℕ → Bytes
quote_byte c =
    if c == b'"' || c == b'\\'
    then b'\\' ∷ c ∷ []
    else if ltb c 32
    then b'\\' ∷ b'u' ∷ b'0' ∷ b'0' ∷ digit (c / 16) ∷ digit (c % 16) ∷ []
    else c ∷ []

abbrev pub quote_body : Bytes → Bytes
quote_body [] = []
quote_body (c ∷ t) = quote_byte c ++ quote_body t

-- The tokens, quoted, with one blank between two of them and a blank at the end.
abbrev pub quote_line : List Bytes → Bytes
quote_line [] = []
quote_line (t ∷ ts) = b'"' ∷ (quote_body t ++ (b'"' ∷ b' ' ∷ quote_line ts))

length-quote_byte : (c : ℕ) → 0 < length (quote_byte c)
unfolding quote_byte
length-quote_byte c = ground arith

length-quote_body : (t : Bytes) → length t ≤ length (quote_body t)
length-quote_body [] = omega arith
length-quote_body (c ∷ t) =
    omega
      (arith, length-append (quote_byte c) (quote_body t), length-quote_byte c, length-quote_body t)

module _ (p : Place) where
  unicode-control :
      (c : ℕ) (rest : Bytes)
      → 0 < c
      → c < 32
      → unicode p (b'0' ∷ b'0' ∷ digit (c / 16) ∷ digit (c % 16) ∷ rest) ≡ ok (c ∷ [], rest)
  unfolding unicode hex4 hex_loop hex_digit encode
  unicode-control c rest pos small = ground arith

  quoted-quote_byte :
      (fuel c : ℕ) (rest : Bytes)
      → 0 < c
      → quoted p (suc fuel) (quote_byte c ++ rest)
        ≡ (quoted p fuel rest >>= λ later. ok (c ∷ later.0, later.1))
  unfolding quoted unescape quote_byte
  quoted-quote_byte fuel c rest pos = elim (Bool-cases (c == b'"' || c == b'\\')) [
    | inl special ↦ ground (arith)
    | inr plain ↦ elim (Bool-cases (ltb c 32)) [
      | inr printable ↦ ground arith
      | inl small ↦
          rw (plain, small) (ground (arith, unicode-control c rest pos (ltb→lt c 32 small)))
    ]
  ]

  quoted-quote_body :
      (fuel : ℕ) (t rest : Bytes)
      → All (λ c. 0 < c) t
      → length t < fuel
      → quoted p fuel (quote_body t ++ b'"' ∷ rest) ≡ ok (t, rest)
  quoted-quote_body zero t rest h le = absurd (omega arith)
  quoted-quote_body (suc fuel) [] rest h le = unfold quoted in refl
  quoted-quote_body (suc fuel) (c ∷ t) rest h le = rw append_assoc (
      quoted-quote_byte fuel c (quote_body t ++ b'"' ∷ rest) h.0
      ∙ ap (λ r. r >>= λ later. ok (c ∷ later.0, later.1))
          (quoted-quote_body fuel t rest h.1 (omega arith)))

  -- Before a blank or the end.
  pub read_token-quote_body :
      (t rest : Bytes)
      → All (λ c. 0 < c) t
      → separated rest ≡ true
      → read_token p b'"' (quote_body t ++ b'"' ∷ rest) ≡ ok (t, rest)
  unfolding read_token
  read_token-quote_body t rest h apart =
      let enough : length t < length (quote_body t ++ b'"' ∷ rest) =
        omega (arith, length-append (quote_body t) (b'"' ∷ rest), length-quote_body t) in
      rw (quoted-quote_body (length (quote_body t ++ b'"' ∷ rest)) t rest h enough, apart) refl

  read_token-quote :
      (t rest : Bytes)
      → All (λ c. 0 < c) t
      → read_token p b'"' (quote_body t ++ b'"' ∷ b' ' ∷ rest) ≡ ok (t, b' ' ∷ rest)
  unfolding separated
  read_token-quote t rest h = read_token-quote_body t (b' ' ∷ rest) h refl

  pub lex_loop_token :
      (fuel count : ℕ) (s t rest : Bytes)
      → count < 5
      → read_token p b'"' s ≡ ok (t, rest)
      → lex_loop p (suc fuel) count (b'"' ∷ s)
        ≡ (lex_loop p fuel (count + 1) rest >>= λ ts. ok (t ∷ ts))
  unfolding lex_loop
  lex_loop_token fuel count s t rest few read = elim (Bool-cases (count == 5)) [
    | inl full ↦ absurd (ground arith)
    | inr room ↦ rw (room, read, lex_loop) refl
  ]

  lex_loop-quote_line :
      (fuel count : ℕ) (ts : List Bytes)
      → All (All (λ c. 0 < c)) ts
      → 2 * length ts ≤ fuel
      → count + length ts ≤ 5
      → lex_loop p fuel count (quote_line ts) ≡ ok ts
  unfolding lex_loop
  lex_loop-quote_line fuel count [] h enough few = refl
  lex_loop-quote_line zero count (t ∷ ts) h enough few = absurd (omega arith)
  lex_loop-quote_line (suc zero) count (t ∷ ts) h enough few = absurd (omega arith)
  lex_loop-quote_line (suc (suc fuel)) count (t ∷ ts) h enough few =
      lex_loop_token (suc fuel) count _ t (b' ' ∷ quote_line ts) (omega arith)
        (read_token-quote t (quote_line ts) h.0)
      ∙ ap (λ r. r >>= λ later. ok (t ∷ later))
          (lex_loop-quote_line fuel (count + 1) ts h.1 (omega arith) (omega arith))

  length-quote_line : (ts : List Bytes) → 3 * length ts ≤ length (quote_line ts)
  length-quote_line [] = omega arith
  length-quote_line (t ∷ ts) =
      omega
        (arith, length-append (quote_body t) (b'"' ∷ b' ' ∷ quote_line ts), length-quote_line ts)

  -- `lex` reads back a line of at most five quoted tokens, whatever bytes but NUL the tokens hold:
  -- the escapes for quote, backslash and control bytes are undone, and nothing else is changed.
  pub lex-quote_line :
      (ts : List Bytes) → All (All (λ c. 0 < c)) ts → length ts ≤ 5 → lex p (quote_line ts) ≡ ok ts
  unfolding lex
  lex-quote_line ts h few =
      lex_loop-quote_line (length (quote_line ts)) 0 ts h (omega (arith, length-quote_line ts))
        (omega arith)
