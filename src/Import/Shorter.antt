-- ===== src/Import/Shorter.antt =====
-- src/filter/import.c, next: how the data that is left shrinks.
use jaro_mail.Base.{
  ltb, ◌==◌, Bool-cases, Option-cases, length, Bytes, codes, in_set, ℕ, ◌+◌, ◌≤◌, ◌<◌, ◌≡◌, refl,
  sym, ap, ◌∙◌, inl, inr, ◌&&◌, ◌||◌, [], ◌∷◌, arith,
}
use jaro_mail.Result.{Result, ok, ◌>>=◌, sieve_import, bind-eq-ok, ok-injective}
use jaro_mail.Product.Buffer.{Buffer, empty, bytes_add_limit, product_error}
use jaro_mail.Policy.Build.{line_max}
use jaro_mail.Import.{
  Token, word, string, mark, is_word_byte, Parser, Gap, blank, hash, block, Skipped, unterminated,
  stopped, skip, keep_byte, string_byte, string_loop, word_loop, end_value, next,
}

-- What a loop leaves is a part of what it reads.
keep_byte-ok :
    {A : Type 0}
    → (p : Parser) (b : Buffer) (c : ℕ) (k : Buffer → Result A) (r : A) → keep_byte p b c k ≡ ok r
    → (b' : Buffer) × (k b' ≡ ok r)
unfolding keep_byte product_error
keep_byte-ok p b c k r h = elim (Option-cases (bytes_add_limit b (c ∷ []) line_max)) [
  | inl e ↦ absurd (ground (arith, h))
  | inr (b', e) ↦ (b', rw (e, keep_byte) at h)
]

string_byte-ok :
    (p : Parser) (b : Buffer) (c : ℕ) (k : Buffer → Result (Buffer × Bytes)) (r : Buffer × Bytes)
    → string_byte p b c k ≡ ok r
    → (b' : Buffer) × (k b' ≡ ok r)
unfolding string_byte product_error
string_byte-ok p b c k r h = elim (Bool-cases (ltb c 32 || c == 127)) [
  | inl t ↦ absurd (ground (arith, h))
  | inr f ↦ keep_byte-ok p b c k r (rw f at h)
]

pub length-skip :
    (g : Gap) (line : ℕ) (s : Bytes) (l : ℕ) (t : Bytes)
    → skip g line s ≡ stopped l t
    → length t ≤ length s
unfolding skip
length-skip blank line [] l t h = ground (arith, h)
length-skip hash line [] l t h = ground (arith, h)
length-skip block line [] l t h = absurd (ground arith)
length-skip block line (c ∷ []) l t h = absurd (ground arith)
length-skip block line (c ∷ d ∷ s) l t h = elim (Bool-cases (c == b'*' && d == b'/')) [
  | inl e ↦ omega (arith, length-skip blank line s l t (rw (e, skip) at h))
  | inr e ↦ omega (arith, length-skip block _ (d ∷ s) l t (rw (e, skip) at h))
]
length-skip hash line (c ∷ s) l t h = elim (Bool-cases (c == b'\n')) [
  | inl e ↦ omega (arith, length-skip blank (line + 1) s l t (rw (e, skip) at h))
  | inr e ↦ omega (arith, length-skip hash line s l t (rw (e, skip) at h))
]
length-skip blank line (c ∷ []) l t h = ground (arith, h)
length-skip blank line (c ∷ d ∷ s) l t h =
    elim (Bool-cases (c == b' ' || c == b'\t' || c == b'\r' || c == b'\n')) [
      | inl e ↦ omega (arith, length-skip blank _ (d ∷ s) l t (rw (e, skip) at h))
      | inr e ↦ elim (Bool-cases (c == b'#')) [
        | inl f ↦ omega (arith, length-skip hash line (d ∷ s) l t (rw (e, f, skip) at h))
        | inr f ↦ elim (Bool-cases (c == b'/' && d == b'*')) [
          | inl g ↦ omega (arith, length-skip block line s l t (rw (e, f, g, skip) at h))
          | inr g ↦ ground (arith, h, e, f, g)
        ]
      ]
    ]

pub length-string_loop :
    (p : Parser) (b : Buffer) (s : Bytes) (b' : Buffer) (t : Bytes)
    → string_loop p b s ≡ ok (b', t)
    → length t < length s
unfolding string_loop product_error
length-string_loop p b [] b' t h = absurd (ground arith)
length-string_loop p b (c ∷ []) b' t h = elim (Bool-cases (c == b'"')) [
  | inl e ↦ ground (arith, h, e)
  | inr e ↦ elim (Bool-cases (c == b'\\')) [
    | inl f ↦ absurd (ground (arith, h, e, f))
    | inr f ↦
        let (b1, k) =
          string_byte-ok p b c (λ b1. product_error sieve_import p.token_line) (b', t)
            (rw (e, f, string_loop) at h) in
        absurd (ground (arith, k))
  ]
]
length-string_loop p b (c ∷ d ∷ s) b' t h = elim (Bool-cases (c == b'"')) [
  | inl e ↦ ground (arith, h, e)
  | inr e ↦ elim (Bool-cases (c == b'\\')) [
    | inl f ↦ elim (Bool-cases (d == b'"' || d == b'\\')) [
      | inl g ↦
          let (b1, k) =
            string_byte-ok p b d (λ b1. string_loop p b1 s) (b', t)
              (rw (e, f, g, string_loop) at h) in
          omega (arith, length-string_loop p b1 s b' t k)
      | inr g ↦ absurd (ground (arith, h, e, f, g))
    ]
    | inr f ↦
        let (b1, k) =
          string_byte-ok p b c (λ b1. string_loop p b1 (d ∷ s)) (b', t)
            (rw (e, f, string_loop) at h) in
        omega (arith, length-string_loop p b1 (d ∷ s) b' t k)
  ]
]

pub length-word_loop :
    (p : Parser) (b : Buffer) (s : Bytes) (b' : Buffer) (t : Bytes)
    → word_loop p b s ≡ ok (b', t)
    → length t ≤ length s
unfolding word_loop
length-word_loop p b [] b' t h = ground (arith, h)
length-word_loop p b (c ∷ s) b' t h = elim (Bool-cases (is_word_byte c)) [
  | inl e ↦
      let (b1, k) = keep_byte-ok p b c (λ b1. word_loop p b1 s) (b', t) (rw (e, word_loop) at h) in
      omega (arith, length-word_loop p b1 s b' t k)
  | inr e ↦ ground (arith, h, e)
]

end_value-rest :
    (p : Parser) (token : Token) (b : Buffer) (t : Bytes) (q : Parser)
    → end_value p token (b, t) ≡ ok q
    → q.rest ≡ t
unfolding end_value product_error
end_value-rest p token b t q h = elim (Option-cases (bytes_add_limit b (0 ∷ []) (line_max + 1))) [
  | inl e ↦ absurd (ground (arith, h, e))
  | inr (b', e) ↦ ap (λ (q : Parser). q.rest) (sym (ok-injective (rw (e, end_value) at h)))
]

length-after :
    (p q : Parser) (l c : ℕ) (s : Bytes)
    → skip blank p.line p.rest ≡ stopped l (c ∷ s)
    → next p ≡ ok q
    → length q.rest ≤ length s
unfolding next
length-after p q l c s e h =
    let here : Parser = record { rest = s; line = l; token_line = l; token = word; value = [] } in
    elim (Bool-cases (c == 0)) [
      | inl f ↦
          omega (arith, ap (λ (q : Parser). length q.rest) (ok-injective (rw (e, f, next) at h)))
      | inr f ↦ elim (Bool-cases (in_set c (codes "{}[],;"))) [
        | inl g ↦
            omega
              (arith, ap (λ (q : Parser). length q.rest) (ok-injective (rw (e, f, g, next) at h)))
        | inr g ↦ elim (Bool-cases (c == b'"')) [
          | inl k ↦
              let (r, run, ends) =
                bind-eq-ok (string_loop here empty s) (end_value here string)
                  (rw (e, f, g, k, next) at h) in
              omega (
                arith,
                length-string_loop here empty s r.0 r.1 run,
                ap length (end_value-rest here string r.0 r.1 q ends),
              )
          | inr k ↦
              let (b, starts) =
                keep_byte-ok here empty c (λ b. do r ← word_loop here b s; end_value here word r) q
                  (rw (e, f, g, k, next) at h) in
              let (r, run, ends) = bind-eq-ok (word_loop here b s) (end_value here word) starts in
              omega (
                arith,
                length-word_loop here b s r.0 r.1 run,
                ap length (end_value-rest here word r.0 r.1 q ends),
              )
        ]
      ]
    ]

-- At a mark, `next` has taken a byte at least.
pub next-shorter :
    (p q : Parser)
    → next p ≡ ok q
    → (length q.rest ≤ length p.rest) × ((c : ℕ) → q.token ≡ mark c → length q.rest < length p.rest)
unfolding next product_error
next-shorter p q h = go (skip blank p.line p.rest) refl
  where
    go :
        (k : Skipped)
        → skip blank p.line p.rest ≡ k
        → (length q.rest ≤ length p.rest)
          × ((c : ℕ) → q.token ≡ mark c → length q.rest < length p.rest)
    go (unterminated l) e = (let n = rw (e, next) at h in ground (arith, n))
    go (stopped l []) e =
        let at = ok-injective (rw (e, next) at h) in
        (
          omega (arith, ap (λ (q : Parser). length q.rest) at),
          λ c m. (let n = ap (λ (q : Parser). q.token) at ∙ m in ground (arith, n)),
        )
    go (stopped l (c ∷ s)) e =
        let part = length-skip blank p.line p.rest l (c ∷ s) e in
        let after = length-after p q l c s e h in
        (omega (arith, part, after), λ d m. omega (arith, part, after))
