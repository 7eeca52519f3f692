-- ===== src/Product/Quote/SieveString.antt =====
-- src/filter/emit.c, quote_sieve: a quoted string is read back as what was quoted.
use jaro_mail.Base.{
  ◌==◌, if◌then◌else◌, Bool-cases, Bytes, codes, ℕ, ◌≡◌, refl, sym, ap, ◌∙◌, inl, inr, Bool, true,
  false, ◌||◌, Option, none, some, [], ◌∷◌, ◌++◌, arith,
}
use jaro_mail.Product.Buffer.{Buffer, ◌>>=◌, bytes_add}
use jaro_mail.Product.Buffer.Growth.{then_appends, bytes_add-content, bind-eq-some}
use jaro_mail.Product.Quote.{sieve_loop, quote_sieve}

-- How a Sieve script reads a quoted string (RFC 5228, 2.4.2) behind its opening quote: a backslash
-- quotes one byte, and a quote ends the string. The flag says that the byte before was a backslash.
unfoldable pub read_string : Bool → Bytes → Option (Bytes × Bytes)
read_string escaped [] = none
read_string true (c ∷ s) = do r ← read_string false s; some (c ∷ r.0, r.1)
read_string false (c ∷ s) =
    let later = read_string true s in
    let more : Option (Bytes × Bytes) = (do r ← read_string false s; some (c ∷ r.0, r.1)) in
    if c == b'"' then some ([], s) else if c == b'\\' then later else more

abbrev pub needs_escape : ℕ → Bool
needs_escape c = c == b'"' || c == b'\\'

-- What is written behind the opening quote.
abbrev pub string_body : Bytes → Bytes
string_body [] = codes "\""
string_body (c ∷ s) = (if needs_escape c then b'\\' ∷ c ∷ [] else c ∷ []) ++ string_body s

sieve_loop-escaped :
    (b : Buffer) (c : ℕ) (s : Bytes)
    → needs_escape c ≡ true
    → sieve_loop b (c ∷ s)
      ≡ (bytes_add b (codes "\\") >>= λ e. bytes_add e (c ∷ []) >>= λ n. sieve_loop n s)
unfolding sieve_loop
sieve_loop-escaped b c s h = rw h refl

sieve_loop-plain :
    (b : Buffer) (c : ℕ) (s : Bytes)
    → needs_escape c ≡ false
    → sieve_loop b (c ∷ s) ≡ (bytes_add b (c ∷ []) >>= λ n. sieve_loop n s)
unfolding sieve_loop
sieve_loop-plain b c s h = rw h refl

sieve_loop-end : (b : Buffer) → sieve_loop b [] ≡ bytes_add b (codes "\"")
unfolding sieve_loop
sieve_loop-end b = refl

sieve_loop-content :
    (b : Buffer) (s : Bytes) {b' : Buffer}
    → sieve_loop b s ≡ some b'
    → b'.content ≡ b.content ++ string_body s
sieve_loop-content b [] h = bytes_add-content b (codes "\"") (sym (sieve_loop-end b) ∙ h)
sieve_loop-content b (c ∷ s) h = elim (Bool-cases (needs_escape c)) [
  | inl t ↦
      let (e, first, h1) =
        bind-eq-some (bytes_add b (codes "\\")) _ (sym (sieve_loop-escaped b c s t) ∙ h) in
      let (n, second, h2) = bind-eq-some (bytes_add e (c ∷ [])) _ h1 in
      let both =
        then_appends b.content (codes "\\") (c ∷ []) (bytes_add-content b (codes "\\") first)
          (bytes_add-content e (c ∷ []) second) in
      rw t
        (then_appends b.content (b'\\' ∷ c ∷ []) (string_body s) both (sieve_loop-content n s h2))
  | inr f ↦
      let (n, first, h1) =
        bind-eq-some (bytes_add b (c ∷ [])) _ (sym (sieve_loop-plain b c s f) ∙ h) in
      rw f (
        then_appends b.content (c ∷ []) (string_body s) (bytes_add-content b (c ∷ []) first)
          (sieve_loop-content n s h1))
]

read_string-escaped :
    (c : ℕ) (s : Bytes)
    → read_string false (b'\\' ∷ c ∷ s) ≡ (read_string false s >>= λ r. some (c ∷ r.0, r.1))
unfolding read_string
read_string-escaped c s = refl

read_string-plain :
    (c : ℕ) (s : Bytes)
    → needs_escape c ≡ false
    → read_string false (c ∷ s) ≡ (read_string false s >>= λ r. some (c ∷ r.0, r.1))
unfolding read_string
read_string-plain c s h = ground arith

read_string-end : (s : Bytes) → read_string false (b'"' ∷ s) ≡ some ([], s)
unfolding read_string
read_string-end s = refl

read_string-body : (s rest : Bytes) → read_string false (string_body s ++ rest) ≡ some (s, rest)
read_string-body [] rest = read_string-end rest
read_string-body (c ∷ s) rest = elim (Bool-cases (needs_escape c)) [
  | inl t ↦ rw t (
      read_string-escaped c (string_body s ++ rest)
      ∙ ap (λ r. r >>= λ q. some (c ∷ q.0, q.1)) (read_string-body s rest))
  | inr f ↦ rw f (
      read_string-plain c (string_body s ++ rest) f
      ∙ ap (λ r. r >>= λ q. some (c ∷ q.0, q.1)) (read_string-body s rest))
]

pub quote_sieve-content :
    (b : Buffer) (s : Bytes) (b' : Buffer)
    → quote_sieve b s ≡ some b'
    → b'.content ≡ b.content ++ b'"' ∷ string_body s
unfolding quote_sieve
quote_sieve-content b s b' h =
    let (mid, first, rest) =
      bind-eq-some (bytes_add b (codes "\"")) (λ next. sieve_loop next s) h in
    then_appends b.content (codes "\"") (string_body s) (bytes_add-content b (codes "\"") first)
      (sieve_loop-content mid s rest)

-- Where quote_sieve succeeds it appends a quote and a text that a Sieve script reads back, behind
-- that quote, as the string that was quoted, whatever bytes it holds and whatever follows: no value
-- ends its string early.
pub read_string-quote_sieve :
    (b : Buffer) (s : Bytes) (b' : Buffer)
    → quote_sieve b s ≡ some b'
    → (w : Bytes) × (b'.content ≡ b.content ++ b'"' ∷ w)
      × ((rest : Bytes) → read_string false (w ++ rest) ≡ some (s, rest))
read_string-quote_sieve b s b' h = (string_body s, quote_sieve-content b s b' h, read_string-body s)
