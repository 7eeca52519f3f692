-- ===== src/Import/Quoted.antt =====
-- src/filter/import.c, quote: the policy's lexer reads back what is quoted.
use jaro_mail.Base.{
  ltb, ◌==◌, Bool-cases, Option-cases, length, All, Bytes, codes, ℕ, ◌≤◌, ◌<◌, ◌≡◌, refl, sym, ap,
  ◌∙◌, inl, inr, true, false, ◌||◌, some, [], ◌∷◌, ◌++◌, append_assoc, arith,
}
use jaro_mail.Result.{ok, ◌>>=◌}
use jaro_mail.Product.Buffer.{Buffer, bytes_add}
use jaro_mail.Product.Buffer.Growth.{bytes_add-content}
use jaro_mail.Policy.Lex.{Place, separated, read_token, lex_loop, lex}
use jaro_mail.Policy.Lex.RoundTrip.{quote_byte, quote_body, read_token-quote_body, lex_loop_token}
use jaro_mail.Import.{quote_loop, quote}

quote_byte-plain : (c : ℕ) → 32 ≤ c → (c == b'"' || c == b'\\') ≡ false → quote_byte c ≡ c ∷ []
unfolding quote_byte
quote_byte-plain c low plain = let l : ltb c 32 ≡ false = ground arith in rw (plain, l) refl

quote_byte-escaped : (c : ℕ) → (c == b'"' || c == b'\\') ≡ true → quote_byte c ≡ b'\\' ∷ c ∷ []
unfolding quote_byte
quote_byte-escaped c h = rw h refl

-- What one round writes.
quote_loop-byte :
    (b : Buffer) (c : ℕ) (s : Bytes) (b' : Buffer)
    → quote_loop b (c ∷ s) ≡ some b'
    → (32 ≤ c)
      × ((m : Buffer) × (m.content ≡ b.content ++ quote_byte c) × (quote_loop m s ≡ some b'))
unfolding quote_loop
quote_loop-byte b c s b' h = elim (Bool-cases (ltb c 32)) [
  | inl t ↦ absurd (ground (arith, h))
  | inr f ↦
      let low : 32 ≤ c = ground arith in
      (
        low,
        elim (Bool-cases (c == b'"' || c == b'\\')) [
          | inl e ↦ elim (Option-cases (bytes_add b (codes "\\"))) [
            | inl g ↦ absurd (ground (arith, h))
            | inr (mid, g) ↦ elim (Option-cases (bytes_add mid (c ∷ []))) [
              | inl k ↦ absurd (ground (arith, h))
              | inr (m, k) ↦ (
                m,
                bytes_add-content mid (c ∷ []) k
                    ∙ ap (λ t. t ++ c ∷ []) (bytes_add-content b (codes "\\") g)
                    ∙ append_assoc b.content (codes "\\") (c ∷ [])
                    ∙ ap (λ t. b.content ++ t) (sym (quote_byte-escaped c e)),
                rw (e, g, f, k, quote_loop) at h,
              )
            ]
          ]
          | inr e ↦ elim (Option-cases (bytes_add b (c ∷ []))) [
            | inl k ↦ absurd (ground (arith, h))
            | inr (m, k) ↦ (
              m,
              bytes_add-content b (c ∷ []) k
                  ∙ ap (λ t. b.content ++ t) (sym (quote_byte-plain c low e)),
              rw (e, f, k, quote_loop) at h,
            )
          ]
        ],
      )
]

quote_loop-content :
    (b : Buffer) (s : Bytes) (b' : Buffer)
    → quote_loop b s ≡ some b'
    → All (λ c. 0 < c) s × (b'.content ≡ b.content ++ (quote_body s ++ b'"' ∷ []))
unfolding quote_loop
quote_loop-content b [] b' h = (tt, bytes_add-content b (codes "\"") h)
quote_loop-content b (c ∷ s) b' h =
    let (low, parts) = quote_loop-byte b c s b' h in
    let (m, holds, more) = parts in
    let (rest, content) = quote_loop-content m s b' more in
    (
      (omega (arith, low), rest),
      content
          ∙ ap (λ t. t ++ (quote_body s ++ b'"' ∷ [])) holds
          ∙ append_assoc b.content (quote_byte c) (quote_body s ++ b'"' ∷ [])
          ∙ ap (λ t. b.content ++ t) (sym (append_assoc (quote_byte c) (quote_body s) (b'"' ∷ []))),
    )

lex-one :
    (p : Place) (s : Bytes)
    → All (λ c. 0 < c) s
    → lex p (b'"' ∷ (quote_body s ++ b'"' ∷ [])) ≡ ok (s ∷ [])
unfolding lex lex_loop separated
lex-one p s bytes =
    lex_loop_token p (length (quote_body s ++ b'"' ∷ [])) 0 (quote_body s ++ b'"' ∷ []) s []
      (omega arith) (read_token-quote_body p s [] bytes refl)
    ∙ one_end (quote_body s)
  where
    one_end :
        (w : Bytes)
        → (lex_loop p (length (w ++ b'"' ∷ [])) 1 [] >>= λ ts. ok (s ∷ ts)) ≡ ok (s ∷ [])
    one_end [] = refl
    one_end (c ∷ w) = refl

-- Where the importer's quote succeeds on a string, it appends a quote and a text that the policy's
-- lexer reads, behind that quote, as one token with the string's bytes, before a blank or the end of
-- the line; and a line that is nothing else is that one token.
pub lex-quote :
    (b : Buffer) (s : Bytes) (b' : Buffer)
    → quote b s ≡ some b'
    → (w : Bytes) × (b'.content ≡ b.content ++ b'"' ∷ w)
      × ((p : Place) (rest : Bytes)
          → separated rest ≡ true
          → read_token p b'"' (w ++ rest) ≡ ok (s, rest))
      × ((p : Place) → lex p (b'"' ∷ w) ≡ ok (s ∷ []))
unfolding quote
lex-quote b s b' h = elim (Option-cases (bytes_add b (codes "\""))) [
  | inl e ↦ cc (rw (e, quote) at h)
  | inr (m, e) ↦
      let (bytes, content) = quote_loop-content m s b' (rw (e, quote) at h) in
      (
        quote_body s ++ b'"' ∷ [],
        content
            ∙ ap (λ t. t ++ (quote_body s ++ b'"' ∷ [])) (bytes_add-content b (codes "\"") e)
            ∙ append_assoc b.content (codes "\"") (quote_body s ++ b'"' ∷ []),
        λ p rest apart.
            ap (read_token p b'"') (append_assoc (quote_body s) (b'"' ∷ []) rest)
            ∙ read_token-quote_body p s rest bytes apart,
        λ p. lex-one p s bytes,
      )
]
