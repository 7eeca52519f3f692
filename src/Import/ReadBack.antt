-- ===== src/Import/ReadBack.antt =====
-- src/filter/emit.c and import.c: the importer reads back the strings that the emitter quotes.
use jaro_mail.Base.{
  ltb, leb, ◌==◌, Bool-cases, length, length-append, All, Bytes, in_set, ℕ, ◌+◌, ◌-◌, ◌≤◌, ◌≡◌,
  refl, sym, ap, ◌∙◌, ◌≢◌, inl, inr, true, false, not, ◌&&◌, ◌||◌, some, [], ◌∷◌, ◌++◌, append-nil,
  append_assoc, arith,
}
use jaro_mail.Import.{
  Token, string, word, Parser, blank, stopped, skip, keep_byte, string_byte, string_loop, end_value,
  next,
}
use jaro_mail.Result.{Result, ok}
use jaro_mail.Product.Buffer.{Buffer, empty, bytes_fits, bytes_add_limit}
use jaro_mail.Product.Quote.{quote_sieve}
use jaro_mail.Product.Quote.SieveString.{needs_escape, string_body, quote_sieve-content}
use jaro_mail.Policy.Build.{line_max}

-- A byte that a string of a script may hold.
abbrev pub IsPrintable : Bytes → Type 0
IsPrintable s = All (λ c. (32 ≤ c) × (c ≢ 127)) s

add_byte-ok :
    (b : Buffer) (c limit : ℕ)
    → length b.content + 1 ≤ limit
    → (b' : Buffer) × (bytes_add_limit b (c ∷ []) limit ≡ some b')
      × (b'.content ≡ b.content ++ c ∷ [])
unfolding bytes_add_limit bytes_fits
add_byte-ok b c limit h =
    let fits : not (leb (length b.content) limit && leb 1 (limit - length b.content)) ≡ false =
      ground arith in
    rw fits (_, refl, refl)

string_byte-ok :
    (p : Parser) (b b' : Buffer) (c : ℕ) (k : Buffer → Result (Buffer × Bytes))
    → 32 ≤ c
    → c ≢ 127
    → bytes_add_limit b (c ∷ []) line_max ≡ some b'
    → string_byte p b c k ≡ k b'
unfolding string_byte keep_byte
string_byte-ok p b b' c k low del e =
    let plain : (ltb c 32 || c == 127) ≡ false = ground arith in
    rw (plain, e, string_byte, keep_byte) refl

string_loop-quote :
    (p : Parser) (b : Buffer) (rest : Bytes) → string_loop p b (b'"' ∷ rest) ≡ ok (b, rest)
unfolding string_loop
string_loop-quote p b [] = refl
string_loop-quote p b (c ∷ rest) = refl

string_loop-pair :
    (p : Parser) (b : Buffer) (c : ℕ) (rest : Bytes)
    → needs_escape c ≡ true
    → string_loop p b (b'\\' ∷ c ∷ rest) ≡ string_byte p b c (λ b'. string_loop p b' rest)
unfolding string_loop
string_loop-pair p b c rest h = rw h refl

string_loop-plain :
    (p : Parser) (b : Buffer) (c : ℕ) (rest : Bytes)
    → needs_escape c ≡ false
    → string_loop p b (c ∷ rest) ≡ string_byte p b c (λ b'. string_loop p b' rest)
unfolding string_loop
string_loop-plain p b c [] h =
    let q : (c == b'"') ≡ false = ground arith in
    let r : (c == b'\\') ≡ false = ground arith in rw (q, r) refl
string_loop-plain p b c (d ∷ rest) h =
    let q : (c == b'"') ≡ false = ground arith in
    let r : (c == b'\\') ≡ false = ground arith in rw (q, r) refl

string_loop-body :
    (p : Parser) (b : Buffer) (s rest : Bytes)
    → IsPrintable s
    → length b.content + length s ≤ line_max
    → (b' : Buffer) × (string_loop p b (string_body s ++ rest) ≡ ok (b', rest))
      × (b'.content ≡ b.content ++ s)
string_loop-body p b [] rest h fits = (b, string_loop-quote p b rest, sym (append-nil b.content))
string_loop-body p b (c ∷ s) rest h fits =
    let (b1, adds, holds) = add_byte-ok b c line_max (omega arith) in
    let (b2, run, whole) =
      string_loop-body p b1 s rest h.1
        (omega (arith, length-append b.content (c ∷ []), ap length holds)) in
    let later = λ (b' : Buffer). string_loop p b' (string_body s ++ rest) in
    let reads = string_byte-ok p b b1 c later h.0.0 h.0.1 adds ∙ run in
    let content = whole ∙ ap (λ t. t ++ s) holds ∙ append_assoc b.content (c ∷ []) s in
    (
      b2,
      elim (Bool-cases (needs_escape c)) [
        | inl t ↦ rw t (string_loop-pair p b c (string_body s ++ rest) t ∙ reads)
        | inr f ↦ rw f (string_loop-plain p b c (string_body s ++ rest) f ∙ reads)
      ],
      content,
    )

skip-quote : (line : ℕ) (s : Bytes) → skip blank line (b'"' ∷ s) ≡ stopped line (b'"' ∷ s)
unfolding skip
skip-quote line [] = refl
skip-quote line (c ∷ s) = refl

end_value-ok :
    (p : Parser) (token : Token) (b : Buffer) (rest : Bytes)
    → length b.content ≤ line_max
    → end_value p token (b, rest) ≡ ok (record p { token = token; value = b.content; rest = rest })
unfolding end_value
end_value-ok p token b rest h =
    let (b', adds, holds) = add_byte-ok b 0 (line_max + 1) (omega (arith, h)) in
    rw (adds, end_value) refl

-- Where the parser stands before a string that the emitter's quote_sieve has written, of at most
-- 65536 bytes and none of them a control byte, the importer's next reads it as one token with the
-- string's value, and stands behind it, whatever follows.
pub next-quote_sieve :
    (b : Buffer) (s : Bytes) (b' : Buffer)
    → quote_sieve b s ≡ some b'
    → IsPrintable s
    → length s ≤ line_max
    → (w : Bytes) × (b'.content ≡ b.content ++ w)
      × ((p : Parser) (rest : Bytes)
          → p.rest ≡ w ++ rest
          → next p
            ≡ ok (record {
              rest = rest;
              line = p.line;
              token_line = p.line;
              token = string;
              value = s;
            }))
unfolding next in_set
next-quote_sieve b s b' h printable fits = (
  b'"' ∷ string_body s,
  quote_sieve-content b s b' h,
  λ p rest at.
      let here : Parser = record {
        rest = string_body s ++ rest;
        line = p.line;
        token_line = p.line;
        token = word;
        value = [];
      } in
      let (b2, run, content) = string_loop-body here empty s rest printable (omega (arith, fits)) in
      let starts = ap (skip blank p.line) at ∙ skip-quote p.line (string_body s ++ rest) in
      let ends = end_value-ok here string b2 rest (omega (arith, fits, ap length content)) in
      rw (starts, run, next)
        (ends ∙ ap (λ v. ok (record here { token = string; value = v; rest = rest })) content),
)
