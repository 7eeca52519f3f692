-- ===== src/Policy/Lex.antt =====
-- src/filter/policy.c: hex4, lex and jf_policy_tokens. A token is the list of its bytes; the
-- source writes it into the caller's buffer with a NUL behind it.
pub mod Bounds
pub mod RoundTrip
use jaro_mail.Base.{
  ltb, leb, ◌==◌, if◌then◌else◌, ltb→lt, lt→ltb, leb→le, ==_iff, ==_refl, Bool-cases, Option-cases,
  &&-eq-true, within, length, get_elem?, take, drop, length-append, All, all, any, All-append,
  All-get_elem?, get_elem?-some, All-map, In, In-take-or-drop, In-drop, All-In, drop-length, Bytes,
  codes, str_eq, str_eq_iff, in_set, strcmp, strcmp_iff, strcmp_antisymm, strcmp_trans,
  strcmp_lt_le_trans, StrLe, ℕ, zero, suc, ◌+◌, ◌-◌, ◌*◌, ◌/◌, ◌%◌, ◌^◌, ◌≤◌, ◌<◌, min, max,
  compare, Ordering, String, ◌≡◌, refl, sym, ap, ap₂, ◌∙◌, subst, ◌≡⟨◌⟩◌, ◌∎, ◌≢◌, ◌↔◌, ◌⊎◌, inl,
  inr, Bool, true, false, not, ◌&&◌, ◌||◌, Option, none, some, List, [], ◌∷◌, ◌++◌, map, foldl,
  append-nil, append_assoc, reverse, reverse-append, reverse-reverse, arith,
}
use jaro_mail.Result.{Result, ok, err, ◌>>=◌, Code, fields, quote, nul, token, line_limit, utf8}
use jaro_mail.Text.Blank.{is_blank}
use jaro_mail.Text.Utf8.{encode, valid_utf8}

-- The source and the line that a diagnostic names.
pub record Place : Type 0 where
  pub source : Option ℕ
  pub line : ℕ

-- `fail`; the status is 3 for E_MEMORY.
abbrev pub fail {ℓ} : {A : Type ℓ} → Place → Code → Result A
fail p code = err (record {
  code = code;
  status = elim code [ Code.memory ↦ 3 | _ ↦ 4 ];
  source = p.source;
  line = p.line;
})

unfoldable pub hex_digit : ℕ → Option ℕ
hex_digit c =
    if within b'0' b'9' c
    then some (c - b'0')
    else if within b'a' b'f' c
    then some (c - b'a' + 10)
    else if within b'A' b'F' c
    then some (c - b'A' + 10)
    else none

-- The loop of hex4 over the digits left; `v<<4|d` is v * 16 + d.
unfoldable pub hex_loop : ℕ → ℕ → Bytes → Option ℕ
hex_loop zero v s = some v
hex_loop (suc n) v [] = none
hex_loop (suc n) v (c ∷ s) = elim (hex_digit c) [ none ↦ none | some d ↦ hex_loop n (v * 16 + d) s ]

unfoldable pub hex4 : Bytes → Option ℕ
hex4 = hex_loop 4 0

-- `s[i]!='\\' || s[i+1]!='u'`, and the code unit that follows.
unfoldable pub low_surrogate : Bytes → Option ℕ
low_surrogate (a ∷ b ∷ s) = if a == b'\\' && b == b'u' then hex4 s else none
low_surrogate _ = none

-- `i<n && s[i]!=' ' && s[i]!='\t'` behind the closing quote.
unfoldable pub separated : Bytes → Bool
separated [] = true
separated (c ∷ s) = is_blank c

module _ (p : Place) where
  -- `case 'u'`, on the bytes behind it: the bytes written and those left.
  unfoldable pub unicode : Bytes → Result (Bytes × Bytes)
  unicode s = elim (hex4 s) [
    | none ↦ fail p quote
    | some c ↦
        let rest = drop 4 s in
        if within 0xd800 0xdbff c
        then elim (low_surrogate rest) [
          | none ↦ fail p quote
          | some low ↦
              if ltb low 0xdc00 || ltb 0xdfff low
              then fail p quote
              else ok (encode (0x10000 + (c - 0xd800) * 1024 + (low - 0xdc00)), drop 6 rest)
        ]
        else if within 0xdc00 0xdfff c
        then fail p quote
        else if c == 0
        then fail p nul
        else ok (encode c, rest)
  ]

  -- The switch on the byte behind a backslash.
  unfoldable pub unescape : Bytes → Result (Bytes × Bytes)
  unescape [] = fail p quote
  unescape (c ∷ s) =
      if c == b'"' || c == b'\\' || c == b'/'
      then ok (c ∷ [], s)
      else if c == b'b'
      then ok (8 ∷ [], s)
      else if c == b'f'
      then ok (12 ∷ [], s)
      else if c == b'n'
      then ok (10 ∷ [], s)
      else if c == b'r'
      then ok (13 ∷ [], s)
      else if c == b't'
      then ok (9 ∷ [], s)
      else if c == b'u'
      then unicode s
      else fail p quote

  -- The inner loop behind an opening quote: the token and what follows the closing quote. Each
  -- round reads a byte, so the count of bytes is fuel enough.
  unfoldable pub quoted : ℕ → Bytes → Result (Bytes × Bytes)
  quoted fuel [] = fail p quote
  quoted zero (c ∷ s) = fail p quote
  quoted (suc fuel) (c ∷ s) =
      let plain = (do later ← quoted fuel s; ok (c ∷ later.0, later.1)) in
      let escaped = (do
        first ← unescape s
        later ← quoted fuel first.1
        ok (first.0 ++ later.0, later.1)) in
      if c == b'"'
      then ok ([], s)
      else if ltb c 32
      then fail p quote
      else if not (c == b'\\')
      then plain
      else escaped

  unfoldable pub bare : Bytes → Result (Bytes × Bytes)
  bare [] = ok ([], [])
  bare (c ∷ s) =
      let later = (do rest ← bare s; ok (c ∷ rest.0, rest.1)) in
      if is_blank c
      then ok ([], c ∷ s)
      else if ltb c 32 || c == 127 || c == b'"'
      then fail p token
      else later

  -- One token at its first byte, and the bytes behind it.
  unfoldable pub read_token : ℕ → Bytes → Result (Bytes × Bytes)
  read_token c s =
      let between_quotes = (do
        t ← quoted (length s) s
        (if separated t.1 then ok t else fail p quote)) in
      if c == b'"' then between_quotes else bare (c ∷ s)

  -- `while (i<n)`, with the count of the tokens read.
  unfoldable pub lex_loop : ℕ → ℕ → Bytes → Result (List Bytes)
  lex_loop fuel count [] = ok []
  lex_loop zero count (c ∷ s) = fail p fields
  lex_loop (suc fuel) count (c ∷ s) =
      let skipped = lex_loop fuel count s in
      let taken = (do t ← read_token c s; ts ← lex_loop fuel (count + 1) t.1; ok (t.0 ∷ ts)) in
      if is_blank c
      then skipped
      else if c == b'#'
      then ok []
      else if count == 5
      then fail p fields
      else taken

  unfoldable pub lex : Bytes → Result (List Bytes)
  lex s = lex_loop (length s) 0 s

  unfoldable pub policy_tokens : Bytes → Result (List Bytes)
  policy_tokens s =
      if ltb 65536 (length s)
      then fail p line_limit
      else if not (valid_utf8 s)
      then fail p utf8
      else lex s
