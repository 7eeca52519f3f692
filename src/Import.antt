-- ===== src/Import.antt =====
-- src/filter/import.c: the tokens and the string lists of a generated Sieve script, and the quoting of a recovered rule.
pub mod ReadBack
pub mod Quoted
mod Shorter
pub mod Strings
mod Tests
use jaro_mail.Base.{
  ltb, leb, ◌==◌, if◌then◌else◌, ltb→lt, lt→ltb, leb→le, ==_iff, ==_refl, Bool-cases, Option-cases,
  &&-eq-true, within, length, get_elem?, drop, length-append, All, all, any, All-append,
  All-get_elem?, get_elem?-some, All-map, In, In-take-or-drop, In-drop, All-In, drop-length,
  All-of-In, List-cases, count, count-append, Bytes, codes, str_eq, str_eq_iff, in_set, strcmp,
  strcmp_iff, strcmp_antisymm, strcmp_trans, strcmp_lt_le_trans, StrLe, ℕ, zero, suc, ◌+◌, ◌-◌, ◌*◌,
  ◌/◌, ◌%◌, ◌^◌, ◌≤◌, ◌<◌, min, max, compare, Ordering, String, ◌≡◌, refl, sym, ap, ap₂, ◌∙◌, subst,
  ◌≡⟨◌⟩◌, ◌∎, ◌≢◌, ◌↔◌, ◌⊎◌, inl, inr, Bool, true, false, not, ◌&&◌, ◌||◌, Option, none, some, List,
  [], ◌∷◌, ◌++◌, map, foldl, append-nil, append_assoc, reverse, reverse-append, reverse-reverse,
  arith,
}
use jaro_mail.Result.{Result, ok, err, ◌>>=◌, memory, sieve_import}
use jaro_mail.Product.Buffer.{Buffer, empty, bytes_add, bytes_add_limit, product_error}
use jaro_mail.Policy.Build.{line_max}
use jaro_mail.Policy.Resolve.{rule_max}

-- The field `token`: 0, a byte of the punctuation, WORD or STRING.
pub data Token : Type 0 where
  finish word string : Token
  mark : ℕ → Token

-- The fields of struct parser that the tokenizer keeps; `rest` is the data from `pos` on. An error is
-- the result of the function, which `rc` holds in the source.
pub record Parser : Type 0 where
  pub rest : Bytes
  pub line : ℕ
  pub token_line : ℕ
  pub token : Token
  pub value : Bytes

-- Between two tokens: outside of comments, in one that ends with the line, or in a block.
pub data Gap : Type 0 where
  blank hash block : Gap

-- Where the loop over blanks and comments stops, with the line.
pub data Skipped : Type 0 where
  unterminated : ℕ → Skipped
  stopped : ℕ → Bytes → Skipped

abbrev count_line : ℕ → ℕ → ℕ
count_line line c = if c == b'\n' then line + 1 else line

unfoldable pub skip : Gap → ℕ → Bytes → Skipped
skip blank line [] = stopped line []
skip hash line [] = stopped line []
skip block line [] = unterminated line
skip block line (c ∷ []) = unterminated line
skip block line (c ∷ d ∷ s) =
    let out = skip blank line s in
    let more = skip block (count_line line c) (d ∷ s) in
    if c == b'*' && d == b'/' then out else more
skip hash line (c ∷ s) =
    let out = skip blank (line + 1) s in
    let more = skip hash line s in if c == b'\n' then out else more
skip blank line (c ∷ []) =
    if c == b' ' || c == b'\t' || c == b'\r' || c == b'\n'
    then stopped (count_line line c) []
    else if c == b'#'
    then stopped line []
    else stopped line (c ∷ [])
skip blank line (c ∷ d ∷ s) =
    let after_blank = skip blank (count_line line c) (d ∷ s) in
    let after_hash = skip hash line (d ∷ s) in
    let after_slash = skip block line s in
    if c == b' ' || c == b'\t' || c == b'\r' || c == b'\n'
    then after_blank
    else if c == b'#'
    then after_hash
    else if c == b'/' && d == b'*'
    then after_slash
    else stopped line (c ∷ d ∷ s)

-- `jf_bytes_add_limit` of one byte, or the error for memory.
unfoldable pub keep_byte {ℓ} : {A : Type ℓ} → Parser → Buffer → ℕ → (Buffer → Result A) → Result A
keep_byte p b c next = elim (bytes_add_limit b (c ∷ []) line_max) [
  | none ↦ product_error memory p.token_line
  | some b' ↦ next b'
]

-- A byte of a string, behind the tests that its form passes.
unfoldable pub string_byte :
    Parser → Buffer → ℕ → (Buffer → Result (Buffer × Bytes)) → Result (Buffer × Bytes)
string_byte p b c next =
    if ltb c 32 || c == 127 then product_error sieve_import p.token_line else keep_byte p b c next

-- The loop behind a quote; what is left is behind the closing one.
unfoldable pub string_loop : Parser → Buffer → Bytes → Result (Buffer × Bytes)
string_loop p b [] = product_error sieve_import p.token_line
string_loop p b (c ∷ []) =
    if c == b'"'
    then ok (b, [])
    else if c == b'\\'
    then product_error sieve_import p.token_line
    else string_byte p b c (λ b'. product_error sieve_import p.token_line)
string_loop p b (c ∷ d ∷ s) =
    let plain = string_byte p b c (λ b'. string_loop p b' (d ∷ s)) in
    let pair = string_byte p b d (λ b'. string_loop p b' s) in
    if c == b'"'
    then ok (b, d ∷ s)
    else if c == b'\\'
    then if d == b'"' || d == b'\\' then pair else product_error sieve_import p.token_line
    else plain

abbrev pub is_word_byte : ℕ → Bool
is_word_byte c =
    within b'a' b'z' c || within b'A' b'Z' c || within b'0' b'9' c || c == b'-' || c == b'_'

-- The loop over the bytes of a word.
unfoldable pub word_loop : Parser → Buffer → Bytes → Result (Buffer × Bytes)
word_loop p b [] = ok (b, [])
word_loop p b (c ∷ s) =
    let more = keep_byte p b c (λ b'. word_loop p b' s) in
    if is_word_byte c then more else ok (b, c ∷ s)

-- The closing NUL, and the new value.
unfoldable pub end_value : Parser → Token → Buffer × Bytes → Result Parser
end_value p token (b, rest) = elim (bytes_add_limit b (0 ∷ []) (line_max + 1)) [
  | none ↦ product_error memory p.token_line
  | some b' ↦ ok (record p { token = token; value = b.content; rest = rest })
]

-- `next`. `strchr` finds a NUL byte too, at the end of its string.
unfoldable pub next : Parser → Result Parser
next p = elim (skip blank p.line p.rest) [
  | unterminated line ↦ product_error sieve_import line
  | stopped line [] ↦
      ok (record p { rest = []; line = line; token_line = line; token = finish; value = [] })
  | stopped line (c ∷ s) ↦
      let here : Parser = record {
        rest = s;
        line = line;
        token_line = line;
        token = word;
        value = [];
      } in
      if c == 0
      then ok (record here { token = finish })
      else if in_set c (codes "{}[],;")
      then ok (record here { token = mark c })
      else if c == b'"'
      then (do r ← string_loop here empty s; end_value here string r)
      else keep_byte here empty c (λ b. do r ← word_loop here b s; end_value here word r)
]

-- `quote`, whose `char` is a byte; `none` is the status 3.
unfoldable pub quote_loop : Buffer → Bytes → Option Buffer
quote_loop b [] = bytes_add b (codes "\"")
quote_loop b (c ∷ s) = elim (if c == b'"' || c == b'\\' then bytes_add b (codes "\\") else some b) [
  | none ↦ none
  | some escaped ↦
      if ltb c 32
      then none
      else elim (bytes_add escaped (c ∷ [])) [ none ↦ none | some b' ↦ quote_loop b' s ]
]

unfoldable pub quote : Buffer → Bytes → Option Buffer
quote b s = elim (bytes_add b (codes "\"")) [ none ↦ none | some opened ↦ quote_loop opened s ]

unfoldable pub same_token : Token → Token → Bool
same_token finish finish = true
same_token word word = true
same_token string string = true
same_token (mark c) (mark d) = c == d
same_token _ _ = false

-- `take`: the token must be this one.
unfoldable pub take : Parser → Token → Result Parser
take p token = if same_token p.token token then next p else product_error sieve_import p.token_line

-- The loop of `strings`, with the number of strings that are held; `none` is without fuel. On an
-- error the strings read so far are left out.
unfoldable pub strings_loop : Bool → ℕ → ℕ → Parser → Option (Result (List Bytes × Parser))
strings_loop list zero count p = none
strings_loop list (suc fuel) count p =
    if not (same_token p.token string) || count == rule_max
    then some (product_error sieve_import p.token_line)
    else elim (next p) [
      | err why ↦ some (err why)
      | ok q ↦
          if not list
          then some (ok (p.value ∷ [], q))
          else if same_token q.token (mark b']')
          then some (next q >>= λ r. ok (p.value ∷ [], r))
          else elim (take q (mark b',')) [
            | err why ↦ some (err why)
            | ok r ↦ elim (strings_loop list fuel (count + 1) r) [
              | none ↦ none
              | some later ↦ some (later >>= λ more. ok (p.value ∷ more.0, more.1))
            ]
          ]
    ]

-- `strings`: one string, or a list of them in brackets.
unfoldable pub strings : Parser → Option (Result (List Bytes × Parser))
strings p =
    if same_token p.token (mark b'[')
    then elim (next p) [
      | err why ↦ some (err why)
      | ok q ↦ strings_loop true (length q.rest + 1) 0 q
    ]
    else strings_loop false (length p.rest + 1) 0 p
