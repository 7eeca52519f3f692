-- ===== src/Product/Quote.antt =====
-- src/filter/emit.c, quote_zsh and quote_sieve.
pub mod ReadBack
pub mod SieveString
use jaro_mail.Base.{
  ltb, leb, ◌==◌, if◌then◌else◌, ltb→lt, lt→ltb, leb→le, ==_iff, ==_refl, Bool-cases, Option-cases,
  &&-eq-true, within, length, get_elem?, take, drop, length-append, All, all, any, All-append,
  All-get_elem?, get_elem?-some, All-map, In, In-take-or-drop, In-drop, All-In, drop-length, Bytes,
  codes, str_eq, str_eq_iff, in_set, strcmp, strcmp_iff, strcmp_antisymm, strcmp_trans,
  strcmp_lt_le_trans, StrLe, ℕ, zero, suc, ◌+◌, ◌-◌, ◌*◌, ◌/◌, ◌%◌, ◌^◌, ◌≤◌, ◌<◌, min, max,
  compare, Ordering, String, ◌≡◌, refl, sym, ap, ap₂, ◌∙◌, subst, ◌≡⟨◌⟩◌, ◌∎, ◌≢◌, ◌↔◌, ◌⊎◌, inl,
  inr, Bool, true, false, not, ◌&&◌, ◌||◌, Option, none, some, List, [], ◌∷◌, ◌++◌, map, foldl,
  append-nil, append_assoc, reverse, reverse-append, reverse-reverse, arith,
}
use jaro_mail.Product.Buffer.{Buffer, ◌>>=◌, bytes_add}

-- The body of the loop, and the closing quote.
unfoldable pub zsh_loop : Buffer → Bytes → Option Buffer
zsh_loop b [] = bytes_add b (codes "'")
zsh_loop b (c ∷ s) = do
  next ← bytes_add b (if c == b'\'' then codes "'\\''" else c ∷ [])
  zsh_loop next s

unfoldable pub quote_zsh : Buffer → Bytes → Option Buffer
quote_zsh b s = do opened ← bytes_add b (codes "'"); zsh_loop opened s

unfoldable pub sieve_loop : Buffer → Bytes → Option Buffer
sieve_loop b [] = bytes_add b (codes "\"")
sieve_loop b (c ∷ s) = do
  escaped ← (if c == b'"' || c == b'\\' then bytes_add b (codes "\\") else some b)
  next ← bytes_add escaped (c ∷ [])
  sieve_loop next s

unfoldable pub quote_sieve : Buffer → Bytes → Option Buffer
quote_sieve b s = do opened ← bytes_add b (codes "\""); sieve_loop opened s
