-- ===== src/Text/Mailbox.antt =====
-- src/filter/policy.c, jf_valid_mailbox and jf_normalize_mailbox.
use jaro_mail.Base.{
  ltb, ◌==◌, if◌then◌else◌, length, Bytes, ℕ, ◌+◌, Bool, false, not, ◌&&◌, ◌||◌, Option, none, some,
  [], ◌∷◌, ◌++◌,
}
use jaro_mail.Text.Ascii.{atext, control}
use jaro_mail.Text.Domain.{valid_domain}

-- What follows the closing quote of a quoted local part, or `none` where the source returns 0.
-- The flag says that the byte before was a backslash.
unfoldable pub quoted_rest : Bool → Bytes → Option Bytes
quoted_rest escaped [] = none
quoted_rest escaped (c ∷ s) =
    let rest = quoted_rest (not escaped && c == b'\\') s in
    if not escaped && c == b'"'
    then some s
    else if not (not escaped && c == b'\\') && control c
    then none
    else rest

-- `*p++!='@'` behind the closing quote.
unfoldable pub at_sign : Bytes → Option Bytes
at_sign [] = none
at_sign (c ∷ s) = if c == b'@' then some s else none

-- What follows the `@` of a dot-atom local part; the flag is `component`.
unfoldable pub local_rest : Bool → Bytes → Option Bytes
local_rest component [] = none
local_rest component (c ∷ s) =
    let rest = local_rest (not (c == b'.')) s in
    if c == b'@'
    then if component then some s else none
    else if c == b'.'
    then if component then rest else none
    else if atext c
    then rest
    else none

-- What follows the `@`, or `none` where the local part is refused.
unfoldable pub domain_part : Bytes → Option Bytes
domain_part [] = none
domain_part (c ∷ s) =
    if c == b'"'
    then elim (quoted_rest false s) [ none ↦ none | some rest ↦ at_sign rest ]
    else local_rest false (c ∷ s)

unfoldable pub valid_mailbox : Bytes → Bool
valid_mailbox s = elim (domain_part s) [ none ↦ false | some d ↦ valid_domain d ]

-- `while (s[read]!='"')`: the decoded local part and what follows the closing quote.
unfoldable pub unquote : Bool → Bytes → Bytes × Bytes
unquote escaped [] = ([], [])
unquote escaped (c ∷ s) =
    let later = unquote (not escaped && c == b'\\') s in
    if not escaped && c == b'"'
    then ([], s)
    else if not escaped && c == b'\\'
    then later
    else (c ∷ later.0, later.1)

-- Whether the decoded local part must stay quoted; the flag is `component`.
unfoldable pub needs_quotes : Bool → Bytes → Bool
needs_quotes component [] = not component
needs_quotes component (c ∷ s) =
    (if c == b'.' then not component else not (atext c)) || needs_quotes (not (c == b'.')) s

abbrev pub is_escaped : ℕ → Bool
is_escaped c = c == b'"' || c == b'\\'

-- The count `escapes`.
unfoldable pub escapes : Bytes → ℕ
escapes [] = 0
escapes (c ∷ s) = (if is_escaped c then 1 else 0) + escapes s

-- What the loop that writes backwards leaves between the quotes.
unfoldable pub escape : Bytes → Bytes
escape [] = []
escape (c ∷ s) = if is_escaped c then b'\\' ∷ c ∷ escape s else c ∷ escape s

abbrev pub line_max : ℕ
line_max = 65536

-- `decoded` and `after` are what `unquote` gives for the string `s`, `after` without the NUL.
unfoldable pub requote : Bytes → Bytes → Bytes → Option Bytes
requote s [] after = none
requote s (c ∷ decoded) after =
    let local = c ∷ decoded in
    if not (needs_quotes false local)
    then some (local ++ after)
    else if ltb (length s + 1) (length local + escapes local + 2 + (length after + 1))
    then none
    else some (b'"' ∷ escape local ++ b'"' ∷ after)

-- `none` where the source returns 0; else the contents of the buffer.
unfoldable pub normalize_mailbox : Bytes → Option Bytes
normalize_mailbox [] = none
normalize_mailbox (c ∷ s) =
    if ltb line_max (length (c ∷ s)) || not (valid_mailbox (c ∷ s))
    then none
    else if not (c == b'"')
    then some (c ∷ s)
    else requote (c ∷ s) (unquote false s).0 (unquote false s).1
