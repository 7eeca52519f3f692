-- ===== src/Product/Regex.antt =====
-- src/filter/regex_subset.c, jf_regex_supported. A pattern is a string, so it holds no NUL.
use jaro_mail.Base.{
  ltb, ◌==◌, if◌then◌else◌, length, Bytes, codes, str_eq, in_set, ℕ, zero, suc, Bool, true, false,
  ◌&&◌, ◌||◌, Option, none, some, [], ◌∷◌,
}

abbrev pub escapable : Bytes
escapable = codes ".\\+?*(){}|^$["

abbrev pub special : Bytes
special = codes "^$+?*(){}|[]"

-- What follows a bracket expression of one dot, if `s` starts with the rest of one.
unfoldable pub after_dot : Bytes → Option Bytes
after_dot (c ∷ d ∷ s) = if c == b'.' && d == b']' then some s else none
after_dot s = none

-- `for (;*p;p++)`; a round reads a byte at least.
unfoldable pub regex_loop : ℕ → Bytes → Bool
regex_loop fuel [] = true
regex_loop zero (c ∷ s) = false
regex_loop (suc fuel) (c ∷ s) =
    let next = regex_loop fuel s in
    let plain = if in_set c special then false else next in
    let escaped : Bool = elim s [
      | [] ↦ false
      | d ∷ later ↦ if in_set d escapable then regex_loop fuel later else false
    ] in
    let bracket : Bool = elim (after_dot s) [ none ↦ plain | some later ↦ regex_loop fuel later ] in
    if ltb c 32 || ltb 126 c
    then false
    else if c == b'$' && str_eq s []
    then true
    else if c == b'\\'
    then escaped
    else if c == b'['
    then bracket
    else plain

abbrev after_caret : Bytes → Bytes
after_caret [] = []
after_caret (c ∷ s) = if c == b'^' then s else c ∷ s

unfoldable pub regex_supported : Bytes → Bool
regex_supported pattern =
    let s = after_caret pattern in
    if str_eq s [] || str_eq s (codes "$") then false else regex_loop (length s) s
