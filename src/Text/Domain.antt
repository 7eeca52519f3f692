-- ===== src/Text/Domain.antt =====
-- src/filter/policy.c, jf_valid_domain.
use jaro_mail.Base.{
  ltb, ◌==◌, if◌then◌else◌, length, Bytes, ℕ, ◌+◌, Bool, false, not, ◌&&◌, ◌||◌, [], ◌∷◌,
}
use jaro_mail.Text.Ascii.{alnum_ascii}

-- The loop over the bytes, with the length of the current label and the byte before.
unfoldable pub domain_loop : ℕ → ℕ → Bytes → Bool
domain_loop label prev [] = not (label == 0) && not (prev == b'-')
domain_loop label prev (c ∷ s) =
    let after_dot = domain_loop 0 c s in
    let inside = domain_loop (label + 1) c s in
    if c == b'.'
    then if label == 0 || prev == b'-' then false else after_dot
    else if not (alnum_ascii c) && not (c == b'-') || label == 0 && c == b'-' || ltb 63 (label + 1)
    then false
    else inside

unfoldable pub valid_domain : Bytes → Bool
valid_domain s = if length s == 0 || ltb 253 (length s) then false else domain_loop 0 0 s
