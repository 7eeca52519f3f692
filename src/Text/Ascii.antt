-- ===== src/Text/Ascii.antt =====
-- src/filter/policy.c, alnum_ascii and fold; the byte class of a local part in jf_valid_mailbox; the
-- control-byte test that the checks on text share. A byte of the program is a number below 256.
use jaro_mail.Base.{
  ltb, leb, ◌==◌, if◌then◌else◌, within, Bytes, codes, in_set, ℕ, ◌+◌, ◌-◌, ◌≡◌, refl, ◌≢◌, Bool,
  true, ◌||◌, [], ◌∷◌, arith,
}

unfoldable pub alnum_ascii : ℕ → Bool
alnum_ascii c = within b'a' b'z' c || within b'A' b'Z' c || within b'0' b'9' c

abbrev specials : Bytes
specials = codes "!#$%&'*+-/=?^_`{|}~"

-- The negation of `c<128 && !alnum_ascii(c) && !strchr("...",c)`.
unfoldable pub atext : ℕ → Bool
unfolding alnum_ascii
atext c = leb 128 c || alnum_ascii c || in_set c specials

-- `c<32 || c==127`.
abbrev pub control : ℕ → Bool
control c = ltb c 32 || c == 127

-- `fold` of classify.c on one byte; that of policy.c maps it over a string.
unfoldable pub fold_byte : ℕ → ℕ
fold_byte c = if within b'A' b'Z' c then c + b'a' - b'A' else c

unfoldable pub fold : Bytes → Bytes
fold [] = []
fold (c ∷ s) = fold_byte c ∷ fold s

pub fold-fold : (s : Bytes) → fold (fold s) ≡ fold s
unfolding fold fold_byte
fold-fold [] = refl
fold-fold (c ∷ s) = ground (arith, fold-fold s)

pub atext-ne-quote : (c : ℕ) → atext c ≡ true → (c ≢ b'"') × (c ≢ b'@') × (c ≢ b'.')
unfolding atext in_set
atext-ne-quote c h = ground arith
