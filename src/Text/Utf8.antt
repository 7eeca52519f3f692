-- ===== src/Text/Utf8.antt =====
-- src/filter/policy.c, jf_valid_utf8 and encode. On bytes and code points in range the masks and
-- shifts of the source are remainders and quotients by powers of two, and each `|` joins disjoint
-- bits, so it is a sum.
pub mod Scalars
use jaro_mail.Base.{
  ℕ, zero, suc, ◌+◌, ◌*◌, ◌/◌, ◌%◌, Bool, true, false, ◌||◌, Option, none, some, [], ◌∷◌, ltb, ◌==◌,
  if◌then◌else◌, within, length, Bytes,
}

-- The three cases of a lead byte: continuation bytes needed, least code point, and the bits kept.
lead : ℕ → Option (ℕ × ℕ × ℕ)
lead c =
    if within 0xc2 0xdf c
    then some (1, 0x80, c % 32)
    else if within 0xe0 0xef c
    then some (2, 0x800, c % 16)
    else if within 0xf0 0xf4 c
    then some (3, 0x10000, c % 8)
    else none

-- `while (need--)`: the code point and the unread bytes, or `none` where the source returns 0.
continuation : ℕ → ℕ → Bytes → Option (ℕ × Bytes)
continuation zero c s = some (c, s)
continuation (suc need) c [] = none
continuation (suc need) c (b ∷ s) =
    if b / 64 == 2 then continuation need (c * 64 + b % 64) s else none

-- The last test of the loop's body.
unfoldable pub rejected : ℕ → ℕ → Bool
rejected least c = ltb c least || ltb 0x10ffff c || within 0xd800 0xdfff c

-- The loop's body on the byte read and the bytes that follow it.
unfoldable pub decode : ℕ → Bytes → Option (ℕ × Bytes)
unfolding lead continuation rejected
decode c s = if c == 0 then none else if ltb c 128 then some (c, s) else elim (lead c) [
  | none ↦ none
  | some (need, least, bits) ↦ elim (continuation need bits s) [
    | none ↦ none
    | some (v, rest) ↦ if rejected least v then none else some (v, rest)
  ]
]

-- `while (i<n)`; each round reads a byte, so the count of bytes is fuel enough.
unfoldable pub utf8_loop : ℕ → Bytes → Bool
utf8_loop fuel [] = true
utf8_loop zero (c ∷ s) = false
utf8_loop (suc fuel) (c ∷ s) = elim (decode c s) [
  | none ↦ false
  | some (v, rest) ↦ utf8_loop fuel rest
]

unfoldable pub valid_utf8 : Bytes → Bool
valid_utf8 s = utf8_loop (length s) s

-- The bytes that `encode` writes for a code point.
unfoldable pub encode : ℕ → Bytes
encode c =
    if ltb c 0x80
    then c ∷ []
    else if ltb c 0x800
    then (0xc0 + c / 64) ∷ (0x80 + c % 64) ∷ []
    else if ltb c 0x10000
    then (0xe0 + c / 4096) ∷ (0x80 + c / 64 % 64) ∷ (0x80 + c % 64) ∷ []
    else (0xf0 + c / 262144) ∷ (0x80 + c / 4096 % 64) ∷ (0x80 + c / 64 % 64) ∷ (0x80 + c % 64) ∷ []
