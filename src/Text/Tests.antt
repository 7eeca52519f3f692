-- ===== src/Text/Tests.antt =====
-- The byte-level checks at concrete inputs.
use jaro_mail.Base.{All, ℕ, ◌≡◌, ◌↔◌, true, List, [], ◌∷◌}
use jaro_mail.Text.Utf8.{valid_utf8}
use jaro_mail.Text.Utf8.Scalars.{IsScalar, encode_all, valid_utf8_iff}

valid_utf8_iff_example :
    (valid_utf8 (0xc3 ∷ 0xa9 ∷ []) ≡ true)
    ↔ ((cs : List ℕ) × All IsScalar cs × (0xc3 ∷ 0xa9 ∷ [] ≡ encode_all cs))
valid_utf8_iff_example = valid_utf8_iff (0xc3 ∷ 0xa9 ∷ [])
