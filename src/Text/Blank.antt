-- ===== src/Text/Blank.antt =====
-- The blanks that the lexer and the raw comparisons skip: SP and HTAB.
use jaro_mail.Base.{◌==◌, if◌then◌else◌, Bytes, ℕ, Bool, true, false, ◌||◌, [], ◌∷◌}

abbrev pub is_blank : ℕ → Bool
is_blank c = c == b' ' || c == b'\t'

-- `while (start<n && blank) start++`.
unfoldable pub trim_start : Bytes → Bytes
trim_start [] = []
trim_start (c ∷ s) = elim (is_blank c) [ true ↦ trim_start s | false ↦ c ∷ s ]

-- `while (n>start && blank) n--`.
unfoldable pub trim_end : Bytes → Bytes
trim_end [] = []
trim_end (c ∷ s) = elim (trim_end s) [
  | [] ↦ if is_blank c then [] else c ∷ []
  | x ∷ xs ↦ c ∷ x ∷ xs
]
