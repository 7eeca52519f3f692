-- ===== src/Cache/Fields.antt =====
-- src/filter/cache.c: the tests that validation makes on single fields. A view is its bytes.
use jaro_mail.Base.{
  ltb, leb, ◌==◌, if◌then◌else◌, length, take, drop, all, Bytes, codes, str_eq, ℕ, zero, suc, ◌+◌,
  ◌-◌, ◌*◌, ◌/◌, ◌^◌, compare, Ordering, Bool, true, false, not, ◌&&◌, ◌||◌, Option, none, some,
  List, [], ◌∷◌, ◌++◌,
}
use jaro_mail.Text.Ascii.{control}
use jaro_mail.Text.Utf8.{valid_utf8}

unfoldable pub starts_with : Bytes → Bytes → Bool
starts_with v [] = true
starts_with [] (c ∷ s) = false
starts_with (b ∷ v) (c ∷ s) = b == c && starts_with v s

-- `safe_text`, where the text is no path: its bytes.
unfoldable pub no_control : Bytes → Bool
no_control [] = true
no_control (c ∷ s) = if control c then false else no_control s

-- The component up to here is empty, "." or "..".
abbrev pub bad_name : Bytes → Bool
bad_name w = str_eq w [] || str_eq w (codes ".") || str_eq w (codes "..")

-- The loop over the components, with the bytes of the current one.
unfoldable pub names_loop : Bytes → Bytes → Bool
names_loop word [] = not (bad_name word)
names_loop word (c ∷ s) =
    let next = names_loop [] s in
    let same = names_loop (word ++ c ∷ []) s in
    if c == b'/' then if bad_name word then false else next else same

unfoldable pub safe_text : Bytes → Bool → Bool
safe_text v relative =
    if str_eq v [] || not (valid_utf8 v) || relative && str_eq (take 1 v) (codes "/")
    then false
    else if not (no_control v)
    then false
    else if relative
    then names_loop [] v
    else true

-- `compare` on views: bytes, then lengths.
unfoldable pub compare_views : Bytes → Bytes → Ordering
compare_views [] [] = Ordering.eq
compare_views [] (b ∷ y) = Ordering.lt
compare_views (a ∷ x) [] = Ordering.gt
compare_views (a ∷ x) (b ∷ y) = elim (compare a b) [
  | Ordering.eq ↦ compare_views x y
  | other ↦ other
]

-- The digits of `decimal`, with the number so far; `none` where the source returns 0.
unfoldable pub decimal_loop : ℕ → Bytes → Option ℕ
decimal_loop n [] = some n
decimal_loop n (c ∷ s) =
    let d = c - b'0' in
    let later = decimal_loop (n * 10 + d) s in
    if ltb c b'0' || ltb 9 d || ltb ((2 ^ 64 - 1 - d) / 10) n then none else later

unfoldable pub read_decimal : Bytes → Option ℕ
read_decimal v =
    if str_eq v [] || ltb 1 (length v) && str_eq (take 1 v) (codes "0")
    then none
    else decimal_loop 0 v

abbrev pub is_hex : ℕ → Bool
is_hex c = leb b'0' c && leb c b'9' || leb b'a' c && leb c b'f'

-- The bytes before the colon, and those behind it.
unfoldable pub split_colon : Bytes → Option (Bytes × Bytes)
split_colon [] = none
split_colon (c ∷ s) =
    let later : Option (Bytes × Bytes) = elim (split_colon s) [
      | none ↦ none
      | some r ↦ some (c ∷ r.0, r.1)
    ] in
    if c == b':' then some ([], s) else later

-- `id`.
unfoldable pub valid_id : Bytes → Bool
valid_id v =
    if str_eq v (codes "builtin:bounce")
      || str_eq v (codes "builtin:spam")
      || str_eq v (codes "builtin:unsorted")
    then true
    else elim (split_colon v) [
      | none ↦ false
      | some r ↦
          length r.1 == 64
          && (str_eq r.0 (codes "r")
              || str_eq r.0 (codes "known")
              || str_eq r.0 (codes "blacklist")
              || str_eq r.0 (codes "own"))
          && all is_hex r.1
    ]

-- `read32` at the start of the bytes, with what follows; `none` where fewer than four are left.
unfoldable pub read32 : Bytes → Option (ℕ × Bytes)
read32 (a ∷ b ∷ c ∷ d ∷ s) = some (a + b * 2 ^ 8 + c * 2 ^ 16 + d * 2 ^ 24, s)
read32 s = none

-- One field: its length, and as many bytes.
unfoldable pub read_field : Bytes → Option (Bytes × Bytes)
read_field s = elim (read32 s) [
  | none ↦ none
  | some r ↦ if ltb (length r.1) r.0 then none else some (take r.0 r.1, drop r.0 r.1)
]

unfoldable pub no_nul : Bytes → Bool
no_nul [] = true
no_nul (c ∷ s) = not (c == 0) && no_nul s

-- The fields of a record that may hold a NUL: the digests, and what is auxiliary.
unfoldable pub nul_allowed : ℕ → ℕ → Bool
nul_allowed tag j = tag == b'D' && leb 3 j || tag == b'M' && leb 5 j

-- The fields of a record, from the `j`th on.
unfoldable pub read_fields : ℕ → ℕ → ℕ → Bytes → Option (List Bytes × Bytes)
read_fields tag j zero s = some ([], s)
read_fields tag j (suc n) s = elim (read_field s) [
  | none ↦ none
  | some r ↦ elim (read_fields tag (j + 1) n r.1) [
    | none ↦ none
    | some later ↦ if nul_allowed tag j || no_nul r.0 then some (r.0 ∷ later.0, later.1) else none
  ]
]

-- The number of the fields; 0 for a tag that is unknown.
unfoldable pub field_count : ℕ → ℕ
field_count tag =
    if tag == b'M' then 7 else if tag == b'D' then 5 else if tag == b'R' then 12 else 0

-- The tag and the fields of a record.
unfoldable pub read_record : Bytes → Option (ℕ × List Bytes × Bytes)
read_record [] = none
read_record (tag ∷ s) = elim (read32 s) [
  | none ↦ none
  | some r ↦ elim (read_fields tag 0 r.0 r.1) [
    | none ↦ none
    | some f ↦ if not (r.0 == field_count tag) || r.0 == 0 then none else some (tag, f.0, f.1)
  ]
]
