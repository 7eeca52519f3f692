-- ===== src/Product/Buffer.antt =====
-- src/filter/product_util.c: buffers that grow up to a limit, where the allocations succeed.
pub mod Growth
use jaro_mail.Base.{
  ltb, leb, ◌==◌, if◌then◌else◌, ltb→lt, lt→ltb, leb→le, ==_iff, ==_refl, Bool-cases, Option-cases,
  &&-eq-true, within, length, get_elem?, take, drop, length-append, All, all, any, All-append,
  All-get_elem?, get_elem?-some, All-map, In, In-take-or-drop, In-drop, All-In, drop-length, Bytes,
  codes, str_eq, str_eq_iff, in_set, strcmp, strcmp_iff, strcmp_antisymm, strcmp_trans,
  strcmp_lt_le_trans, StrLe, ℕ, zero, suc, ◌+◌, ◌-◌, ◌*◌, ◌/◌, ◌%◌, ◌^◌, ◌≤◌, ◌<◌, min, max,
  compare, Ordering, String, ◌≡◌, refl, sym, ap, ap₂, ◌∙◌, subst, ◌≡⟨◌⟩◌, ◌∎, ◌≢◌, ◌↔◌, ◌⊎◌, inl,
  inr, Bool, true, false, not, ◌&&◌, ◌||◌, Option, none, some, List, [], ◌∷◌, ◌++◌, map, foldl,
  append-nil, append_assoc, reverse, reverse-append, reverse-reverse, arith,
}
use jaro_mail.Result.{Result, err, Code, memory}
use jaro_mail.Sha256.{init, update, hex, hex_digit}

-- struct jf_bytes; the size is the length of the data.
pub record Buffer : Type 0 where
  pub content : Bytes
  pub capacity : ℕ

-- Two writes one after the other, where the source returns at the first that fails.
infixl 5 ◌>>=◌
abbrev pub ◌>>=◌ : {S : Type 0} {T : Type 0} → Option S → (S → Option T) → Option T
none >>= next = none
some written >>= next = next written

abbrev pub empty : Buffer
empty = record { content = []; capacity = 0 }

abbrev pub cache_max : ℕ
cache_max = 128 * 1024 * 1024

abbrev pub cache_header_size : ℕ
cache_header_size = 88

abbrev pub cache_file_max : ℕ
cache_file_max = cache_max + cache_header_size

unfoldable pub bytes_fits : ℕ → ℕ → ℕ → Bool
bytes_fits used added limit = leb used limit && leb added (limit - used)

-- `none` is the status 3.
unfoldable pub cache_file_size : ℕ → Option ℕ
cache_file_size payload =
    if ltb cache_max payload || not (bytes_fits cache_header_size payload cache_file_max)
    then none
    else some (cache_header_size + payload)

-- `while (cap<b->size+n) cap=cap>limit/2 ? limit : cap*2`, with `need` for the sum.
unfoldable pub capacity_loop : ℕ → ℕ → ℕ → ℕ → ℕ
capacity_loop zero limit need cap = cap
capacity_loop (suc fuel) limit need cap =
    let larger = capacity_loop fuel limit need (if ltb (limit / 2) cap then limit else cap * 2) in
    if ltb cap need then larger else cap

-- The capacity that is asked of realloc; every round adds to it, so `need` rounds are enough.
unfoldable pub new_capacity : ℕ → ℕ → ℕ → ℕ
new_capacity capacity limit need =
    capacity_loop need limit need
      (if not (capacity == 0) then capacity else if ltb limit 256 then limit else 256)

-- `none` is the status 3.
unfoldable pub bytes_add_limit : Buffer → Bytes → ℕ → Option Buffer
bytes_add_limit b s limit =
    let need = length b.content + length s in
    if not (bytes_fits (length b.content) (length s) limit)
    then none
    else some (record {
      content = b.content ++ s;
      capacity = if ltb b.capacity need then new_capacity b.capacity limit need else b.capacity;
    })

unfoldable pub bytes_add : Buffer → Bytes → Option Buffer
bytes_add b s = bytes_add_limit b s cache_max

-- `jf_digest_hex`.
unfoldable pub digest_hex : Bytes → Bytes
digest_hex [] = []
digest_hex (d ∷ ds) = hex_digit (d / 16) ∷ hex_digit (d % 16) ∷ digest_hex ds

-- The value of a digit that `hex` wrote.
abbrev digit_value : ℕ → ℕ
digit_value c = if leb c b'9' then c - b'0' else c - b'a' + 10

-- Two digits to a byte.
unfoldable pub pair_digits : Bytes → Bytes
pair_digits [] = []
pair_digits (a ∷ []) = []
pair_digits (a ∷ b ∷ s) = (digit_value a * 16 + digit_value b) % 256 ∷ pair_digits s

unfoldable pub digest : Bytes → Bytes
digest s = pair_digits (hex (update init s))

-- `jf_product_error`; the status is 3 for E_MEMORY (and E_IO, which no modelled function raises).
unfoldable pub product_error {ℓ} : {A : Type ℓ} → Code → ℕ → Result A
product_error code line = err (record {
  code = code;
  status = elim code [ Code.memory ↦ 3 | _ ↦ 4 ];
  source = none;
  line = line;
})
