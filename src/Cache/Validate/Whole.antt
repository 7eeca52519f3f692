-- ===== src/Cache/Validate/Whole.antt =====
-- src/filter/cache.c: jf_cache_validate and jf_cache_policy, where the allocations succeed.
use jaro_mail.Base.{
  leb, ◌==◌, if◌then◌else◌, length, take, drop, count, Bytes, codes, str_eq, ℕ, zero, suc, ◌+◌, ◌-◌,
  ◌*◌, Bool, true, false, not, ◌&&◌, ◌||◌, Option, none, some, List, [], ◌∷◌,
}
use jaro_mail.Result.{Result, ok, err, cache}
use jaro_mail.Sha256.{hex}
use jaro_mail.Product.Buffer.{◌>>=◌, cache_file_size, digest, digest_hex}
use jaro_mail.Policy.Rules.{Policy}
use jaro_mail.Policy.Resolve.{Library, rule_max, builtin_rules}
use jaro_mail.Cache.Encode.{dependency_max}
use jaro_mail.Cache.Fields.{read32, read_record}
use jaro_mail.Cache.Dependencies.{read_views}
use jaro_mail.Cache.Restore.{CachedRule, policy_restore}
use jaro_mail.Cache.Validate.{Catalogue, Scan, first_scan, only_if, meta_step, dependency_step}
use jaro_mail.Cache.Validate.Rule.{rule_step}

-- The products that a cache is checked against; a null pointer is `none`.
pub record Expected : Type 0 where
  pub zsh : Option Bytes
  pub sieve : Option Bytes
  pub fingerprint : Option Bytes

abbrev pub nothing_expected : Expected
nothing_expected = record { zsh = none; sieve = none; fingerprint = none }

-- The bytes of a record of which `rest` is left.
abbrev consumed : Bytes → Bytes → Bytes
consumed s rest = take (length s - length rest) s

module _ (c : Catalogue) (expected : Expected) where
  -- One record, the `i`th, with `n` behind it.
  unfoldable pub record_step : ℕ → ℕ → Scan → Bytes → ℕ → List Bytes → Option Scan
  record_step i n s raw tag fields =
      if tag == b'M'
      then meta_step expected.zsh expected.sieve i s fields
      else if tag == b'D'
      then dependency_step c s raw fields
      else rule_step s (n == 0) fields

  -- `for (i=0;i<count;i++)`, with what is left of the count and of the bytes.
  unfoldable pub validate_loop : ℕ → ℕ → Scan → Bytes → Option (Scan × Bytes)
  validate_loop i zero s bytes = some (s, bytes)
  validate_loop i (suc n) s bytes = elim (read_record bytes) [
    | none ↦ none
    | some r ↦ elim (record_step i n s (consumed bytes r.2) r.0 r.1) [
      | none ↦ none
      | some next ↦ validate_loop (i + 1) n next r.2
    ]
  ]

-- The value of little-endian bytes.
abbrev little : Bytes → ℕ
little [] = 0
little (b ∷ s) = b + 256 * little s

-- `read32(data+n)`; 0 past the end, which no caller reads.
unfoldable pub word_at : ℕ → Bytes → ℕ
word_at n bytes = elim (read32 (drop n bytes)) [ none ↦ 0 | some r ↦ r.0 ]

-- The tests on the first 92 bytes; `none` is bad, else the number of the records.
unfoldable pub read_header : Expected → Bytes → Option ℕ
read_header expected bytes =
    let count = word_at 88 bytes in
    only_if
      (leb 92 (length bytes)
        && (elim (cache_file_size (length bytes - 88)) [ none ↦ false | some total ↦ true ])
        && str_eq (take 8 bytes) (codes "JFNCACHE")
        && word_at 8 bytes == 1
        && word_at 12 bytes == 1
        && little (take 8 (drop 16 bytes)) == length bytes - 88
        && (elim expected.fingerprint [ none ↦ true | some f ↦ str_eq f (take 32 (drop 24 bytes)) ])
        && str_eq (digest (drop 88 bytes)) (take 32 (drop 56 bytes))
        && leb (1 + builtin_rules) count
        && leb count (1 + dependency_max + (rule_max + builtin_rules)))
      (some count)

-- The tests behind the loop.
unfoldable pub complete : Bytes → Scan × Bytes → Bool
complete bytes (s, rest) =
    str_eq rest []
    && s.bounce == 1
    && s.spam == 1
    && s.fallback == 1
    && s.normalization
    && (not s.regex_profile || s.qualification && s.catalogue)
    && str_eq (hex s.hash) (digest_hex (take 32 (drop 24 bytes)))

unfoldable pub cache_validate : Catalogue → Expected → Bytes → Result {0} Unit
cache_validate c expected bytes =
    let accepted = (do
      count ← read_header expected bytes
      scan ← validate_loop c expected 0 count first_scan (drop 92 bytes)
      only_if (complete bytes scan) (some tt)) in
    elim accepted [
      | none ↦ err (record { code = cache; status = 5; source = none; line = 0 })
      | some u ↦ ok tt
    ]

-- The views of one rule: as many as the array has, all of them set; else `none`.
unfoldable pub rule_views : List Bytes → Option CachedRule
rule_views (f0 ∷ f1 ∷ f2 ∷ f3 ∷ f4 ∷ f5 ∷ f6 ∷ f7 ∷ f8 ∷ f9 ∷ f10 ∷ f11 ∷ []) = some (record {
  stage = f1;
  kind = f2;
  fields = f3;
  id = f4;
  predicate = f5;
  logical = f6;
  local = f7;
  sieve = f8;
  source = f9;
  line = f10;
})
rule_views fields = none

-- The loops that count the rules and fill their views; they make no test, so `none` is a read outside
-- the bytes, or a view outside its array or not set.
unfoldable pub views_loop : ℕ → Bytes → Option (List CachedRule)
views_loop zero bytes = some []
views_loop (suc n) [] = none
views_loop (suc n) (tag ∷ bytes) = do
  r ← read32 bytes
  f ← read_views r.0 r.1
  later ← views_loop n f.1
  if tag == b'R' then (do rule ← rule_views f.0; some (rule ∷ later)) else some later

-- `none` is a read or a write outside the bytes or the views.
unfoldable pub cache_policy : Catalogue → Library → Bytes → Option (Result Policy)
cache_policy c library bytes = elim (cache_validate c nothing_expected bytes) [
  | err why ↦ some (err why)
  | ok u ↦ elim (views_loop (word_at 88 bytes) (drop 92 bytes)) [
    | none ↦ none
    | some rules ↦ some (policy_restore library rules)
  ]
]
