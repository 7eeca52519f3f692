-- ===== src/Cache/Build.antt =====
-- src/filter/cache.c, jf_products_build, up to the validation of what was built.
use jaro_mail.Base.{
  ltb, if◌then◌else◌, length, Bytes, codes, str_eq, strcmp, ℕ, ◌+◌, ◌%◌, ◌^◌, Ordering, Bool, false,
  not, ◌&&◌, ◌||◌, Option, none, some, List, [], ◌∷◌, map,
}
use jaro_mail.Result.{Result, ok, err, Code, memory, mailbox_mapping}
use jaro_mail.Sorter.Defs.{Sorter}
use jaro_mail.Policy.Rules.{Rule}
use jaro_mail.Policy.Resolve.{rule_max, builtin_rules}
use jaro_mail.Product.Buffer.{
  Buffer, ◌>>=◌, empty, bytes_add, bytes_add_limit, cache_file_max, cache_file_size, digest,
  digest_hex, product_error,
}
use jaro_mail.Product.Emit.{Output, kind_name, emit_text}
use jaro_mail.Profile.{Profile}
use jaro_mail.Profile.Mailbox.{profile_mailbox}
use jaro_mail.Cache.Encode.{
  u32, u64, field, number, Dependency, dependency, dep_compare, dependency_max, exhausted,
  duplicate, inventory, dependencies_inventory,
}

-- struct mailbox_ref.
pub record MailboxRef : Type 0 where
  pub mailbox : Bytes
  pub logical : Bytes

unfoldable pub mailbox_compare : MailboxRef → MailboxRef → Ordering
mailbox_compare x y = elim (strcmp x.mailbox y.mailbox) [
  | Ordering.eq ↦ strcmp x.logical y.logical
  | other ↦ other
]

-- Two neighbours with one mailbox and different logical destinations.
unfoldable pub mapping_clash : List MailboxRef → Bool
mapping_clash [] = false
mapping_clash (x ∷ []) = false
mapping_clash (x ∷ y ∷ ms) =
    str_eq x.mailbox y.mailbox && not (str_eq x.logical y.logical) || mapping_clash (y ∷ ms)

-- The mailbox of every rule; `none` is a failure to write one.
unfoldable pub all_mailboxes : Profile → List Rule → Option (List (Rule × Bytes))
all_mailboxes p [] = some []
all_mailboxes p (r ∷ rs) = do
  m ← profile_mailbox p r
  rest ← all_mailboxes p rs
  some ((r, m) ∷ rest)

unfoldable pub write_dependencies : Buffer → List Dependency → Option Buffer
write_dependencies b [] = some b
write_dependencies b (d ∷ ds) = do b ← dependency b d; write_dependencies b ds

-- The record of a rule, the `i`th of the policy.
unfoldable pub write_rule : Buffer → ℕ → Rule → Bytes → Option Buffer
write_rule b i r mailbox = do
  b ← bytes_add b (codes "R")
  b ← u32 b 12
  b ← number b (i + 1)
  b ← number b r.stage
  b ← field b (kind_name r.kind)
  b ← number b r.fields
  b ← field b r.id
  b ← field b r.predicate
  b ← field b r.logical
  b ← field b r.local
  b ← field b mailbox
  b ← field b r.source
  b ← number b r.line
  field b r.action

unfoldable pub write_rules : Buffer → ℕ → List (Rule × Bytes) → Option Buffer
write_rules b i [] = some b
write_rules b i (r ∷ rs) = do b ← write_rule b i r.0 r.1; write_rules b (i + 1) rs

-- The payload: the number of records, the record of the profile and the digests, the dependencies in
-- order, and the rules.
unfoldable pub write_payload :
    Profile → List Dependency → List (Rule × Bytes) → Bytes → Bytes → Option Buffer
write_payload p deps rs zsh_text sieve_text = do
  b ← u32 empty ((1 + length deps + length rs) % 2 ^ 32)
  b ← bytes_add b (codes "M")
  b ← u32 b 7
  b ← field b (codes "jaromail-filter-compiler-v2")
  b ← field b p.id
  b ← field b (codes "posix-ere-c-icase-v1")
  b ← field b (codes "ascii-mailbox-casemap-v1")
  b ← field b (codes "i;ascii-casemap")
  b ← field b (digest zsh_text)
  b ← field b (digest sieve_text)
  b ← write_dependencies b deps
  write_rules b 0 rs

-- The header of the cache and its payload.
unfoldable pub write_cache : Bytes → Bytes → Option Buffer
write_cache fingerprint payload = do
  size ← cache_file_size (length payload)
  b ← bytes_add empty (codes "JFNCACHE")
  b ← u32 b 1
  b ← u32 b 1
  b ← u64 b (length payload)
  b ← bytes_add b fingerprint
  b ← bytes_add b (digest payload)
  bytes_add_limit b payload cache_file_max

-- struct jf_products.
pub record Products : Type 0 where
  pub zsh : Bytes
  pub sieve : Bytes
  pub cache : Bytes
  pub fingerprint : Bytes
  pub id : Bytes

-- `goto memory`.
abbrev or_memory : {S T : Type 0} → Option S → (S → Result T) → Result T
or_memory none next = product_error memory 0
or_memory (some s) next = next s

unfoldable pub products_build : Sorter → Profile → List Rule → List Dependency → Result Products
products_build sorter p rules deps =
    let n = length rules in
    let map_refs = λ (rs : List (Rule × Bytes)).
      map (λ (r : Rule × Bytes). record { mailbox = r.1; logical = r.0.logical }) rs in
    let output : Output = record { create = p.create; regex = p.regex } in
    if ltb dependency_max (length deps) || ltb n builtin_rules || ltb (rule_max + builtin_rules) n
    then product_error memory 0
    else or_memory (all_mailboxes p rules) (λ rs.
      if mapping_clash (sorter.sort MailboxRef mailbox_compare (map_refs rs))
      then product_error mailbox_mapping 0
      else elim (emit_text output rs empty empty) [
        | err e ↦ err e
        | ok texts ↦ elim (dependencies_inventory sorter deps) [
          | exhausted ↦ product_error memory 0
          | duplicate ↦ product_error Code.dependency 0
          | inventory b ↦
              let fingerprint = digest b.content in
              let sorted = sorter.sort Dependency dep_compare deps in
              or_memory (write_payload p sorted rs texts.0.content texts.1.content) (λ payload.
                or_memory (write_cache fingerprint payload.content) (λ cache. ok (record {
                  zsh = texts.0.content;
                  sieve = texts.1.content;
                  cache = cache.content;
                  fingerprint = fingerprint;
                  id = digest_hex fingerprint;
                })))
        ]
      ])
