-- ===== src/Cache/Restore.antt =====
-- src/filter/policy.c, jf_policy_restore, where the allocations succeed: the policy of a cache that was
-- validated.
use jaro_mail.Base.{
  ltb, if◌then◌else◌, length, Bytes, codes, str_eq, ℕ, ◌+◌, ◌-◌, ◌*◌, ◌%◌, ◌^◌, false, not, ◌||◌,
  none, List, [], ◌∷◌,
}
use jaro_mail.Result.{Result, ok, err, ◌>>=◌, memory, cache}
use jaro_mail.Policy.Rules.{Kind, Entry, Policy}
use jaro_mail.Policy.Lex.{fail}
use jaro_mail.Policy.Build.{nowhere}
use jaro_mail.Policy.Resolve.{compiled, no_space, refused, Library, rule_max, builtin_rules}
use jaro_mail.Classify.Build.{build_index}

-- `cached_number`, on digits that were validated; it wraps at 64 bits.
unfoldable pub number_from : ℕ → Bytes → ℕ
number_from n [] = n
number_from n (c ∷ s) = number_from ((n * 10 + (c - b'0')) % 2 ^ 64) s

unfoldable pub cached_number : Bytes → ℕ
cached_number s = number_from 0 s

unfoldable pub kind_of : Bytes → Kind
kind_of s =
    if str_eq s (codes "address")
    then Kind.address
    else if str_eq s (codes "domain-apex")
    then Kind.domain_apex
    else if str_eq s (codes "domain-subdomains")
    then Kind.domain_subdomains
    else if str_eq s (codes "ere")
    then Kind.ere
    else if str_eq s (codes "sender-contains")
    then Kind.sender_contains
    else if str_eq s (codes "spam-is")
    then Kind.spam_is
    else Kind.always

-- The fields of struct jf_cached_rule that are read, by their numbers.
pub record CachedRule : Type 0 where
  pub stage : Bytes
  pub kind : Bytes
  pub fields : Bytes
  pub id : Bytes
  pub predicate : Bytes
  pub logical : Bytes
  pub local : Bytes
  pub sieve : Bytes
  pub source : Bytes
  pub line : Bytes

unfoldable pub restore_entry : ℕ → CachedRule → Entry
restore_entry i f = record {
  rule = record {
    kind = kind_of f.kind;
    stage = cached_number f.stage % 2 ^ 32;
    fields = cached_number f.fields % 2 ^ 32;
    selector = [];
    predicate = f.predicate;
    action = codes "move";
    logical = f.logical;
    local = f.local;
    sieve = f.sieve;
    source = f.source;
    source_identity = [];
    line = cached_number f.line;
    occurrence = 1;
    id = f.id;
  };
  discard = false;
  order = i;
  input_index = 0;
}

module _ (library : Library) where
  -- The loop over the records.
  unfoldable pub restore_loop : ℕ → List CachedRule → Result (List Entry)
  restore_loop i [] = ok []
  restore_loop i (f ∷ fs) =
      let next = (do rest ← restore_loop (i + 1) fs; ok (restore_entry i f ∷ rest)) in
      elim (kind_of f.kind) [
        | Kind.ere ↦
            if not library.uselocale
            then fail nowhere memory
            else elim (library.regcomp f.predicate) [
              | compiled ↦ next
              | no_space ↦ fail nowhere memory
              | refused ↦ err (record { code = cache; status = 5; source = none; line = 0 })
            ]
        | _ ↦ next
      ]

  unfoldable pub policy_restore : List CachedRule → Result Policy
  policy_restore records =
      if ltb (length records) builtin_rules || ltb (rule_max + builtin_rules) (length records)
      then fail nowhere memory
      else (do entries ← restore_loop 0 records; ok (build_index library.sorter entries))
