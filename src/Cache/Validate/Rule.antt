-- ===== src/Cache/Validate/Rule.antt =====
-- src/filter/cache.c, jf_cache_validate: the record of a rule.
use jaro_mail.Base.{
  ltb, leb, ◌==◌, if◌then◌else◌, within, length, take, drop, all, Bytes, codes, str_eq, ℕ, ◌+◌,
  Bool, true, false, not, ◌&&◌, ◌||◌, Option, none, some, List, [], ◌∷◌,
}
use jaro_mail.Text.Mailbox.{normalize_mailbox}
use jaro_mail.Text.Domain.{valid_domain}
use jaro_mail.Text.Utf8.{valid_utf8}
use jaro_mail.Product.Buffer.{◌>>=◌}
use jaro_mail.Product.Regex.{regex_supported}
use jaro_mail.Policy.Build.{line_max}
use jaro_mail.Policy.Resolve.{rule_max, builtin_rules}
use jaro_mail.Cache.Fields.{safe_text, read_decimal, valid_id}
use jaro_mail.Cache.Validate.{Scan, only_if}

abbrev no_upper : Bytes → Bool
no_upper s = all (λ c. not (within b'A' b'Z' c)) s

-- An address is the bytes that normalization leaves, in lower case.
unfoldable pub cached_address : Bytes → Bool
cached_address pred = elim (normalize_mailbox pred) [
  | none ↦ false
  | some n ↦ str_eq n pred && no_upper pred
]

-- A domain, behind "*." where it stands for the domains below it.
unfoldable pub cached_domain : Bool → ℕ → Bytes → Bool
cached_domain below stage pred =
    let skip = if below then 2 else 0 in
    (stage == 3 || stage == 4 || stage == 5)
    && ltb skip (length pred)
    && (not below || str_eq (take 2 pred) (codes "*."))
    && valid_domain (drop skip pred)
    && no_upper (drop skip pred)

-- The tests by the kind of the rule; a builtin may come once, the fallback only as the last record.
unfoldable pub kind_step : Scan → Bool → ℕ → ℕ → Bytes → Bytes → Bytes → Option Scan
kind_step s last stage mask kind id pred =
    if str_eq kind (codes "address")
      || str_eq kind (codes "domain-apex")
      || str_eq kind (codes "domain-subdomains")
    then only_if
        (not (str_eq pred [])
          && leb (length pred) line_max
          && valid_utf8 pred
          && (stage == 1 && mask == 1
              || stage == 3 && mask == 3
              || stage == 4 && mask == 12
              || stage == 5 && mask == 1
              || stage == 7 && mask == 12)
          && (if str_eq kind (codes "address")
              then cached_address pred
              else cached_domain (str_eq kind (codes "domain-subdomains")) stage pred))
        (some s)
    else if str_eq kind (codes "ere")
    then only_if
        (s.regex_profile
          && s.qualification
          && s.catalogue
          && not (str_eq pred [])
          && leb (length pred) line_max
          && (stage == 3 && mask == 3 || stage == 4 && mask == 12)
          && regex_supported pred)
        (some s)
    else if str_eq kind (codes "sender-contains")
    then only_if
        (stage == 2
          && mask == 2
          && s.bounce == 0
          && str_eq id (codes "builtin:bounce")
          && str_eq pred (codes "mailman-bounce"))
        (some (record s { bounce = s.bounce + 1 }))
    else if str_eq kind (codes "spam-is")
    then only_if
        (stage == 6
          && mask == 16
          && s.spam == 0
          && str_eq id (codes "builtin:spam")
          && str_eq pred (codes "YES"))
        (some (record s { spam = s.spam + 1 }))
    else only_if
        (str_eq kind (codes "always")
          && stage == 8
          && mask == 0
          && s.fallback == 0
          && last
          && str_eq id (codes "builtin:unsorted")
          && str_eq pred [])
        (some (record s { fallback = s.fallback + 1 }))

-- The record `R`; `last` tells that no record follows.
unfoldable pub rule_step : Scan → Bool → List Bytes → Option Scan
rule_step s last (f0 ∷ f1 ∷ f2 ∷ f3 ∷ f4 ∷ f5 ∷ f6 ∷ f7 ∷ f8 ∷ f9 ∷ f10 ∷ f11 ∷ []) = do
  order ← read_decimal f0
  stage ← read_decimal f1
  mask ← read_decimal f3
  line ← read_decimal f10
  only_if
      (not (s.phase == 0)
        && order == s.ordinal + 1
        && leb (s.ordinal + 1) (rule_max + builtin_rules)
        && leb 1 stage
        && leb stage 8
        && leb s.prior_stage stage
        && valid_id f4
        && safe_text f6 true
        && safe_text f7 true
        && safe_text f8 false
        && str_eq f11 (codes "move"))
      (kind_step (record s { ordinal = s.ordinal + 1; phase = 2; prior_stage = stage }) last stage
        mask f2 f4 f5)
rule_step s last fields = none
