-- ===== src/Result.antt =====
-- src/filter/policy.h, struct jf_error: a function that may fail returns `err` where the source
-- fills the error and returns a non-zero status. The human diagnostic `detail` is left out.
use jaro_mail.Base.{ℕ, ◌≡◌, refl, ◌⊎◌, inl, inr, Option}

-- The stable codes, spelled as the source's strings are, less the E_.
pub data Code : Type 0 where
  memory argument input_limit line_limit utf8 fields quote nul token selector predicate action :
      Code
  destination domain address rule_limit regex : Code
  message_argument message_limit message_field message_text message_address regex_exec : Code
  message_header message_truncated : Code
  profile capability regex_qualification mailbox_mapping dependency rule regex_export cache : Code
  sieve_import : Code
  contact addressbook : Code

pub record Error : Type 0 where
  pub code : Code
  pub status : ℕ
  -- SIZE_MAX is `none`.
  pub source : Option ℕ
  pub line : ℕ

-- What a function that fills a `struct jf_error` comes to: status 0 with its outputs, or the error.
pub data Result {ℓ} (S : Type ℓ) : Type ℓ where
  ok : S → Result S
  err : Error → Result S

-- `if (rc) return rc;` between two steps.
infixl 5 ◌>>=◌
abbrev pub ◌>>=◌ {ℓ κ} : {S : Type ℓ} {T : Type κ} (r : Result S) (next : S → Result T) → Result T
err why >>= next = err why
ok outputs >>= next = next outputs

pub Result-cases {ℓ} :
    {S : Type ℓ} (r : Result S) → ((why : Error) × (r ≡ err why)) ⊎ ((s : S) × (r ≡ ok s))
Result-cases (err why) = inl (why, refl)
Result-cases (ok s) = inr (s, refl)

-- Two steps succeed only if both do.
pub bind-eq-ok {ℓ κ} :
    {S : Type ℓ} {T : Type κ} (first : Result S) (next : S → Result T) {t : T}
    → (first >>= next) ≡ ok t
    → (s : S) × (first ≡ ok s) × (next s ≡ ok t)
bind-eq-ok (err why) next both = cc
bind-eq-ok (ok s) next both = (s, refl, both)

pub ok-injective {ℓ} : {S : Type ℓ} {s t : S} → ok s ≡ ok t → s ≡ t
ok-injective h = cc h
