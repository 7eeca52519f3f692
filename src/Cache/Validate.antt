-- ===== src/Cache/Validate.antt =====
-- src/filter/cache.c, jf_cache_validate: what it keeps, and the records of the profile and of the
-- dependencies.
pub mod Rule
pub mod Whole
pub mod Read
pub mod Counted
pub mod Restored
pub mod Accepted
pub mod Tests
use jaro_mail.Base.{
  ◌++◌, leb, ◌==◌, if◌then◌else◌, length, Bytes, codes, str_eq, ℕ, ◌+◌, Ordering, Bool, true, false,
  not, ◌&&◌, ◌||◌, Option, none, some, List, [], ◌∷◌,
}
use jaro_mail.Sha256.{Hash, init, update}
use jaro_mail.Product.Buffer.{digest}
use jaro_mail.Cache.Encode.{dependency_max}
use jaro_mail.Cache.Fields.{starts_with, compare_views}

-- The generated strings of the regex profile, which are not in the sources.
pub record Catalogue : Type 0 where
  pub qualification : Bytes
  pub catalogue : Bytes

-- What the loop over the records keeps from one record to the next.
pub record Scan : Type 0 where
  pub previous_role : Bytes
  pub previous_path : Bytes
  pub hash : Hash
  pub ordinal : ℕ
  pub prior_stage : ℕ
  pub dependencies : ℕ
  pub phase : ℕ
  pub fallback : ℕ
  pub bounce : ℕ
  pub spam : ℕ
  pub regex_profile : Bool
  pub qualification : Bool
  pub catalogue : Bool
  pub normalization : Bool

abbrev pub first_scan : Scan
first_scan = record {
  previous_role = [];
  previous_path = [];
  hash = update init (codes "JFFP1" ++ 0 ∷ []);
  ordinal = 0;
  prior_stage = 0;
  dependencies = 0;
  phase = 0;
  fallback = 0;
  bounce = 0;
  spam = 0;
  regex_profile = false;
  qualification = false;
  catalogue = false;
  normalization = false;
}

-- `if (!...) goto bad;`.
abbrev pub only_if {ℓ} : {S : Type ℓ} → Bool → Option S → Option S
only_if test next = if test then next else none

-- A digest that is given is that of the bytes; none is no test.
abbrev pub matches_digest : Option Bytes → Bytes → Bool
matches_digest given expected = elim given [
  | none ↦ true
  | some content ↦ str_eq (digest content) expected
]

abbrev regex_id : Bytes
regex_id = codes "pigeonhole-2.4.5-posix-ere-v1"

-- The record `M`, the `i`th.
unfoldable pub meta_step : Option Bytes → Option Bytes → ℕ → Scan → List Bytes → Option Scan
meta_step zsh sieve i s (f0 ∷ f1 ∷ f2 ∷ f3 ∷ f4 ∷ f5 ∷ f6 ∷ []) =
    only_if
      (i == 0
        && s.phase == 0
        && str_eq f0 (codes "jaromail-filter-compiler-v2")
        && (str_eq f1 (codes "core-v1") || str_eq f1 regex_id)
        && str_eq f2 (codes "posix-ere-c-icase-v1")
        && str_eq f3 (codes "ascii-mailbox-casemap-v1")
        && str_eq f4 (codes "i;ascii-casemap")
        && length f5 == 32
        && length f6 == 32
        && matches_digest zsh f5
        && matches_digest sieve f6)
      (some (record s { phase = 1; regex_profile = str_eq f1 regex_id }))
meta_step zsh sieve i s fields = none

-- Behind a dependency comes a greater role, or the same with a greater path.
unfoldable pub follows : Scan → Bytes → Bytes → Bool
follows s role path = elim (compare_views s.previous_role role) [
  | Ordering.gt ↦ str_eq s.previous_role []
  | Ordering.eq ↦ elim (compare_views s.previous_path path) [
    | Ordering.lt ↦ true
    | _ ↦ str_eq s.previous_role []
  ]
  | Ordering.lt ↦ true
]

-- The roles whose digest is that of the auxiliary bytes.
unfoldable pub inline_role : Bytes → Bool
inline_role role =
    starts_with role (codes "config.")
    || starts_with role (codes "export.")
    || starts_with role (codes "link.")
    || starts_with role (codes "inventory.")

-- What a known configuration must say, and the mark that it was seen.
unfoldable pub config_step : Catalogue → Scan → List Bytes → Option Scan
config_step c s (role ∷ path ∷ flag ∷ dig ∷ aux ∷ []) =
    let plain = str_eq path [] && str_eq flag (codes "1") in
    if str_eq role (codes "config.address-normalization")
    then only_if (plain && str_eq aux (codes "mailbox-minimal-quoting-v2"))
        (some (record s { normalization = true }))
    else if str_eq role (codes "config.regex-qualification")
    then only_if (plain && (not s.regex_profile || str_eq aux c.qualification))
        (some (record s { qualification = true }))
    else if str_eq role (codes "config.regex-catalogue")
    then only_if (plain && (not s.regex_profile || str_eq aux c.catalogue))
        (some (record s { catalogue = true }))
    else some s
config_step c s fields = none

-- The record `D`, with all its bytes for the fingerprint.
unfoldable pub dependency_step : Catalogue → Scan → Bytes → List Bytes → Option Scan
dependency_step c s raw (role ∷ path ∷ flag ∷ dig ∷ aux ∷ []) =
    let present = str_eq flag (codes "1") in
    let absent = str_eq flag (codes "0") in
    only_if
      (leb (s.dependencies + 1) dependency_max
        && s.phase == 1
        && not (str_eq role [])
        && follows s role path
        && (present && length dig == 32 || absent && str_eq dig [])
        && not (absent && not (str_eq aux []))
        && not (present && inline_role role && not (str_eq (digest aux) dig)))
      (config_step c
        (record s {
          previous_role = role;
          previous_path = path;
          dependencies = s.dependencies + 1;
          hash = update s.hash raw;
        })
        (role ∷ path ∷ flag ∷ dig ∷ aux ∷ []))
dependency_step c s raw fields = none
