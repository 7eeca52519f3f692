-- ===== src/Policy/Builtins.antt =====
-- src/filter/policy.c: which entries a policy is made of, from the lines of its sources to the
-- array that the index is built on.
pub mod Plain
pub mod Count
pub mod Marks
pub mod Kept
pub mod Sole
pub mod Parsed
pub mod Tests
use jaro_mail.Base.{
  ltb, leb, ◌==◌, if◌then◌else◌, ltb→lt, lt→ltb, leb→le, ==_iff, ==_refl, Bool-cases, Option-cases,
  &&-eq-true, within, length, get_elem?, take, drop, length-append, All, all, any, All-append,
  All-get_elem?, get_elem?-some, All-map, In, In-take-or-drop, In-drop, All-In, drop-length,
  All-of-In, List-cases, count, count-append, Bytes, codes, str_eq, str_eq_iff, in_set, strcmp,
  strcmp_iff, strcmp_antisymm, strcmp_trans, strcmp_lt_le_trans, StrLe, ℕ, zero, suc, ◌+◌, ◌-◌, ◌*◌,
  ◌/◌, ◌%◌, ◌^◌, ◌≤◌, ◌<◌, min, max, compare, Ordering, String, ◌≡◌, refl, sym, ap, ap₂, ◌∙◌, subst,
  ◌≡⟨◌⟩◌, ◌∎, ◌≢◌, ◌↔◌, ◌⊎◌, inl, inr, Bool, true, false, not, ◌&&◌, ◌||◌, Option, none, some, List,
  [], ◌∷◌, ◌++◌, map, foldl, append-nil, append_assoc, reverse, reverse-append, reverse-reverse,
  arith,
}
use jaro_mail.Policy.Rules.{Kind, kind_value, Entry, sender_contains, spam_is, always}

-- What holds of an entry that a source's line appends.
pub record IsPlain (e : Entry) : Type 0 where
  pub low_kind : kind_value e.rule.kind ≤ 3
  pub low_stage : e.rule.stage ≤ 7
  pub not_bounce : e.rule.selector ≢ codes "bounce"
  pub not_spam : e.rule.selector ≢ codes "spam"
  pub not_unsorted : e.rule.selector ≢ codes "unsorted"
  pub undiscarded : e.discard ≡ false

-- The selector of a builtin.
abbrev pub builtin_selector : Kind → Bytes
builtin_selector sender_contains = codes "bounce"
builtin_selector spam_is = codes "spam"
builtin_selector _ = codes "unsorted"

-- What holds of every entry of the array: a kind above ere and its selector come together, and only
-- the fallback has a stage above 7.
pub record IsSound (e : Entry) : Type 0 where
  pub selector_iff :
      (k : Kind) → 3 < kind_value k → (e.rule.kind ≡ k) ↔ (e.rule.selector ≡ builtin_selector k)
  pub stage_iff : (e.rule.kind ≡ always) ↔ (7 < e.rule.stage)

pub IsPlain-IsSound : (e : Entry) → IsPlain e → IsSound e
IsPlain-IsSound e h = record { selector_iff = λ k b. ground arith; stage_iff = ground arith }

abbrev pub of_kind : Kind → Entry → Bool
of_kind k e = kind_value e.rule.kind == kind_value k

-- A builtin is not discarded.
abbrev pub IsKept : Entry → Type 0
IsKept e = 3 < kind_value e.rule.kind → e.discard ≡ false
