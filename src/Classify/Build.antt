-- ===== src/Classify/Build.antt =====
-- src/filter/classify.c, jf_policy_build_index, where the allocations succeed.
pub mod Indexed
use jaro_mail.Base.{
  ltb, leb, ◌==◌, if◌then◌else◌, ltb→lt, lt→ltb, leb→le, ==_iff, ==_refl, Bool-cases, Option-cases,
  &&-eq-true, within, length, get_elem?, take, drop, length-append, All, all, any, All-append,
  All-get_elem?, get_elem?-some, All-map, In, In-take-or-drop, In-drop, All-In, drop-length, Bytes,
  codes, str_eq, str_eq_iff, in_set, strcmp, strcmp_iff, strcmp_antisymm, strcmp_trans,
  strcmp_lt_le_trans, StrLe, ℕ, zero, suc, ◌+◌, ◌-◌, ◌*◌, ◌/◌, ◌%◌, ◌^◌, ◌≤◌, ◌<◌, min, max,
  compare, Ordering, String, ◌≡◌, refl, sym, ap, ap₂, ◌∙◌, subst, ◌≡⟨◌⟩◌, ◌∎, ◌≢◌, ◌↔◌, ◌⊎◌, inl,
  inr, Bool, true, false, not, ◌&&◌, ◌||◌, Option, none, some, List, [], ◌∷◌, ◌++◌, map, foldl,
  append-nil, append_assoc, reverse, reverse-append, reverse-reverse, arith,
}
use jaro_mail.Sorter.{Sorter}
use jaro_mail.Policy.Rules.{
  Kind, address, domain_apex, domain_subdomains, ere, sender_contains, spam_is, always, Rule, Entry,
  Ref, Policy,
}
use jaro_mail.Classify.Index.Defs.{compare_index}

-- The three pointers that the first loop sets; a later rule of the kind overwrites an earlier one.
pub record Pointers : Type 0 where
  pub bounce : Option Ref
  pub spam : Option Ref
  pub fallback : Option Ref

-- The `switch` of the first loop, less the counts.
unfoldable pub assign : Ref → Pointers → Pointers
assign r q = elim r.entry.rule.kind [
  | sender_contains ↦ record q { bounce = some r }
  | spam_is ↦ record q { spam = some r }
  | always ↦ record q { fallback = some r }
  | _ ↦ q
]

unfoldable pub assign_all : List Ref → Pointers → Pointers
assign_all [] q = q
assign_all (r ∷ rs) q = assign_all rs (assign r q)

abbrev pub is_typed : Kind → Bool
is_typed address = true
is_typed domain_apex = true
is_typed domain_subdomains = true
is_typed _ = false

abbrev pub is_legacy : Kind → Bool
is_legacy ere = true
is_legacy _ = false

-- The second loop: the entries of one class, in order.
unfoldable pub collect : (Kind → Bool) → List Ref → List Ref
collect p [] = []
collect p (r ∷ rs) = if p r.entry.rule.kind then r ∷ collect p rs else collect p rs

-- Pointers to all entries of the array.
abbrev pub refs_from : ℕ → List Entry → List Ref
refs_from i [] = []
refs_from i (e ∷ es) = record { position = i; entry = e } ∷ refs_from (suc i) es

abbrev pub refs : List Entry → List Ref
refs = refs_from 0

unfoldable pub build_index : Sorter → List Entry → Policy
build_index sorter entries =
    let q = assign_all (refs entries) (record { bounce = none; spam = none; fallback = none }) in
    record {
      entries = entries;
      index = sorter.sort Ref compare_index (collect is_typed (refs entries));
      legacy = collect is_legacy (refs entries);
      bounce = q.bounce;
      spam = q.spam;
      fallback = q.fallback;
    }
