-- ===== src/Classify/Message/Spec.antt =====
-- src/filter/policy.h, jf_policy_classify: what it promises. Each rule is looked at by itself, in
-- the order of the policy, with no index.
use jaro_mail.Base.{
  ◌==◌, if◌then◌else◌, drop, any, In, Bytes, codes, str_eq, ◌≤◌, ◌≡◌, ◌↔◌, Bool, true, false, ◌&&◌,
  ◌||◌, Option, none, some, List, [], ◌∷◌,
}
use jaro_mail.Text.Ascii.{fold}
use jaro_mail.Text.Mailbox.{normalize_mailbox}
use jaro_mail.Policy.Rules.{
  Kind, address, domain_apex, domain_subdomains, ere, sender_contains, spam_is, always, Entry, Ref,
  Policy,
}
use jaro_mail.Classify.Index.Defs.{has_field}
use jaro_mail.Classify.Index.Order.{IsSorted}
use jaro_mail.Classify.Build.{refs}
use jaro_mail.Classify.Index.Order.{Ascending}
use jaro_mail.Classify.Text.{raw_match}
use jaro_mail.Classify.Message.Defs.{Mailbox, Message, Match, matched, Engine, domain_of}

-- The domains that a domain is a strict subdomain of.
unfoldable pub parents : Bytes → List Bytes
parents [] = []
parents (c ∷ s) = if c == b'.' then s ∷ parents s else parents s

-- A typed rule is met by a folded mailbox; a subdomain rule's predicate begins with "*.".
unfoldable pub typed_hit : Entry → Bytes → Bool
typed_hit e folded = elim e.rule.kind [
  | address ↦ str_eq folded e.rule.predicate
  | domain_apex ↦ str_eq (domain_of folded) e.rule.predicate
  | domain_subdomains ↦ any (λ d. str_eq d (drop 2 e.rule.predicate)) (parents (domain_of folded))
  | _ ↦ false
]

abbrev pub is_matched : Match → Bool
is_matched matched = true
is_matched _ = false

unfoldable pub legacy_hit : Engine → Entry → Bytes → Bool
legacy_hit engine e mailbox = elim e.rule.kind [
  | ere ↦ is_matched (engine.regexec e.rule.predicate mailbox)
  | _ ↦ false
]

-- The rule reads the field of the address and is met by its mailbox.
unfoldable pub address_hit : Engine → Entry → Mailbox → Bool
address_hit engine e a = elim (normalize_mailbox a.value) [
  | none ↦ false
  | some n ↦ has_field a.field e && (typed_hit e (fold n) || legacy_hit engine e n)
]

unfoldable pub rule_matches : Engine → Message → Entry → Bool
rule_matches engine m e = elim e.rule.kind [
  | sender_contains ↦ any (λ s. raw_match s (codes "mailman-bounce") true) m.senders
  | spam_is ↦ any (λ s. raw_match s (codes "YES") false) m.spam_flags
  | always ↦ true
  | _ ↦ any (address_hit engine e) m.addresses
]

-- The first rule that matches.
unfoldable pub first_match : Engine → Message → List Ref → Option Ref
first_match engine m [] = none
first_match engine m (r ∷ rs) =
    if rule_matches engine m r.entry then some r else first_match engine m rs

abbrev pub IsTyped : Kind → Type 0
IsTyped address = Unit
IsTyped domain_apex = Unit
IsTyped domain_subdomains = Unit
IsTyped _ = ⊥

-- The pointer is to the one entry of its kind.
pub record IsOnly (entries : List Entry) (kind : Kind) (p : Option Ref) (r : Ref) : Type 0 where
  pub points : p ≡ some r
  pub inside : In r (refs entries)
  pub of_kind : r.entry.rule.kind ≡ kind
  pub unique : (s : Ref) → In s (refs entries) → s.entry.rule.kind ≡ kind → s ≡ r

-- What jf_policy_build_index and the order of the rules guarantee.
pub record IsIndexed (p : Policy) : Type 0 where
  pub index_sorted : IsSorted p.index
  pub index_iff : (r : Ref) → In r p.index ↔ (In r (refs p.entries) × IsTyped r.entry.rule.kind)
  pub legacy_sorted : Ascending p.legacy
  pub legacy_iff : (r : Ref) → In r p.legacy ↔ (In r (refs p.entries) × (r.entry.rule.kind ≡ ere))
  pub the_bounce : Ref
  pub bounce_only : IsOnly p.entries sender_contains p.bounce the_bounce
  pub the_spam : Ref
  pub spam_only : IsOnly p.entries spam_is p.spam the_spam
  pub the_fallback : Ref
  pub fallback_only : IsOnly p.entries always p.fallback the_fallback
  pub fallback_last : (r : Ref) → In r (refs p.entries) → r.position ≤ the_fallback.position
