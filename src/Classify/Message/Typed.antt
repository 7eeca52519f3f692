-- ===== src/Classify/Message/Typed.antt =====
-- src/filter/classify.c: the lookups for one mailbox, together, find the least typed rule it meets.
use jaro_mail.Base.{
  ◌==◌, Bool-cases, any, In, Bytes, str_eq, str_eq_iff, strcmp_iff, ℕ, Ordering, ◌≡◌, refl, ◌↔◌,
  ◌⊎◌, inl, inr, true, Option, List, [], ◌∷◌, arith,
}
use jaro_mail.Policy.Rules.{
  Kind, address, domain_apex, domain_subdomains, ere, sender_contains, spam_is, always, kind_value,
  Entry, Ref,
}
use jaro_mail.Classify.Best.{Improves, Improves-none, Improves-trans, Improves-map}
use jaro_mail.Classify.Index.Defs.{index_key, compare_lookup, has_field, lookup}
use jaro_mail.Classify.Index.Order.{IsSorted}
use jaro_mail.Classify.Index.Lookup.{KeyHit, lookup-Improves}
use jaro_mail.Classify.Message.Defs.{domain_of, suffix_loop, typed_step}
use jaro_mail.Classify.Message.Spec.{parents, typed_hit}

kind_value-injective : (j k : Kind) → kind_value j ≡ kind_value k → j ≡ k
kind_value-injective j k h = ground arith

compare_lookup_iff :
    (kind : Kind) (key : Bytes) (e : Entry)
    → (compare_lookup kind key e ≡ Ordering.eq) ↔ ((e.rule.kind ≡ kind) × (key ≡ index_key e))
unfolding compare_lookup
compare_lookup_iff kind key e = (
  λ h. ground (arith, strcmp_iff key (index_key e), kind_value-injective e.rule.kind kind),
  λ h. rw h.0 (ground (arith, strcmp_iff key (index_key e))),
)

module _ (index : List Ref) (field : ℕ) (sorted : IsSorted index) where
  -- What a subdomain rule asks of a domain.
  abbrev BelowDomain : Bytes → Ref → Type 0
  BelowDomain d r =
      In r index
      × (r.entry.rule.kind ≡ domain_subdomains)
      × (any (λ s. str_eq s (index_key r.entry)) (parents d) ≡ true)
      × (has_field field r.entry ≡ true)

  here_or_later :
      (c : ℕ) (s : Bytes) (r : Ref)
      → c ≡ b'.'
      → BelowDomain (c ∷ s) r
      → (In r index × KeyHit domain_subdomains s field r) ⊎ BelowDomain s r
  unfolding parents
  here_or_later c s r dot (i, k, h, has) = elim (Bool-cases (str_eq s (index_key r.entry))) [
    | inl same ↦ inl (
      i,
      (
        (compare_lookup_iff domain_subdomains s r.entry).1
            (k, (str_eq_iff s (index_key r.entry)).0 same),
        has,
      ),
    )
    | inr differs ↦ inr (i, k, ground arith, has)
  ]

  back :
      (c : ℕ) (s : Bytes) (r : Ref)
      → c ≡ b'.'
      → (In r index × KeyHit domain_subdomains s field r) ⊎ BelowDomain s r
      → BelowDomain (c ∷ s) r
  unfolding parents
  back c s r dot (inl (i, (h, has))) =
      let (k, same) = (compare_lookup_iff domain_subdomains s r.entry).0 h in
      (i, k, ground (arith, (str_eq_iff s (index_key r.entry)).1 same), has)
  back c s r dot (inr (i, k, h, has)) = (i, k, ground arith, has)

  suffix_loop-Improves :
      (d : Bytes) (best : Option Ref)
      → Improves (BelowDomain d) best (suffix_loop index field d best)
  unfolding suffix_loop parents
  suffix_loop-Improves [] best = Improves-none best (λ r h. cc (h.2))
  suffix_loop-Improves (c ∷ s) best = elim (Bool-cases (c == b'.')) [
    | inl dot ↦ rw dot (
        Improves-map (λ r. back c s r (ground arith)) (λ r. here_or_later c s r (ground arith))
          (Improves-trans (lookup-Improves domain_subdomains s field index best sorted)
            (suffix_loop-Improves s (lookup index domain_subdomains s field best))))
    | inr other ↦ rw other (
        Improves-map (λ r h. (h.0, h.1, ground arith, h.3)) (λ r h. (h.0, h.1, ground arith, h.3))
          (suffix_loop-Improves s best))
  ]

  -- A typed rule of the index that reads the field and that the folded mailbox meets.
  abbrev pub TypedHit : Bytes → Ref → Type 0
  TypedHit folded r =
      In r index × (has_field field r.entry ≡ true) × (typed_hit r.entry folded ≡ true)

  abbrev Parts : Bytes → Ref → Type 0
  Parts folded r =
      ((In r index × KeyHit address folded field r)
        ⊎ (In r index × KeyHit domain_apex (domain_of folded) field r))
      ⊎ BelowDomain (domain_of folded) r

  parts→TypedHit : (folded : Bytes) (r : Ref) → Parts folded r → TypedHit folded r
  unfolding typed_hit index_key
  parts→TypedHit folded r (inl (inl (i, (h, has)))) =
      let (k, same) = (compare_lookup_iff address folded r.entry).0 h in
      (i, has, ground (arith, str_eq_iff folded r.entry.rule.predicate))
  parts→TypedHit folded r (inl (inr (i, (h, has)))) =
      let (k, same) = (compare_lookup_iff domain_apex (domain_of folded) r.entry).0 h in
      (i, has, ground (arith, str_eq_iff (domain_of folded) r.entry.rule.predicate))
  parts→TypedHit folded r (inr (i, k, h, has)) = (i, has, ground arith)

  TypedHit→parts : (folded : Bytes) (r : Ref) → TypedHit folded r → Parts folded r
  unfolding typed_hit index_key
  TypedHit→parts folded r (i, has, h) = by_kind r.entry.rule.kind refl
    where
      by_kind : (k : Kind) → r.entry.rule.kind ≡ k → Parts folded r
      by_kind address k = inl (
          inl (
            i,
            (
              (compare_lookup_iff address folded r.entry).1
                  (k, ground (arith, str_eq_iff folded r.entry.rule.predicate)),
              has,
            ),
          ))
      by_kind domain_apex k = inl (
          inr (
            i,
            (
              (compare_lookup_iff domain_apex (domain_of folded) r.entry).1
                  (k, ground (arith, str_eq_iff (domain_of folded) r.entry.rule.predicate)),
              has,
            ),
          ))
      by_kind domain_subdomains k = inr (i, k, ground arith, has)
      by_kind ere k = absurd (ground arith)
      by_kind sender_contains k = absurd (ground arith)
      by_kind spam_is k = absurd (ground arith)
      by_kind always k = absurd (ground arith)

  pub typed_step-Improves :
      (folded : Bytes) (best : Option Ref)
      → Improves (TypedHit folded) best (typed_step index field folded best)
  unfolding typed_step
  typed_step-Improves folded best =
      let exact = lookup index address folded field best in
      let apex = lookup index domain_apex (domain_of folded) field exact in
      Improves-map (parts→TypedHit folded) (TypedHit→parts folded) (
        Improves-trans
          (Improves-trans (lookup-Improves address folded field index best sorted)
            (lookup-Improves domain_apex (domain_of folded) field index exact sorted))
          (suffix_loop-Improves (domain_of folded) apex))
