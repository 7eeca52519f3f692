-- ===== src/Classify/Best.antt =====
-- src/filter/classify.c: what one search does to `best`, the least pointer found so far.
use jaro_mail.Base.{
  if◌then◌else◌, Bool-cases, suc, ◌≤◌, ◌≡◌, refl, ◌∙◌, ◌⊎◌, inl, inr, Option, some, arith,
}
use jaro_mail.Policy.Rules.{Ref, address_of, before}

-- The search turns `b` into `b'`: it keeps `b` or takes a rule that it is to find, and stands then
-- at or before `b` and each such rule.
pub record Improves (Hit : Ref → Type 0) (b b' : Option Ref) : Type 0 where
  pub chosen : (b' ≡ b) ⊎ ((r : Ref) × (b' ≡ some r) × Hit r)
  pub keeps : address_of b' ≤ address_of b
  pub least : (r : Ref) → Hit r → address_of b' ≤ suc r.position

pub Improves-none : {Hit : Ref → Type 0} (b : Option Ref) → ((r : Ref) → ¬ Hit r) → Improves Hit b b
Improves-none b none_hits = record {
  chosen = inl refl;
  keeps = omega arith;
  least = λ r h. absurd (none_hits r h);
}

pub Improves-trans :
    {H K : Ref → Type 0} {b c d : Option Ref}
    → Improves H b c
    → Improves K c d
    → Improves (λ r. H r ⊎ K r) b d
Improves-trans i j = record {
  chosen = elim j.chosen [
    | inr (r, e, k) ↦ inr (r, e, inr k)
    | inl same ↦ elim i.chosen [
      | inl first ↦ inl (same ∙ first)
      | inr (r, e, h) ↦ inr (r, same ∙ e, inl h)
    ]
  ];
  keeps = omega (arith, i.keeps, j.keeps);
  least = λ r. elim [ inl h ↦ omega (arith, i.least r h, j.keeps) | inr k ↦ j.least r k ];
}

pub Improves-map :
    {H K : Ref → Type 0} {b c : Option Ref}
    → ((r : Ref) → H r → K r)
    → ((r : Ref) → K r → H r)
    → Improves H b c
    → Improves K b c
Improves-map f g i = record {
  chosen = elim i.chosen [ inl same ↦ inl same | inr (r, e, h) ↦ inr (r, e, f r h) ];
  keeps = i.keeps;
  least = λ r k. i.least r (g r k);
}

-- A candidate that is taken if it stands before.
pub Improves-candidate :
    {Hit : Ref → Type 0} (b : Option Ref) (r : Ref)
    → Hit r
    → ((s : Ref) → Hit s → s ≡ r)
    → Improves Hit b (if before (some r) b then some r else b)
Improves-candidate b r h only = elim (Bool-cases (before (some r) b)) [
  | inl first ↦ rw first (record {
    chosen = inr (r, refl, h);
    keeps = ground arith;
    least = λ s k. rw (only s k) (omega arith);
  })
  | inr later ↦ rw later (record {
    chosen = inl refl;
    keeps = omega arith;
    least = λ s k. rw (only s k) (ground arith);
  })
]
