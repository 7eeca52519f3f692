-- ===== src/Classify/Index/Bisect.antt =====
-- src/filter/classify.c, lookup: the halving loop finds the first entry that is not below the key.
use jaro_mail.Base.{
  ltb, ltb→lt, lt→ltb, Bool-cases, length, get_elem?, take, drop, All, All-get_elem?,
  get_elem?-some, All-map, Bytes, ℕ, zero, suc, ◌+◌, ◌-◌, ◌/◌, ◌≤◌, ◌<◌, Ordering, ◌≡◌, refl, sym,
  ◌∙◌, subst, ◌≢◌, ◌⊎◌, inl, inr, some, List, [], ◌∷◌, arith,
}
use jaro_mail.Policy.Rules.{Kind, Ref}
use jaro_mail.Classify.Index.Defs.{compare_lookup, bisect}
use jaro_mail.Classify.Index.Order.{NotBelow, Below, IndexLe, IsSorted, IndexLe-NotBelow}

Ordering-cases : (o : Ordering) → (o ≡ Ordering.gt) ⊎ (o ≢ Ordering.gt)
Ordering-cases o = ground arith

module _ (kind : Kind) (key : Bytes) where
  take-Below :
      (xs : List Ref) (i : ℕ) {r : Ref}
      → IsSorted xs
      → get_elem? xs i ≡ some r
      → Below kind key r
      → All (Below kind key) (take (suc i) xs)
  take-Below [] i s e h = tt
  take-Below (x ∷ xs) zero {r} s e h =
      let same : x ≡ r = cc e in (subst (Below kind key) (sym same) h, tt)
  take-Below (x ∷ xs) (suc i) {r} s e h = (
    elim (Ordering-cases (compare_lookup kind key x.entry)) [
      | inl below ↦ below
      | inr above ↦
          absurd (IndexLe-NotBelow kind key x r (All-get_elem? (IndexLe x) xs i s.0 e) above h)
    ],
    take-Below xs i s.1 e h,
  )

  drop-NotBelow :
      (xs : List Ref) (i : ℕ) {r : Ref}
      → IsSorted xs
      → get_elem? xs i ≡ some r
      → NotBelow kind key r
      → All (NotBelow kind key) (drop i xs)
  drop-NotBelow [] i s e h = cc e
  drop-NotBelow (x ∷ xs) zero {r} s e h =
      let same : r ≡ x = cc e in
      let least = subst (NotBelow kind key) same h in
      (
        least,
        All-map (IndexLe x) (NotBelow kind key) (λ t le. IndexLe-NotBelow kind key x t le least) xs
            s.0,
      )
  drop-NotBelow (x ∷ xs) (suc i) s e h = drop-NotBelow xs i s.1 e h

  module _ (xs : List Ref) (fuel low high : ℕ) where
    bisect_done : low ≡ high → bisect xs kind key fuel low high ≡ some low
    bisect_done e = elim fuel as (λ f. bisect xs kind key f low high ≡ some low) [
      | zero ↦ unfold bisect in ground arith
      | suc f ↦ unfold bisect in ground arith
    ]

    module _ (r : Ref) (more : low < high)
        (e : get_elem? xs (low + (high - low) / 2) ≡ some r) where
      bisect_right :
          Below kind key r
          → bisect xs kind key (suc fuel) low high
            ≡ bisect xs kind key fuel (suc (low + (high - low) / 2)) high
      unfolding bisect
      bisect_right h = rw (lt→ltb low high more, e, h, bisect) refl

      bisect_left :
          NotBelow kind key r
          → bisect xs kind key (suc fuel) low high
            ≡ bisect xs kind key fuel low (low + (high - low) / 2)
      unfolding bisect
      bisect_left h = rw (lt→ltb low high more, e, bisect) (ground arith)

  -- The position splits the index at the key.
  pub record Splits (xs : List Ref) (k : ℕ) : Type 0 where
    pub below : All (Below kind key) (take k xs)
    pub not_below : All (NotBelow kind key) (drop k xs)

  pub bisect-Splits :
      (xs : List Ref)
      → IsSorted xs
      → (fuel low high : ℕ) → high - low ≤ fuel
      → high ≤ length xs
      → low ≤ high
      → All (Below kind key) (take low xs)
      → All (NotBelow kind key) (drop high xs)
      → (k : ℕ) × (bisect xs kind key fuel low high ≡ some k) × Splits xs k
  bisect-Splits xs s zero low high width bound le b n =
      let meet : low ≡ high = omega arith in
      (
        low,
        bisect_done xs zero low high meet,
        record {
          below = b;
          not_below = subst (λ i. All (NotBelow kind key) (drop i xs)) (sym meet) n;
        },
      )
  bisect-Splits xs s (suc fuel) low high width bound le b n = elim (Bool-cases (ltb low high)) [
    | inr done ↦
        let meet : low ≡ high = ground arith in
        (
          low,
          bisect_done xs (suc fuel) low high meet,
          record {
            below = b;
            not_below = subst (λ i. All (NotBelow kind key) (drop i xs)) (sym meet) n;
          },
        )
    | inl test ↦
        let more = ltb→lt low high test in
        let mid = low + (high - low) / 2 in
        let (r, e) = get_elem?-some xs mid (omega arith) in
        elim (Ordering-cases (compare_lookup kind key r.entry)) [
          | inl h ↦
              let (k, run, splits) =
                bisect-Splits xs s fuel (suc mid) high (omega arith) bound (omega arith)
                  (take-Below xs mid s e h) n in
              (k, bisect_right xs fuel low high r more e h ∙ run, splits)
          | inr h ↦
              let (k, run, splits) =
                bisect-Splits xs s fuel low mid (omega arith) (omega arith) (omega arith) b
                  (drop-NotBelow xs mid s e h) in
              (k, bisect_left xs fuel low high r more e h ∙ run, splits)
        ]
  ]
