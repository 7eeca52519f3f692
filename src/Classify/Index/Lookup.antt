-- ===== src/Classify/Index/Lookup.antt =====
-- src/filter/classify.c, lookup: on a sorted index it finds the least of all entries with the key.
use jaro_mail.Base.{
  Bool-cases, length, take, drop, All, In, In-take-or-drop, In-drop, All-In, drop-length, Bytes, ℕ,
  zero, suc, Ordering, ◌≡◌, refl, ap, subst, ◌⊎◌, inl, inr, true, Option, List, [], ◌∷◌, arith,
}
use jaro_mail.Policy.Rules.{Kind, Ref}
use jaro_mail.Classify.Best.{
  Improves, Improves-none, Improves-trans, Improves-map, Improves-candidate,
}
use jaro_mail.Classify.Index.Defs.{compare_lookup, has_field, improve, scan_equal, lookup}
use jaro_mail.Classify.Index.Order.{NotBelow, Below, IndexLe, IsSorted, IndexLe-lt}
use jaro_mail.Classify.Index.Bisect.{Splits, bisect-Splits}

IsSorted-drop : (k : ℕ) (rs : List Ref) → IsSorted rs → IsSorted (drop k rs)
IsSorted-drop zero rs s = s
IsSorted-drop (suc k) [] s = tt
IsSorted-drop (suc k) (r ∷ rs) s = IsSorted-drop k rs s.1

module _ (kind : Kind) (key : Bytes) (field : ℕ) where
  -- The entry has the key, and its rule reads the field.
  abbrev pub KeyHit : Ref → Type 0
  KeyHit r = (compare_lookup kind key r.entry ≡ Ordering.eq) × (has_field field r.entry ≡ true)

  order :
      (o : Ordering) {p : Ordering}
      → p ≡ o
      → (p ≡ Ordering.gt) ⊎ ((p ≡ Ordering.lt) ⊎ (p ≡ Ordering.eq))
  order o e = ground arith

  improve-Improves :
      (best : Option Ref) (r : Ref)
      → compare_lookup kind key r.entry ≡ Ordering.eq
      → Improves (λ s. (s ≡ r) × KeyHit s) best (improve kind key field best r)
  unfolding improve
  improve-Improves best r e = elim (Bool-cases (has_field field r.entry)) [
    | inl has ↦ rw has (Improves-candidate best r (refl, (e, has)) (λ s h. h.0))
    | inr lacks ↦
        rw lacks
          (Improves-none best (λ s h. cc (subst (λ t. has_field field t.entry ≡ true) h.0 h.1.1)))
  ]

  scan_equal-Improves :
      (rs : List Ref) (best : Option Ref)
      → IsSorted rs
      → All (NotBelow kind key) rs
      → Improves (λ s. In s rs × KeyHit s) best (scan_equal kind key field rs best)
  unfolding scan_equal
  scan_equal-Improves [] best s n = Improves-none best (λ r h. absurd h.0)
  scan_equal-Improves (r ∷ rs) best s n = elim (order (compare_lookup kind key r.entry) refl) [
    | inr (inr e) ↦
        rw (e, scan_equal)
          (Improves-map (λ t. elim [ inl h ↦ (inl h.0, h.1) | inr h ↦ (inr h.0, h.1) ])
            (λ t h. elim h.0 [ inl same ↦ inl (same, h.1) | inr later ↦ inr (later, h.1) ])
            (Improves-trans (improve-Improves best r e)
              (scan_equal-Improves rs (improve kind key field best r) s.1 n.1)))
    | inr (inl e) ↦ rw (e, scan_equal) (Improves-none best (λ t h. no_hit t e h))
    | inl e ↦ absurd (n.0 e)
  ]
    where
      no_hit :
          (t : Ref) → compare_lookup kind key r.entry ≡ Ordering.lt → ¬ (In t (r ∷ rs) × KeyHit t)
      no_hit t e h = elim h.0 [
        | inl same ↦ cc (ap (λ u. compare_lookup kind key u.entry) same, e, h.1.0)
        | inr later ↦ cc (IndexLe-lt kind key r t (All-In (IndexLe r) rs t s.0 later) e, h.1.0)
      ]

  -- On a sorted index `lookup` improves `best` by every entry that has the key and the field,
  -- though it visits only some of them.
  pub lookup-Improves :
      (index : List Ref) (best : Option Ref)
      → IsSorted index
      → Improves (λ s. In s index × KeyHit s) best (lookup index kind key field best)
  unfolding lookup
  lookup-Improves index best s =
      let (k, run, splits) =
        bisect-Splits kind key index s (length index) 0 (length index) (omega arith) (omega arith)
          (omega arith) tt (rw (drop-length index) tt) in
      rw (run, lookup)
        (Improves-map (λ t h. (In-drop k index t h.0, h.1)) (λ t h. (at_or_after k splits t h, h.1))
          (scan_equal-Improves (drop k index) best (IsSorted-drop k index s) splits.not_below))
    where
      at_or_after :
          (k : ℕ)
          → Splits kind key index k
          → (t : Ref) → In t index × KeyHit t
          → In t (drop k index)
      at_or_after k splits t h = elim (In-take-or-drop k index t h.0) [
        | inr d ↦ d
        | inl early ↦
            absurd (cc (All-In (Below kind key) (take k index) t splits.below early, h.1.0))
      ]
