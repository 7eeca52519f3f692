-- ===== src/Policy/Builtins/Kept.antt =====
-- src/filter/policy.c, resolve: the array that it leaves has one entry of each builtin kind, the
-- fallback at its end.
use jaro_mail.Base.{
  if◌then◌else◌, All, All-map, All-In, All-of-In, count, ◌+◌, ◌≤◌, ◌<◌, Ordering, ◌≡◌, refl, sym,
  ap, ◌∙◌, subst, ◌≢◌, inl, inr, true, false, List, [], ◌∷◌, arith,
}
use jaro_mail.Result.{ok, ok-injective, Result-cases}
use jaro_mail.Sorter.{IsComparison, Sorted, Perm-In, Perm-count}
use jaro_mail.Policy.Rules.{Kind, kind_value, Entry, Ref, always}
use jaro_mail.Policy.Lex.{Place}
use jaro_mail.Policy.Compare.{compare_order, compare_keys, compare_records}
use jaro_mail.Policy.Resolve.{Library, number, discard_duplicates, identify, finish, kept, resolve}
use jaro_mail.Policy.Builtins.{IsSound, of_kind, IsKept}
use jaro_mail.Policy.Builtins.Count.{number-All, number-count, compact-count, compact-All}
use jaro_mail.Policy.Builtins.Marks.{
  discard_duplicates-IsKept, discard_duplicates-All, discard_duplicates-count,
}
use jaro_mail.Classify.Build.{refs}

compare_order-IsComparison : IsComparison compare_order
unfolding compare_order
compare_order-IsComparison = record {
  flip = λ a b h. ground arith;
  trans = λ a b c h k. ground arith;
}

-- Nothing stands behind the fallback.
abbrev pub FallbackLast : List Entry → Type 0
FallbackLast [] = Unit
FallbackLast (e ∷ es) = (e.rule.kind ≡ always → es ≡ []) × FallbackLast es

-- What the index relies on.
pub record IsResolved (es : List Entry) : Type 0 where
  pub sound : All IsSound es
  pub one_each : (k : Kind) → 3 < kind_value k → count (of_kind k) es ≡ 1
  pub fallback_last : FallbackLast es

compare_order-stage : (x y : Entry) → compare_order x y ≢ Ordering.gt → x.rule.stage ≤ y.rule.stage
unfolding compare_order
compare_order-stage x y h = ground arith

Sorted-FallbackLast :
    (es : List Entry)
    → Sorted compare_order es
    → All IsSound es
    → count (of_kind always) es ≤ 1
    → FallbackLast es
Sorted-FallbackLast [] s sound few = tt
Sorted-FallbackLast (x ∷ []) s sound few = (λ e. refl, tt)
Sorted-FallbackLast (x ∷ y ∷ es) s sound few = (
  λ e.
      let late = sound.0.stage_iff.0 e in
      let behind = compare_order-stage x y s.0.0 in
      let also = sound.1.0.stage_iff.1 (omega arith) in
      let one : of_kind always x ≡ true = ground arith in
      let other : of_kind always y ≡ true = ground arith in absurd (ground arith),
  Sorted-FallbackLast (y ∷ es) s.1 sound.1 (omega arith),
)

finish-next :
    (library : Library) (p : Place) (e : Entry) (es out : List Entry)
    → finish library p (e ∷ es) ≡ ok out
    → (rest : List Entry) × (finish library p es ≡ ok rest)
      × (record e { rule = record e.rule { id = identify e.rule } } ∷ rest ≡ out)
unfolding finish
finish-next library p e es out h = elim (Result-cases (finish library p es)) [
  | inl (why, run) ↦ absurd (ground (arith, run, h))
  | inr (rest, run) ↦ (rest, run, ground (arith, run, h))
]

-- The last loop renames the entries, and keeps what is known of them.
finish-IsResolved :
    (library : Library) (p : Place) (es out : List Entry)
    → All IsSound es
    → FallbackLast es
    → finish library p es ≡ ok out
    → All IsSound out
      × FallbackLast out
      × ((k : Kind) → count (of_kind k) out ≡ count (of_kind k) es)
      × (es ≡ [] → out ≡ [])
unfolding finish
finish-IsResolved library p [] out sound last h =
    let same = ok-injective h in
    (
      subst (All IsSound) same tt,
      subst FallbackLast same tt,
      λ k. ap (λ xs. count (of_kind k) xs) (sym same),
      λ e. sym same,
    )
finish-IsResolved library p (e ∷ es) out sound last h =
    let (rest, run, same) = finish-next library p e es out h in
    let (sound', last', counts, empty) = finish-IsResolved library p es rest sound.1 last.1 run in
    let head : IsSound (record e { rule = record e.rule { id = identify e.rule } }) = record {
      selector_iff = sound.0.selector_iff;
      stage_iff = sound.0.stage_iff;
    } in
    (
      subst (All IsSound) same (head, sound'),
      subst FallbackLast same ((λ k. empty (last.0 k)), last'),
      λ k.
          ap (λ xs. count (of_kind k) xs) (sym same)
          ∙ ap (λ n. (if of_kind k e then 1 else 0) + n) (counts k),
      λ f. cc f,
    )

module _ (library : Library) (es : List Entry) (sound : All IsSound es)
    (undiscarded : All (λ e. e.discard ≡ false) es)
    (one_each : (k : Kind) → 3 < kind_value k → count (of_kind k) es ≡ 1) where
  numbered : List Entry
  numbered = number (library.sorter.sort Ref compare_records (refs es)) es

  numbered-IsSound : All IsSound numbered
  unfolding numbered
  numbered-IsSound =
      number-All IsSound
        (λ e n h. record { selector_iff = h.selector_iff; stage_iff = h.stage_iff }) _ es sound

  numbered-IsKept : All IsKept numbered
  unfolding numbered
  numbered-IsKept =
      number-All IsKept (λ e n h. h) _ es
        (All-map (λ (e : Entry). e.discard ≡ false) IsKept (λ e h high. h) es undiscarded)

  numbered-count : (k : Kind) → count (of_kind k) numbered ≡ count (of_kind k) es
  unfolding numbered
  numbered-count k = number-count k _ es

  kept-IsSound : All IsSound (kept library es)
  unfolding kept numbered
  kept-IsSound = compact-All IsSound _ (
      discard_duplicates-All IsSound
        (λ e h. record { selector_iff = h.selector_iff; stage_iff = h.stage_iff }) _ numbered
        numbered-IsSound)

  kept-one_each : (k : Kind) → 3 < kind_value k → count (of_kind k) (kept library es) ≡ 1
  unfolding kept numbered
  kept-one_each k high =
      let refs' = library.sorter.sort Ref compare_keys (refs numbered) in
      let stay =
        discard_duplicates-IsKept library.sorter numbered numbered-IsSound
          (λ j above. omega (arith, numbered-count j, one_each j above)) numbered-IsKept in
      compact-count k (discard_duplicates refs' numbered) high stay
      ∙ discard_duplicates-count k refs' numbered
      ∙ numbered-count k
      ∙ one_each k high

  pub resolve-IsResolved :
      (p : Place) (out : List Entry) → resolve library p es ≡ ok out → IsResolved out
  unfolding resolve
  resolve-IsResolved p out h =
      let sorted = library.sorter.sort Entry compare_order (kept library es) in
      let perm = library.sorter.sort_perm Entry compare_order (kept library es) in
      let sound' : All IsSound sorted =
        All-of-In IsSound sorted
          (λ e i. All-In IsSound (kept library es) e kept-IsSound (Perm-In perm e i)) in
      let ones : (k : Kind) → 3 < kind_value k → count (of_kind k) sorted ≡ 1 =
        λ k high. Perm-count (of_kind k) perm ∙ kept-one_each k high in
      let last =
        Sorted-FallbackLast sorted
          (library.sorter.sort_sorted Entry compare_order compare_order-IsComparison
            (kept library es))
          sound' (omega (arith, ones always (omega arith))) in
      let run : finish library p sorted ≡ ok out = ground (arith, h) in
      let r = finish-IsResolved library p sorted out sound' last run in
      record { sound = r.0; one_each = λ k high. r.2 k ∙ ones k high; fallback_last = r.1 }
