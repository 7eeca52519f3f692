-- ===== src/Policy/Builtins/Marks.antt =====
-- src/filter/policy.c, resolve: the entries that are marked as duplicates are no builtins.
use jaro_mail.Base.{
  leb, if◌then◌else◌, leb→le, Bool-cases, All, All-map, In, All-In, All-of-In, count, strcmp_iff, ℕ,
  zero, suc, ◌+◌, ◌-◌, ◌≤◌, ◌<◌, ◌≡◌, refl, sym, ap, ◌∙◌, subst, inl, inr, Bool, true, false,
  Option, none, some, List, [], ◌∷◌, arith,
}
use jaro_mail.Sorter.{Sorter, Perm-In, Perm-count}
use jaro_mail.Policy.Rules.{Kind, kind_value, Entry, Ref}
use jaro_mail.Policy.Compare.{compare_key, compare_keys}
use jaro_mail.Policy.Resolve.{
  change, is_equal, is_contact, discard, discard_loop, discard_duplicates,
}
use jaro_mail.Policy.Builtins.{IsSound, of_kind, IsKept}
use jaro_mail.Policy.Builtins.Count.{change-count, change-All}
use jaro_mail.Classify.Build.{refs_from, refs}

-- The kind of the entry at a position.
kind_at : List Entry → ℕ → Option Kind
kind_at [] i = none
kind_at (e ∷ es) zero = some e.rule.kind
kind_at (e ∷ es) (suc i) = kind_at es i

discard-kind_at : (r : Ref) (es : List Entry) (i : ℕ) → kind_at (discard r es) i ≡ kind_at es i
unfolding discard change kind_at
discard-kind_at r es i = go r.position es i
  where
    go :
        (j : ℕ) (es : List Entry) (i : ℕ)
        → kind_at (change j (λ e. record e { discard = true }) es) i ≡ kind_at es i
    go j [] i = refl
    go zero (e ∷ es) zero = refl
    go zero (e ∷ es) (suc i) = refl
    go (suc j) (e ∷ es) zero = refl
    go (suc j) (e ∷ es) (suc i) = go j es i

-- A pointer whose entry has a low kind is marked without harm.
discard-IsKept :
    (r : Ref) (es : List Entry)
    → kind_at es r.position ≡ some r.entry.rule.kind
    → kind_value r.entry.rule.kind ≤ 3
    → All IsKept es
    → All IsKept (discard r es)
unfolding discard change kind_at
discard-IsKept r es at low h = go r.position es at h
  where
    go :
        (j : ℕ) (es : List Entry)
        → kind_at es j ≡ some r.entry.rule.kind
        → All IsKept es
        → All IsKept (change j (λ e. record e { discard = true }) es)
    go j [] at h = tt
    go zero (e ∷ es) at h =
        let same : e.rule.kind ≡ r.entry.rule.kind = cc at in
        (λ high. absurd (omega (arith, high, ap kind_value same)), h.1)
    go (suc j) (e ∷ es) at h = (h.0, go j es at h.1)

same_key-selector :
    (a b : Entry) → is_equal (compare_key a b) ≡ true → a.rule.selector ≡ b.rule.selector
unfolding compare_key
same_key-selector a b h = ground (arith, strcmp_iff a.rule.selector b.rule.selector)

-- The pointer is to an entry as it stands in the array.
abbrev IsAt : List Entry → Ref → Type 0
IsAt es r = (kind_at es r.position ≡ some r.entry.rule.kind) × IsSound r.entry

abbrev ref_kind : Kind → Ref → Bool
ref_kind k r = of_kind k r.entry

abbrev IsUnique : List Ref → Type 0
IsUnique rs = (k : Kind) → 3 < kind_value k → count (ref_kind k) rs ≤ 1

-- Two pointers in one group, one of them with the selector `t` shares: their kind is low.
shared-low :
    (t first r : Ref) (rs : List Ref)
    → IsSound t.entry
    → IsSound first.entry
    → IsSound r.entry
    → t.entry.rule.selector ≡ first.entry.rule.selector
    → first.entry.rule.selector ≡ r.entry.rule.selector
    → IsUnique (first ∷ r ∷ rs)
    → kind_value t.entry.rule.kind ≤ 3
shared-low t first r rs st sf sr e f unique =
    elim (Bool-cases (leb (kind_value t.entry.rule.kind) 3)) [
      | inl low ↦ leb→le _ _ low
      | inr more ↦
          let k = t.entry.rule.kind in
          let high : 3 < kind_value k = ground arith in
          let of_t = (st.selector_iff k high).0 refl in
          let of_first = (sf.selector_iff k high).1 (sym e ∙ of_t) in
          let of_r = (sr.selector_iff k high).1 (sym f ∙ sym e ∙ of_t) in
          let one : ref_kind k first ≡ true = ground arith in
          let other : ref_kind k r ≡ true = ground arith in
          let two = unique k high in absurd (ground arith)
    ]

pick : (P : Ref → Type 0) (b : Bool) (r s : Ref) → P r → P s → P (if b then r else s)
pick P true r s h k = h
pick P false r s h k = k

discard_loop-IsKept :
    (first last : Ref) (rs : List Ref) (es : List Entry)
    → All (IsAt es) (first ∷ last ∷ rs)
    → last.entry.rule.selector ≡ first.entry.rule.selector
    → IsUnique (first ∷ rs)
    → All IsKept es
    → All IsKept (discard_loop first last rs es)
unfolding discard_loop
discard_loop-IsKept first last [] es at same unique h = h
discard_loop-IsKept first last (r ∷ rs) es at same unique h =
    elim (Bool-cases (is_equal (compare_key first.entry r.entry))) [
      | inr other ↦
          let fewer : IsUnique (r ∷ rs) = λ k high. (let u = unique k high in omega arith) in
          rw (other, discard_loop)
            (discard_loop-IsKept r r rs es (at.1.1.0, (at.1.1.0, at.1.1.1)) refl fewer h)
      | inl equal ↦
          let fewer : IsUnique (first ∷ rs) = λ k high. (let u = unique k high in omega arith) in
          let key = same_key-selector first.entry r.entry equal in
          let target : Ref = if is_contact first.entry then r else last in
          let at_target : IsAt es target =
            pick (IsAt es) (is_contact first.entry) r last at.1.1.0 at.1.0 in
          let shares : target.entry.rule.selector ≡ first.entry.rule.selector =
            pick (λ (t : Ref). t.entry.rule.selector ≡ first.entry.rule.selector)
              (is_contact first.entry) r last (sym key) same in
          let low = shared-low target first r rs at_target.1 at.0.1 at.1.1.0.1 shares key unique in
          let stay : All (IsAt (discard target es)) (first ∷ r ∷ rs) =
            All-map (IsAt es) (IsAt (discard target es))
              (λ t at_t. (discard-kind_at target es t.position ∙ at_t.0, at_t.1)) (first ∷ r ∷ rs)
              (at.0, at.1.1) in
          rw (equal, discard_loop)
            (discard_loop-IsKept first r rs (discard target es) stay (sym key) fewer
              (discard-IsKept target es at_target.0 low h))
    ]

refs_from-kind_at :
    (i : ℕ) (es : List Entry) (r : Ref)
    → In r (refs_from i es)
    → (i ≤ r.position) × (kind_at es (r.position - i) ≡ some r.entry.rule.kind)
unfolding kind_at
refs_from-kind_at i [] r h = absurd h
refs_from-kind_at i (e ∷ es) r (inl same) =
    let here : r.position ≡ i = ap (λ (t : Ref). t.position) same in
    let none_left : r.position - i ≡ 0 = omega arith in
    (omega arith, rw none_left (ap (λ (t : Ref). some t.entry.rule.kind) (sym same)))
refs_from-kind_at i (e ∷ es) r (inr later) =
    let (below, at) = refs_from-kind_at (suc i) es r later in
    let one : r.position - i ≡ suc (r.position - suc i) = omega arith in (omega arith, rw one at)

refs_from-IsSound :
    (i : ℕ) (es : List Entry) → All IsSound es → All (λ r. IsSound r.entry) (refs_from i es)
refs_from-IsSound i [] h = tt
refs_from-IsSound i (e ∷ es) h = (h.0, refs_from-IsSound (suc i) es h.1)

refs_from-count :
    (k : Kind) (i : ℕ) (es : List Entry)
    → count (ref_kind k) (refs_from i es) ≡ count (of_kind k) es
refs_from-count k i [] = refl
refs_from-count k i (e ∷ es) =
    ap (λ n. (if of_kind k e then 1 else 0) + n) (refs_from-count k (suc i) es)

-- Where every builtin kind has one entry at most, the marking of the duplicates leaves it.
pub discard_duplicates-IsKept :
    (sorter : Sorter) (es : List Entry)
    → All IsSound es
    → ((k : Kind) → 3 < kind_value k → count (of_kind k) es ≤ 1)
    → All IsKept es
    → All IsKept (discard_duplicates (sorter.sort Ref compare_keys (refs es)) es)
unfolding discard_duplicates
discard_duplicates-IsKept sorter es sound unique h =
    let perm = sorter.sort_perm Ref compare_keys (refs es) in
    let at : All (IsAt es) (sorter.sort Ref compare_keys (refs es)) = All-of-In (IsAt es) _ (λ r i.
      let j = Perm-In perm r i in
      (
        subst (λ n. kind_at es n ≡ some r.entry.rule.kind) (omega arith)
            (refs_from-kind_at 0 es r j).1,
        All-In (λ (t : Ref). IsSound t.entry) (refs es) r (refs_from-IsSound 0 es sound) j,
      )) in
    let few : IsUnique (sorter.sort Ref compare_keys (refs es)) = λ k high.
      omega (arith, Perm-count (ref_kind k) perm, refs_from-count k 0 es, unique k high) in
    go (sorter.sort Ref compare_keys (refs es)) at few
  where
    go : (rs : List Ref) → All (IsAt es) rs → IsUnique rs → All IsKept (discard_duplicates rs es)
    go [] at few = h
    go (r ∷ rs) at few = discard_loop-IsKept r r rs es (at.0, (at.0, at.1)) refl few h

discard_loop-All :
    (P : Entry → Type 0)
    → ((e : Entry) → P e → P (record e { discard = true }))
    → (first last : Ref) (rs : List Ref) (es : List Entry) → All P es
    → All P (discard_loop first last rs es)
unfolding discard_loop discard
discard_loop-All P blind first last [] es h = h
discard_loop-All P blind first last (r ∷ rs) es h =
    elim (Bool-cases (is_equal (compare_key first.entry r.entry))) [
      | inr other ↦ rw (other, discard_loop) (discard_loop-All P blind r r rs es h)
      | inl equal ↦
          rw (equal, discard_loop)
            (discard_loop-All P blind first r rs _
              (change-All P _ (λ e. record e { discard = true }) es blind h))
    ]

discard_loop-count :
    (k : Kind) (first last : Ref) (rs : List Ref) (es : List Entry)
    → count (of_kind k) (discard_loop first last rs es) ≡ count (of_kind k) es
unfolding discard_loop discard
discard_loop-count k first last [] es = refl
discard_loop-count k first last (r ∷ rs) es =
    elim (Bool-cases (is_equal (compare_key first.entry r.entry))) [
      | inr other ↦ rw (other, discard_loop) (discard_loop-count k r r rs es)
      | inl equal ↦
          rw (equal, discard_loop)
            (discard_loop-count k first r rs _ ∙ change-count k _ _ es (λ e. refl))
    ]

pub discard_duplicates-All :
    (P : Entry → Type 0)
    → ((e : Entry) → P e → P (record e { discard = true }))
    → (rs : List Ref) (es : List Entry) → All P es
    → All P (discard_duplicates rs es)
unfolding discard_duplicates
discard_duplicates-All P blind [] es h = h
discard_duplicates-All P blind (r ∷ rs) es h = discard_loop-All P blind r r rs es h

pub discard_duplicates-count :
    (k : Kind) (rs : List Ref) (es : List Entry)
    → count (of_kind k) (discard_duplicates rs es) ≡ count (of_kind k) es
unfolding discard_duplicates
discard_duplicates-count k [] es = refl
discard_duplicates-count k (r ∷ rs) es = discard_loop-count k r r rs es
