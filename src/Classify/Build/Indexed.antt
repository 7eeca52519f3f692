-- ===== src/Classify/Build/Indexed.antt =====
-- src/filter/classify.c, jf_policy_build_index: the index that classification relies on.
use jaro_mail.Base.{
  Bool-cases, All, All-map, In, strcmp_iff, strcmp_antisymm, strcmp_trans, strcmp_lt_le_trans, ℕ,
  suc, ◌≤◌, ◌<◌, Ordering, ◌≡◌, refl, sym, ap, ◌∙◌, subst, ◌≢◌, ◌↔◌, ◌⊎◌, inl, inr, Bool, true,
  Option, some, List, [], ◌∷◌, arith,
}
use jaro_mail.Sorter.{Sorter, IsComparison, Sorted, Perm-In}
use mathlib.Core.List.Permᴰ
use jaro_mail.Policy.Rules.{
  Kind, address, domain_apex, domain_subdomains, ere, sender_contains, spam_is, always, Entry, Ref,
}
use jaro_mail.Classify.Index.Defs.{compare_index, compare_lookup, index_key}
use jaro_mail.Classify.Index.Order.{Ascending, IsSorted, IndexLe}
use jaro_mail.Classify.Message.Spec.{IsTyped, IsOnly, IsIndexed}
use jaro_mail.Classify.Build.{
  Pointers, assign, assign_all, is_typed, is_legacy, collect, refs_from, refs, build_index,
}

pub refs_from-Ascending : (i : ℕ) (es : List Entry) → Ascending (refs_from i es)
refs_from-Ascending i [] = tt
refs_from-Ascending i (e ∷ es) = (later i (suc i) es (omega arith), refs_from-Ascending (suc i) es)
  where
    later : (i j : ℕ) (es : List Entry) → i < j → All (λ s. i < s.position) (refs_from j es)
    later i j [] h = tt
    later i j (e ∷ es) h = (h, later i (suc j) es (omega arith))

collect_iff :
    (p : Kind → Bool) (rs : List Ref) (r : Ref)
    → In r (collect p rs) ↔ (In r rs × (p r.entry.rule.kind ≡ true))
unfolding collect
collect_iff p [] r = (λ h. absurd h, λ h. absurd h.0)
collect_iff p (x ∷ rs) r = elim (Bool-cases (p x.entry.rule.kind)) [
  | inl keep ↦
      rw (keep, collect)
        (
          elim [
            | inl e ↦ (inl e, subst (λ (t : Ref). p t.entry.rule.kind ≡ true) (sym e) keep)
            | inr later ↦ let h = (collect_iff p rs r).0 later in (inr h.0, h.1)
          ],
          λ h. elim h.0 [ inl e ↦ inl e | inr later ↦ inr ((collect_iff p rs r).1 (later, h.1)) ],
        )
  | inr skip ↦
      rw (skip, collect)
        (
          λ later. let h = (collect_iff p rs r).0 later in (inr h.0, h.1),
          λ h. elim h.0 [
            | inl e ↦ absurd (cc (subst (λ (t : Ref). p t.entry.rule.kind ≡ true) e h.1, skip))
            | inr later ↦ (collect_iff p rs r).1 (later, h.1)
          ],
        )
]

compare_index-IsComparison : IsComparison compare_index
unfolding compare_index compare_lookup
compare_index-IsComparison = record {
  flip = λ a b h. ground (
    arith,
    strcmp_antisymm (index_key a.entry) (index_key b.entry),
    strcmp_antisymm (index_key b.entry) (index_key a.entry),
    strcmp_iff (index_key a.entry) (index_key b.entry),
    strcmp_iff (index_key b.entry) (index_key a.entry),
  );
  trans = λ a b c h k. ground (
    arith,
    strcmp_trans (index_key a.entry) (index_key b.entry) (index_key c.entry),
    strcmp_lt_le_trans (index_key a.entry) (index_key b.entry) (index_key c.entry),
    strcmp_iff (index_key a.entry) (index_key b.entry),
    strcmp_iff (index_key b.entry) (index_key c.entry),
  );
}

compare_index-IndexLe : (r t : Ref) → compare_index r t ≢ Ordering.gt → IndexLe r t
unfolding compare_index
compare_index-IndexLe r t h = ground arith

Sorted→IsSorted : (rs : List Ref) → Sorted compare_index rs → IsSorted rs
Sorted→IsSorted [] s = tt
Sorted→IsSorted (r ∷ rs) s = (
  All-map (λ t. compare_index r t ≢ Ordering.gt) (IndexLe r) (compare_index-IndexLe r) rs s.0,
  Sorted→IsSorted rs s.1,
)

collect-Ascending : (p : Kind → Bool) (rs : List Ref) → Ascending rs → Ascending (collect p rs)
unfolding collect
collect-Ascending p [] a = tt
collect-Ascending p (r ∷ rs) a = elim (Bool-cases (p r.entry.rule.kind)) [
  | inr skip ↦ rw (skip, collect) (collect-Ascending p rs a.1)
  | inl keep ↦ rw (keep, collect) (below rs a.0, collect-Ascending p rs a.1)
]
  where
    below :
        (ts : List Ref)
        → All (λ s. r.position < s.position) ts
        → All (λ s. r.position < s.position) (collect p ts)
    below [] h = tt
    below (t ∷ ts) h = elim (Bool-cases (p t.entry.rule.kind)) [
      | inr skip ↦ rw (skip, collect) (below ts h.1)
      | inl keep ↦ rw (keep, collect) (h.0, below ts h.1)
    ]

-- The entry at `r` is the only one of its kind.
pub record Alone (entries : List Entry) (kind : Kind) (r : Ref) : Type 0 where
  pub inside : In r (refs entries)
  pub of_kind : r.entry.rule.kind ≡ kind
  pub unique : (s : Ref) → In s (refs entries) → s.entry.rule.kind ≡ kind → s ≡ r

-- What the loop leaves in each pointer: the last entry of the kind.
assigned :
    (kind : Kind) (get : Pointers → Option Ref)
    → ((r : Ref) (q : Pointers) → r.entry.rule.kind ≡ kind → get (assign r q) ≡ some r)
    → ((r : Ref) (q : Pointers) → r.entry.rule.kind ≢ kind → get (assign r q) ≡ get q)
    → (dec : (k : Kind) → (k ≡ kind) ⊎ (k ≢ kind)) → (rs : List Ref) (r : Ref) (q : Pointers)
    → ((s : Ref) → In s rs → s.entry.rule.kind ≡ kind → s ≡ r)
    → In r rs ⊎ (get q ≡ some r)
    → r.entry.rule.kind ≡ kind
    → get (assign_all rs q) ≡ some r
unfolding assign_all
assigned kind get hit miss dec [] r q unique (inl i) k = absurd i
assigned kind get hit miss dec [] r q unique (inr e) k = e
assigned kind get hit miss dec (x ∷ rs) r q unique i k = elim (dec x.entry.rule.kind) [
  | inl same ↦
      let here = unique x (inl refl) same in
      assigned kind get hit miss dec rs r (assign x q) (λ s j. unique s (inr j))
        (inr (hit x q same ∙ ap some here)) k
  | inr other ↦
      assigned kind get hit miss dec rs r (assign x q) (λ s j. unique s (inr j))
        (elim i [
          | inl (inl e) ↦ absurd (other (sym (ap (λ (t : Ref). t.entry.rule.kind) e) ∙ k))
          | inl (inr later) ↦ inl later
          | inr e ↦ inr (miss x q other ∙ e)
        ])
        k
]

is_typed_iff : (k : Kind) → (is_typed k ≡ true) ↔ IsTyped k
is_typed_iff address = (λ h. tt, λ h. refl)
is_typed_iff domain_apex = (λ h. tt, λ h. refl)
is_typed_iff domain_subdomains = (λ h. tt, λ h. refl)
is_typed_iff _ = (λ h. cc h, λ h. absurd h)

is_legacy_iff : (k : Kind) → (is_legacy k ≡ true) ↔ (k ≡ ere)
is_legacy_iff k = ground arith

Kind-dec : (kind k : Kind) → (k ≡ kind) ⊎ (k ≢ kind)
Kind-dec kind k = ground arith

-- What the rules of a policy are: one of each builtin, the fallback behind all others.
pub record HasBuiltins (entries : List Entry) : Type 0 where
  pub bounce_at : Ref
  pub bounce_alone : Alone entries sender_contains bounce_at
  pub spam_at : Ref
  pub spam_alone : Alone entries spam_is spam_at
  pub fallback_at : Ref
  pub fallback_alone : Alone entries always fallback_at
  pub fallback_last : (r : Ref) → In r (refs entries) → r.position ≤ fallback_at.position

module _ (sorter : Sorter) (entries : List Entry) (b : HasBuiltins entries) where
  only :
      (kind : Kind) (get : Pointers → Option Ref)
      → ((r : Ref) (q : Pointers) → r.entry.rule.kind ≡ kind → get (assign r q) ≡ some r)
      → ((r : Ref) (q : Pointers) → r.entry.rule.kind ≢ kind → get (assign r q) ≡ get q)
      → (q : Pointers) (r : Ref) → Alone entries kind r
      → IsOnly entries kind (get (assign_all (refs entries) q)) r
  only kind get hit miss q r a = record {
    points =
        assigned kind get hit miss (Kind-dec kind) (refs entries) r q a.unique (inl a.inside)
          a.of_kind;
    inside = a.inside;
    of_kind = a.of_kind;
    unique = a.unique;
  }

  -- jf_policy_build_index, on rules with the three builtins, the fallback last, gives the policy
  -- that classification relies on: an index of exactly the typed rules sorted by kind and key, the
  -- legacy rules in order, and pointers to the builtins.
  pub build_index-IsIndexed : IsIndexed (build_index sorter entries)
  unfolding build_index assign
  build_index-IsIndexed = record {
    index_sorted =
        Sorted→IsSorted _ (sorter.sort_sorted Ref compare_index compare_index-IsComparison _);
    index_iff = λ r. (
      λ i.
          let h =
            (collect_iff is_typed (refs entries) r).0
              (Perm-In (sorter.sort_perm Ref compare_index _) r i) in
          (h.0, (is_typed_iff r.entry.rule.kind).0 h.1),
      λ h.
          Perm-In (Permᴰ.symm (sorter.sort_perm Ref compare_index _)) r (
            (collect_iff is_typed (refs entries) r).1
              (h.0, (is_typed_iff r.entry.rule.kind).1 h.1)),
    );
    legacy_sorted = collect-Ascending is_legacy (refs entries) (refs_from-Ascending 0 entries);
    legacy_iff = λ r. (
      λ i.
          let h = (collect_iff is_legacy (refs entries) r).0 i in
          (h.0, (is_legacy_iff r.entry.rule.kind).0 h.1),
      λ h.
          (collect_iff is_legacy (refs entries) r).1 (h.0, (is_legacy_iff r.entry.rule.kind).1 h.1),
    );
    the_bounce = b.bounce_at;
    bounce_only =
        only sender_contains (λ q. q.bounce) (λ r q k. ground arith) (λ r q k. ground arith) _
          b.bounce_at b.bounce_alone;
    the_spam = b.spam_at;
    spam_only =
        only spam_is (λ q. q.spam) (λ r q k. ground arith) (λ r q k. ground arith) _ b.spam_at
          b.spam_alone;
    the_fallback = b.fallback_at;
    fallback_only =
        only always (λ q. q.fallback) (λ r q k. ground arith) (λ r q k. ground arith) _
          b.fallback_at b.fallback_alone;
    fallback_last = b.fallback_last;
  }
