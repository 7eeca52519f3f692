-- ===== src/Policy/Builtins/Sole.antt =====
-- src/filter/classify.c, jf_policy_build_index: entries with one of each builtin, the fallback at the
-- end, are what the index relies on.
use jaro_mail.Base.{
  Bool-cases, In, count, ℕ, suc, ◌≤◌, ◌<◌, ◌≡◌, refl, sym, ap, ◌∙◌, subst, ◌≢◌, inl, inr, true,
  List, [], ◌∷◌, arith,
}
use jaro_mail.Policy.Rules.{Kind, kind_value, Entry, Ref, sender_contains, spam_is, always}
use jaro_mail.Policy.Builtins.{of_kind}
use jaro_mail.Policy.Builtins.Kept.{FallbackLast}
use jaro_mail.Classify.Build.{refs_from}
use jaro_mail.Classify.Build.Indexed.{HasBuiltins}

refs_from-count-zero :
    (k : Kind) (i : ℕ) (es : List Entry) (s : Ref)
    → count (of_kind k) es ≡ 0
    → In s (refs_from i es)
    → s.entry.rule.kind ≢ k
refs_from-count-zero k i [] s few h e = h
refs_from-count-zero k i (x ∷ es) s few (inl same) e =
    let there : x.rule.kind ≡ k = ap (λ (t : Ref). t.entry.rule.kind) (sym same) ∙ e in
    let one : of_kind k x ≡ true = ground arith in ground arith
refs_from-count-zero k i (x ∷ es) s few (inr later) e =
    refs_from-count-zero k (suc i) es s (omega arith) later e

-- The one entry of a kind.
the_entry :
    (k : Kind) (i : ℕ) (es : List Entry)
    → count (of_kind k) es ≡ 1
    → (r : Ref) × In r (refs_from i es)
      × (r.entry.rule.kind ≡ k)
      × ((s : Ref) → In s (refs_from i es) → s.entry.rule.kind ≡ k → s ≡ r)
the_entry k i [] one = absurd (omega arith)
the_entry k i (x ∷ es) one = elim (Bool-cases (of_kind k x)) [
  | inl t ↦
      let is : x.rule.kind ≡ k = ground arith in
      let others : count (of_kind k) es ≡ 0 = ground arith in
      (
        record { position = i; entry = x },
        inl refl,
        is,
        λ s h e. elim h [
          | inl same ↦ same
          | inr later ↦ absurd (refs_from-count-zero k (suc i) es s others later e)
        ],
      )
  | inr f ↦
      let rest : count (of_kind k) es ≡ 1 = ground arith in
      let (r, inside, is, unique) = the_entry k (suc i) es rest in
      (
        r,
        inr inside,
        is,
        λ s h e. elim h [
          | inl same ↦
              let there : x.rule.kind ≡ k = ap (λ (t : Ref). t.entry.rule.kind) (sym same) ∙ e in
              absurd (ground arith)
          | inr later ↦ unique s later e
        ],
      )
]

refs_from-above : (i : ℕ) (es : List Entry) (r : Ref) → In r (refs_from i es) → i ≤ r.position
refs_from-above i [] r h = absurd h
refs_from-above i (x ∷ es) r (inl same) = omega (arith, ap (λ (t : Ref). t.position) same)
refs_from-above i (x ∷ es) r (inr later) = omega (arith, refs_from-above (suc i) es r later)

FallbackLast-position :
    (i : ℕ) (es : List Entry) (f r : Ref)
    → FallbackLast es
    → In f (refs_from i es)
    → f.entry.rule.kind ≡ always
    → In r (refs_from i es)
    → r.position ≤ f.position
FallbackLast-position i [] f r last inside is h = absurd h
FallbackLast-position i (x ∷ es) f r last (inl same) is (inl also) =
    omega (arith, ap (λ (t : Ref). t.position) same, ap (λ (t : Ref). t.position) also)
FallbackLast-position i (x ∷ es) f r last (inl same) is (inr later) =
    let there : x.rule.kind ≡ always = ap (λ (t : Ref). t.entry.rule.kind) (sym same) ∙ is in
    absurd (subst (λ xs. In r (refs_from (suc i) xs)) (last.0 there) later)
FallbackLast-position i (x ∷ es) f r last (inr later) is (inl same) =
    omega (arith, ap (λ (t : Ref). t.position) same, refs_from-above (suc i) es f later)
FallbackLast-position i (x ∷ es) f r last (inr later) is (inr later') =
    FallbackLast-position (suc i) es f r last.1 later is later'

-- What the index relies on follows from the counts and from the place of the fallback.
pub one_each-HasBuiltins :
    (es : List Entry)
    → ((k : Kind) → 3 < kind_value k → count (of_kind k) es ≡ 1)
    → FallbackLast es
    → HasBuiltins es
one_each-HasBuiltins es one_each last =
    let (b, b_in, b_is, b_only) =
      the_entry sender_contains 0 es (one_each sender_contains (omega arith)) in
    let (s, s_in, s_is, s_only) = the_entry spam_is 0 es (one_each spam_is (omega arith)) in
    let (f, f_in, f_is, f_only) = the_entry always 0 es (one_each always (omega arith)) in
    record {
      bounce_at = b;
      bounce_alone = record { inside = b_in; of_kind = b_is; unique = b_only };
      spam_at = s;
      spam_alone = record { inside = s_in; of_kind = s_is; unique = s_only };
      fallback_at = f;
      fallback_alone = record { inside = f_in; of_kind = f_is; unique = f_only };
      fallback_last = λ r h. FallbackLast-position 0 es f r last f_in f_is h;
    }
