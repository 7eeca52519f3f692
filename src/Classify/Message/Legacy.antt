-- ===== src/Classify/Message/Legacy.antt =====
-- src/filter/classify.c: the loop over the legacy rules stops at the first that matches, or at the
-- best rule so far; one round over the addresses.
use jaro_mail.Base.{
  Bool-cases, Option-cases, &&-eq-true, any, In, All-In, Bytes, ℕ, ◌≤◌, ◌<◌, ◌≡◌, refl, sym, ◌∙◌,
  subst, ◌≢◌, ◌↔◌, ◌⊎◌, inl, inr, true, false, ◌&&◌, ◌||◌, Option, none, some, List, [], ◌∷◌, arith,
}
use jaro_mail.Result.{Result, ok}
use jaro_mail.Text.Ascii.{fold}
use jaro_mail.Text.Mailbox.{normalize_mailbox}
use jaro_mail.Policy.Rules.{
  Kind, ere, address, domain_apex, domain_subdomains, Entry, Ref, Policy, before,
}
use jaro_mail.Classify.Best.{Improves, Improves-none, Improves-trans, Improves-map}
use jaro_mail.Classify.Build.{refs}
use jaro_mail.Classify.Index.Defs.{has_field}
use jaro_mail.Classify.Index.Order.{Ascending}
use jaro_mail.Classify.Message.Defs.{
  Mailbox, Match, matched, no_match, failed, Engine, legacy_loop, legacy_step, address_step,
  address_loop, typed_step,
}
use jaro_mail.Classify.Message.Spec.{
  is_matched, legacy_hit, typed_hit, address_hit, IsIndexed, IsTyped,
}
use jaro_mail.Classify.Message.Typed.{TypedHit, typed_step-Improves}

-- The engine runs every pattern to an answer, and the locale can be selected.
pub record IsReliable (engine : Engine) : Type 0 where
  pub answers : (pattern text : Bytes) → engine.regexec pattern text ≢ failed
  pub locale : engine.uselocale ≡ true

-- The run gives a pointer that improves the one it began with.
abbrev pub Gives : (Ref → Type 0) → Option Ref → Result (Option Ref) → Type 0
Gives Hit best run = (b : Option Ref) × (run ≡ ok b) × Improves Hit best b

pub Ascending-head :
    (r : Ref) (rs : List Ref)
    → Ascending (r ∷ rs)
    → (t : Ref) → In t (r ∷ rs)
    → r.position ≤ t.position
Ascending-head r rs a t (inl same) = rw same (omega arith)
Ascending-head r rs a t (inr i) =
    omega (arith, All-In (λ (s : Ref). r.position < s.position) rs t a.0 i)

Match-cases : (m : Match) → m ≢ failed → (m ≡ matched) ⊎ (m ≡ no_match)
Match-cases m h = ground arith

typed_hit-IsTyped : (e : Entry) (f : Bytes) → typed_hit e f ≡ true → IsTyped e.rule.kind
unfolding typed_hit
typed_hit-IsTyped e f h = by_kind e.rule.kind refl
  where
    by_kind : (k : Kind) → e.rule.kind ≡ k → IsTyped k
    by_kind address k = tt
    by_kind domain_apex k = tt
    by_kind domain_subdomains k = tt
    by_kind _ k = ground arith

legacy_hit_iff :
    (engine : Engine) (e : Entry) (n : Bytes)
    → (legacy_hit engine e n ≡ true)
      ↔ ((e.rule.kind ≡ ere) × (is_matched (engine.regexec e.rule.predicate n) ≡ true))
unfolding legacy_hit
legacy_hit_iff engine e n = ground arith

address_hit-none :
    (engine : Engine) (e : Entry) (m : Mailbox)
    → normalize_mailbox m.value ≡ none
    → address_hit engine e m ≡ false
unfolding address_hit
address_hit-none engine e m h = rw (h, address_hit)

address_hit-some :
    (engine : Engine) (e : Entry) (m : Mailbox) (n : Bytes)
    → normalize_mailbox m.value ≡ some n
    → address_hit engine e m
      ≡ (has_field m.field e && (typed_hit e (fold n) || legacy_hit engine e n))
unfolding address_hit
address_hit-some engine e m n h = rw (h, address_hit)

module _ (engine : Engine) (reliable : IsReliable engine) where
  module _ (field : ℕ) (mailbox : Bytes) where
    abbrev Matches : Ref → Type 0
    Matches r =
        (has_field field r.entry ≡ true)
        × (is_matched (engine.regexec r.entry.rule.predicate mailbox) ≡ true)

    -- A rule that is passed over is none of those to find.
    passed_over :
        {best b : Option Ref} (r : Ref) (rs : List Ref)
        → ¬ Matches r
        → Improves (λ t. In t rs × Matches t) best b
        → Improves (λ t. In t (r ∷ rs) × Matches t) best b
    passed_over r rs misses i =
        Improves-map (λ t h. (inr h.0, h.1))
          (λ t h. elim h.0 [
            | inl same ↦ absurd (misses (subst Matches same h.1))
            | inr later ↦ (later, h.1)
          ])
          i

    legacy_loop-Gives :
        (rs : List Ref) (best : Option Ref)
        → Ascending rs
        → Gives (λ r. In r rs × Matches r) best (legacy_loop engine field mailbox rs best)
    unfolding legacy_loop
    legacy_loop-Gives [] best a = (best, refl, Improves-none best (λ r h. absurd h.0))
    legacy_loop-Gives (r ∷ rs) best a = elim (Bool-cases (before (some r) best)) [
      | inr late ↦ (
        best,
        rw (late, legacy_loop),
        record {
          chosen = inl refl;
          keeps = omega arith;
          least = λ t h. let after = Ascending-head r rs a t h.0 in ground arith;
        },
      )
      | inl early ↦
          let (b, run, i) = legacy_loop-Gives rs best a.1 in
          elim (Bool-cases (has_field field r.entry)) [
            | inr lacks ↦
                (b, rw (early, lacks, legacy_loop) run, passed_over r rs (λ h. cc (h.0)) i)
            | inl has ↦
                elim (Match-cases (engine.regexec r.entry.rule.predicate mailbox)
                  (reliable.answers _ _)) [
                    | inr other ↦ (
                      b,
                      rw (early, has, other, legacy_loop) run,
                      passed_over r rs (λ h. ground arith) i,
                    )
                    | inl hit ↦ (
                      some r,
                      rw (early, has, hit, legacy_loop),
                      record {
                        chosen = inr (r, refl, (inl refl, (has, ground arith)));
                        keeps = ground arith;
                        least = λ t h. let after = Ascending-head r rs a t h.0 in omega arith;
                      },
                    )
                  ]
          ]
    ]

    legacy_step-Gives :
        (rs : List Ref) (best : Option Ref)
        → Ascending rs
        → Gives (λ r. In r rs × Matches r) best (legacy_step engine field mailbox rs best)
    unfolding legacy_step
    legacy_step-Gives [] best a = (best, refl, Improves-none best (λ r h. absurd h.0))
    legacy_step-Gives (r ∷ rs) best a =
        let (b, run, i) = legacy_loop-Gives (r ∷ rs) best a in (b, simp (reliable.locale) run, i)

  module _ (p : Policy) (w : IsIndexed p) where
    -- A rule of the policy that reads addresses.
    abbrev pub ByAddress : Kind → Type 0
    ByAddress ere = Unit
    ByAddress k = IsTyped k

    abbrev pub AddressHit : Mailbox → Ref → Type 0
    AddressHit m r = In r (refs p.entries) × (address_hit engine r.entry m ≡ true)

    abbrev Parts : Mailbox → Bytes → Ref → Type 0
    Parts m n r =
        TypedHit p.index m.field w.index_sorted (fold n) r ⊎ (In r p.legacy × Matches m.field n r)

    Parts-AddressHit :
        (m : Mailbox) (n : Bytes)
        → normalize_mailbox m.value ≡ some n
        → (r : Ref) → Parts m n r
        → AddressHit m r
    Parts-AddressHit m n e r (inl (i, has, hit)) =
        (((w.index_iff r).0 i).0, ground (arith, address_hit-some engine r.entry m n e))
    Parts-AddressHit m n e r (inr (i, (has, hit))) = (
      ((w.legacy_iff r).0 i).0,
      ground (
        arith,
        address_hit-some engine r.entry m n e,
        (legacy_hit_iff engine r.entry n).1 (((w.legacy_iff r).0 i).1, hit),
      ),
    )

    AddressHit-Parts :
        (m : Mailbox) (n : Bytes)
        → normalize_mailbox m.value ≡ some n
        → (r : Ref) → AddressHit m r
        → Parts m n r
    AddressHit-Parts m n e r (i, hit) =
        let both =
          &&-eq-true (has_field m.field r.entry)
            (typed_hit r.entry (fold n) || legacy_hit engine r.entry n)
            (sym (address_hit-some engine r.entry m n e) ∙ hit) in
        elim (Bool-cases (typed_hit r.entry (fold n))) [
          | inl h ↦ inl ((w.index_iff r).1 (i, typed_hit-IsTyped r.entry (fold n) h), both.0, h)
          | inr miss ↦
              let legacy = (legacy_hit_iff engine r.entry n).0 (ground arith) in
              inr ((w.legacy_iff r).1 (i, legacy.0), (both.0, legacy.1))
        ]

    address_step-Gives :
        (m : Mailbox) (best : Option Ref) → Gives (AddressHit m) best (address_step engine p m best)
    unfolding address_step
    address_step-Gives m best = elim (Option-cases (normalize_mailbox m.value)) [
      | inl e ↦ (
        best,
        rw (e, address_step),
        Improves-none best (λ r h. cc (h.1, address_hit-none engine r.entry m e)),
      )
      | inr (n, e) ↦
          let typed = typed_step p.index m.field (fold n) best in
          let (b, run, j) = legacy_step-Gives m.field n p.legacy typed w.legacy_sorted in
          (
            b,
            rw (e, address_step) run,
            Improves-map (Parts-AddressHit m n e) (AddressHit-Parts m n e) (
                Improves-trans (typed_step-Improves p.index m.field w.index_sorted (fold n) best)
                  j),
          )
    ]

    pub address_loop-Gives :
        (ms : List Mailbox) (best : Option Ref)
        → Gives
            (λ r. In r (refs p.entries) × (any (address_hit engine r.entry) ms ≡ true))
            best
            (address_loop engine p ms best)
    unfolding address_loop
    address_loop-Gives [] best = (best, refl, Improves-none best (λ r h. cc (h.1)))
    address_loop-Gives (m ∷ ms) best =
        let (c, first, i) = address_step-Gives m best in
        let (b, rest, j) = address_loop-Gives ms c in
        (
          b,
          rw (first, address_loop) rest,
          Improves-map (λ r. elim [ inl h ↦ (h.0, ground arith) | inr h ↦ (h.0, ground arith) ])
              (λ r h. elim (Bool-cases (address_hit engine r.entry m)) [
                | inl hit ↦ inl (h.0, hit)
                | inr miss ↦ inr (h.0, ground arith)
              ])
              (Improves-trans i j),
        )
