-- ===== src/Classify/Message/Winner.antt =====
-- src/filter/classify.c: jf_policy_classify picks the first rule of the policy that matches.
use jaro_mail.Base.{
  if◌then◌else◌, Bool-cases, Option-cases, any, In, All-In, Bytes, codes, ◌≤◌, ◌<◌, ◌≡◌, refl, sym,
  ap, ◌∙◌, subst, ◌⊎◌, inl, inr, Bool, true, false, Option, some, List, [], ◌∷◌, arith,
}
use jaro_mail.Text.Ascii.{fold}
use jaro_mail.Text.Mailbox.{normalize_mailbox}
use jaro_mail.Result.{ok, ◌>>=◌}
use jaro_mail.Policy.Rules.{
  Kind, address, domain_apex, domain_subdomains, ere, sender_contains, spam_is, always, Entry, Ref,
  Policy, address_of, before,
}
use jaro_mail.Classify.Build.{refs, build_index}
use jaro_mail.Sorter.{Sorter}
use jaro_mail.Classify.Build.Indexed.{HasBuiltins, build_index-IsIndexed, refs_from-Ascending}
use jaro_mail.Classify.Text.{raw_match}
use jaro_mail.Classify.Best.{
  Improves, Improves-none, Improves-trans, Improves-map, Improves-candidate,
}
use jaro_mail.Classify.Index.Order.{Ascending}
use jaro_mail.Classify.Message.Defs.{
  Mailbox, Message, Engine, sender_loop, spam_loop, address_loop, validate, classify,
}
use jaro_mail.Classify.Message.Spec.{
  rule_matches, first_match, IsIndexed, address_hit, typed_hit, legacy_hit,
}
use jaro_mail.Classify.Message.Legacy.{IsReliable, Gives, address_loop-Gives}

abbrev bounces : List Bytes → Bool
bounces ss = any (λ s. raw_match s (codes "mailman-bounce") true) ss

abbrev flagged : List Bytes → Bool
flagged ss = any (λ s. raw_match s (codes "YES") false) ss

-- The least rule that matches is the first.
first_match_least :
    (engine : Engine) (m : Message) (rs : List Ref) (x : Ref)
    → Ascending rs
    → In x rs
    → rule_matches engine m x.entry ≡ true
    → ((s : Ref) → In s rs → rule_matches engine m s.entry ≡ true → x.position ≤ s.position)
    → first_match engine m rs ≡ some x
unfolding first_match
first_match_least engine m [] x a i h least = absurd i
first_match_least engine m (r ∷ rs) x a (inl same) h least =
    rw (subst (λ t. rule_matches engine m t.entry ≡ true) same h, first_match) (ap some (sym same))
first_match_least engine m (r ∷ rs) x a (inr later) h least =
    elim (Bool-cases (rule_matches engine m r.entry)) [
      | inl first ↦
          let behind = All-In (λ (s : Ref). r.position < s.position) rs x a.0 later in
          absurd (omega (arith, least r (inl refl) first))
      | inr miss ↦
          rw (miss, first_match)
            (first_match_least engine m rs x a.1 later h (λ s j k. least s (inr j) k))
    ]

sender_loop_lem :
    (p : Policy) (ss : List Bytes) (best : Option Ref)
    → sender_loop p ss best ≡ (if bounces ss then p.bounce else best)
unfolding sender_loop
sender_loop_lem p [] best = refl
sender_loop_lem p (s ∷ ss) best = ground (
  arith,
  sender_loop_lem p ss (if raw_match s (codes "mailman-bounce") true then p.bounce else best),
)

module _ (p : Policy) (w : IsIndexed p) where
  spam_loop-Improves :
      (ss : List Bytes) (best : Option Ref)
      → Improves (λ r. (r ≡ w.the_spam) × (flagged ss ≡ true)) best (spam_loop p ss best)
  unfolding spam_loop
  spam_loop-Improves [] best = Improves-none best (λ r h. cc (h.1))
  spam_loop-Improves (s ∷ ss) best = elim (Bool-cases (raw_match s (codes "YES") false)) [
    | inr plain ↦ rw plain (
        Improves-map (λ r h. (h.0, ground arith)) (λ r h. (h.0, ground arith))
          (spam_loop-Improves ss best))
    | inl yes_flag ↦ rw yes_flag (
        Improves-map (λ r. elim [ inl h ↦ (h, ground arith) | inr h ↦ (h.0, ground arith) ])
          (λ r h. inl h.0)
          (Improves-trans spam_candidate
            (spam_loop-Improves ss (if before p.spam best then p.spam else best))))
  ]
    where
      spam_candidate :
          Improves (λ r. r ≡ w.the_spam) best (if before p.spam best then p.spam else best)
      spam_candidate =
          subst (λ q. Improves (λ r. r ≡ w.the_spam) best (if before q best then q else best))
            (sym w.spam_only.points) (Improves-candidate best w.the_spam refl (λ r h. h))

  sender_loop-Improves :
      (ss : List Bytes)
      → Improves
          (λ r. (r ≡ w.the_bounce) × (bounces ss ≡ true))
          p.fallback
          (sender_loop p ss p.fallback)
  sender_loop-Improves ss = elim (Bool-cases (bounces ss)) [
    | inr none_of ↦
        rw (sender_loop_lem p ss p.fallback, none_of) (Improves-none p.fallback (λ r h. cc (h.1)))
    | inl some_of ↦
        rw (sender_loop_lem p ss p.fallback, some_of)
          record {
            chosen = inr (w.the_bounce, w.bounce_only.points, (refl, refl));
            keeps = omega (
              arith,
              ap address_of w.bounce_only.points,
              ap address_of w.fallback_only.points,
              w.fallback_last w.the_bounce w.bounce_only.inside,
            );
            least = λ r h.
                omega (arith, ap address_of w.bounce_only.points, ap (λ (t : Ref). t.position) h.0);
          }
  ]

-- How each kind of rule is met.
module _ (engine : Engine) (m : Message) (e : Entry) where
  bounce_rule : e.rule.kind ≡ sender_contains → rule_matches engine m e ≡ bounces m.senders
  unfolding rule_matches
  bounce_rule k = rw (k, rule_matches)

  spam_rule : e.rule.kind ≡ spam_is → rule_matches engine m e ≡ flagged m.spam_flags
  unfolding rule_matches
  spam_rule k = rw (k, rule_matches)

  fallback_rule : e.rule.kind ≡ always → rule_matches engine m e ≡ true
  unfolding rule_matches
  fallback_rule k = rw (k, rule_matches)

  no_address_rule :
      (ms : List Mailbox)
      → ((f : Bytes) → typed_hit e f ≡ false)
      → ((n : Bytes) → legacy_hit engine e n ≡ false)
      → any (address_hit engine e) ms ≡ false
  unfolding address_hit
  no_address_rule [] t l = refl
  no_address_rule (a ∷ ms) t l = elim (Option-cases (normalize_mailbox a.value)) [
    | inl e' ↦ rw (e', address_hit) (no_address_rule ms t l)
    | inr (n, e') ↦ rw (e', address_hit) (ground (arith, t (fold n), l n, no_address_rule ms t l))
  ]

  address_rule : any (address_hit engine e) m.addresses ≡ true → rule_matches engine m e ≡ true
  unfolding rule_matches typed_hit legacy_hit
  address_rule h = by_kind e.rule.kind refl
    where
      by_kind : (k : Kind) → e.rule.kind ≡ k → rule_matches engine m e ≡ true
      by_kind address k = ground arith
      by_kind domain_apex k = ground arith
      by_kind domain_subdomains k = ground arith
      by_kind ere k = ground arith
      by_kind always k = ground arith
      by_kind _ k =
          absurd (cc (no_address_rule m.addresses (λ f. ground arith) (λ f. ground arith), h))

module _ (engine : Engine) (reliable : IsReliable engine) (p : Policy) (w : IsIndexed p) where
  abbrev Hit : Message → Ref → Type 0
  Hit m r = In r (refs p.entries) × (rule_matches engine m r.entry ≡ true)

  -- What the three searches look for.
  abbrev Found : Message → Ref → Type 0
  Found m r =
      (((r ≡ w.the_bounce) × (bounces m.senders ≡ true))
        ⊎ ((r ≡ w.the_spam) × (flagged m.spam_flags ≡ true)))
      ⊎ (In r (refs p.entries) × (any (address_hit engine r.entry) m.addresses ≡ true))

  Found→Hit : (m : Message) (r : Ref) → Found m r → Hit m r
  Found→Hit m r (inl (inl (e, h))) =
      subst (Hit m) (sym e)
        (w.bounce_only.inside, bounce_rule engine m w.the_bounce.entry w.bounce_only.of_kind ∙ h)
  Found→Hit m r (inl (inr (e, h))) =
      subst (Hit m) (sym e)
        (w.spam_only.inside, spam_rule engine m w.the_spam.entry w.spam_only.of_kind ∙ h)
  Found→Hit m r (inr (i, h)) = (i, address_rule engine m r.entry h)

  Hit→Found : (m : Message) (r : Ref) → Hit m r → Found m r ⊎ (r ≡ w.the_fallback)
  unfolding rule_matches
  Hit→Found m r (i, h) = by_kind r.entry.rule.kind refl
    where
      by_kind : (k : Kind) → r.entry.rule.kind ≡ k → Found m r ⊎ (r ≡ w.the_fallback)
      by_kind sender_contains k = inl (inl (inl (w.bounce_only.unique r i k, ground arith)))
      by_kind spam_is k = inl (inl (inr (w.spam_only.unique r i k, ground arith)))
      by_kind always k = inr (w.fallback_only.unique r i k)
      by_kind _ k = inl (inr (i, ground arith))

  search-Improves :
      (m : Message)
      → Gives (Found m) p.fallback (
          address_loop engine p m.addresses
            (spam_loop p m.spam_flags (sender_loop p m.senders p.fallback)))
  search-Improves m =
      let bounced = sender_loop p m.senders p.fallback in
      let (b, run, i) =
        address_loop-Gives engine reliable p w m.addresses (spam_loop p m.spam_flags bounced) in
      (
        b,
        run,
        Improves-trans
            (Improves-trans (sender_loop-Improves p w m.senders)
              (spam_loop-Improves p w m.spam_flags bounced))
            i,
      )

  fallback-Hit : (m : Message) → Hit m w.the_fallback
  fallback-Hit m =
      (w.fallback_only.inside, fallback_rule engine m w.the_fallback.entry w.fallback_only.of_kind)

  least_Hit :
      (m : Message) (b : Option Ref)
      → Improves (Found m) p.fallback b
      → (x : Ref) → b ≡ some x
      → Hit m x
      → first_match engine m (refs p.entries) ≡ some x
  least_Hit m b i x points hit =
      first_match_least engine m (refs p.entries) x (refs_from-Ascending 0 p.entries) hit.0 hit.1
        (λ s inside h. elim (Hit→Found m s (inside, h)) [
          | inl found ↦ omega (arith, i.least s found, ap address_of points)
          | inr same ↦ omega (
            arith,
            i.keeps,
            ap address_of points,
            ap address_of w.fallback_only.points,
            ap (λ (t : Ref). t.position) same,
          )
        ])

  -- The pointer that the searches end with is the first rule that matches.
  winner :
      (m : Message) (b : Option Ref)
      → Improves (Found m) p.fallback b
      → first_match engine m (refs p.entries) ≡ b
  winner m b i = elim i.chosen [
    | inl same ↦
        let points = same ∙ w.fallback_only.points in
        least_Hit m b i w.the_fallback points (fallback-Hit m) ∙ sym points
    | inr (r, points, h) ↦ least_Hit m b i r points (Found→Hit m r h) ∙ sym points
  ]

  classify-first_match :
      (m : Message)
      → classify engine p m ≡ (validate m >>= λ total. ok (first_match engine m (refs p.entries)))
  unfolding classify
  classify-first_match m = let (b, run, i) = search-Improves m in simp (run, winner m b i)

-- For every sorter, an engine that answers and rules with the three builtins, the fallback last:
-- jf_policy_classify, on the index that jf_policy_build_index makes, refuses the messages that
-- fail its validation, with that error, and returns for every other message the first rule, in the
-- order of the rules, that matches it when each rule is tested by itself.
pub classify-build_index :
    (engine : Engine) (sorter : Sorter) (entries : List Entry) (m : Message)
    → IsReliable engine
    → HasBuiltins entries
    → classify engine (build_index sorter entries) m
      ≡ (validate m >>= λ total. ok (first_match engine m (refs entries)))
unfolding build_index
classify-build_index engine sorter entries m reliable b =
    classify-first_match engine reliable (build_index sorter entries)
      (build_index-IsIndexed sorter entries b) m
