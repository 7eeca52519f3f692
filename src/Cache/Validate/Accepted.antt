-- ===== src/Cache/Validate/Accepted.antt =====
-- src/filter/cache.c: the policy of a cache that was accepted.
use jaro_mail.Base.{
  if◌then◌else◌, Bool-cases, Option-cases, length, drop, count, Bytes, ℕ, ◌+◌, ◌≤◌, ◌<◌, ◌≡◌, refl,
  ap, ◌∙◌, subst, ◌≢◌, inl, inr, true, none, some, List, [], ◌∷◌, arith,
}
use jaro_mail.Result.{ok, ◌>>=◌, Result-cases, ok-injective}
use jaro_mail.Policy.Rules.{Kind, kind_value, Entry, Policy, sender_contains, spam_is, always}
use jaro_mail.Policy.Builtins.{of_kind}
use jaro_mail.Policy.Builtins.Kept.{FallbackLast}
use jaro_mail.Policy.Builtins.Sole.{one_each-HasBuiltins}
use jaro_mail.Policy.Resolve.{Library, compiled, rule_max, builtin_rules}
use jaro_mail.Classify.Build.{refs, build_index}
use jaro_mail.Classify.Message.Defs.{Engine, Message, validate, classify}
use jaro_mail.Classify.Message.Spec.{first_match}
use jaro_mail.Classify.Message.Legacy.{IsReliable}
use jaro_mail.Classify.Message.Winner.{classify-build_index}
use jaro_mail.Cache.Restore.{CachedRule, restore_entry, restore_loop, policy_restore}
use jaro_mail.Cache.Validate.{Catalogue, Scan, first_scan}
use jaro_mail.Cache.Validate.Whole.{
  Expected, nothing_expected, views_loop, validate_loop, word_at, read_header, complete,
  cache_validate, cache_policy,
}
use jaro_mail.Cache.Validate.Counted.{tally}
use jaro_mail.Cache.Validate.Restored.{restores, RuleLast, validate_loop-IsCounted}

-- The rules that a cache restores to.
record IsRestorable (rules : List CachedRule) : Type 0 where
  one_each : (k : Kind) → 3 < kind_value k → count (restores k) rules ≡ 1
  fallback_last : RuleLast rules
  limited : length rules ≤ rule_max + builtin_rules

read_header-count :
    (expected : Expected) (bytes : Bytes) (n : ℕ)
    → read_header expected bytes ≡ some n
    → word_at 88 bytes ≡ n
unfolding read_header
read_header-count expected bytes n h = ground (arith, h)

complete-tally :
    (bytes : Bytes) (s : Scan) (rest : Bytes)
    → complete bytes (s, rest) ≡ true
    → (k : Kind) → 3 < kind_value k
    → tally k s ≡ 1
unfolding complete
complete-tally bytes s rest h k high = ground (arith, h)

cache_validate-parts :
    (c : Catalogue) (expected : Expected) (bytes : Bytes)
    → cache_validate c expected bytes ≡ ok tt
    → (s : Scan) × (rest : Bytes) × (validate_loop c expected 0
          (word_at 88 bytes)
          first_scan
          (drop 92 bytes)
        ≡ some (s, rest))
      × (complete bytes (s, rest) ≡ true)
unfolding cache_validate
cache_validate-parts c expected bytes h = elim (Option-cases (read_header expected bytes)) [
  | inl e ↦ cc (rw (e, cache_validate) at h)
  | inr (n, e) ↦ elim (Option-cases (validate_loop c expected 0 n first_scan (drop 92 bytes))) [
    | inl f ↦ cc (rw (e, f, cache_validate) at h)
    | inr ((s, rest), f) ↦
        let count = read_header-count expected bytes n e in
        (
          s,
          rest,
          ap (λ k. validate_loop c expected 0 k first_scan (drop 92 bytes)) count ∙ f,
          elim (Bool-cases (complete bytes (s, rest))) [
            | inl t ↦ t
            | inr t ↦ cc (rw (e, f, t, cache_validate) at h)
          ],
        )
  ]
]

cache_validate-IsRestorable :
    (c : Catalogue) (expected : Expected) (bytes : Bytes)
    → cache_validate c expected bytes ≡ ok tt
    → (rules : List CachedRule) × (views_loop (word_at 88 bytes) (drop 92 bytes) ≡ some rules)
      × IsRestorable rules
cache_validate-IsRestorable c expected bytes h =
    let (s, rest, run, all_there) = cache_validate-parts c expected bytes h in
    let (rules, views, counted) = validate_loop-IsCounted c expected 0 _ first_scan _ s rest run in
    (
      rules,
      views,
      record {
        one_each = λ k high.
            let a = counted.counted k high in
            let b = complete-tally bytes s rest all_there k high in ground arith;
        fallback_last = counted.fallback_last;
        limited = let a = counted.numbered in let b = counted.limited (omega arith) in omega arith;
      },
    )

builtins-length :
    (rules : List CachedRule)
    → count (restores sender_contains) rules
        + count (restores spam_is) rules
        + count (restores always) rules
      ≤ length rules
builtins-length [] = omega arith
builtins-length (r ∷ rs) = let h = builtins-length rs in ground arith

-- The restored entries have the kinds of the rules.
abbrev Matching : List CachedRule → List Entry → Type 0
Matching rules es =
    ((k : Kind) → count (of_kind k) es ≡ count (restores k) rules)
    × FallbackLast es
    × (rules ≡ [] → es ≡ [])

module _ (library : Library) where
  restore_loop-next :
      (i : ℕ) (f : CachedRule) (fs : List CachedRule) (es : List Entry)
      → restore_loop library i (f ∷ fs) ≡ ok es
      → (rest : List Entry) × (restore_loop library (i + 1) fs ≡ ok rest)
        × (restore_entry i f ∷ rest ≡ es)
  unfolding restore_loop
  restore_loop-next i f fs es h = elim (Result-cases (restore_loop library (i + 1) fs)) [
    | inl (why, run) ↦ absurd (ground (arith, run, h))
    | inr (rest, run) ↦ (rest, run, ground (arith, run, h))
  ]

  restore_loop-counts :
      (i : ℕ) (rules : List CachedRule) (es : List Entry)
      → restore_loop library i rules ≡ ok es
      → RuleLast rules
      → Matching rules es
  unfolding restore_loop restore_entry
  restore_loop-counts i [] es h last =
      subst (Matching []) (ok-injective h) (λ k. refl, tt, λ e. refl)
  restore_loop-counts i (f ∷ fs) es h last =
      let (rest, run, same) = restore_loop-next i f fs es h in
      let (counts, last', empty) = restore_loop-counts (i + 1) fs rest run last.1 in
      subst (Matching (f ∷ fs)) same (
        λ k. ap (λ n. (if restores k f then 1 else 0) + n) (counts k),
        (λ e. empty (last.0 e), last'),
        λ e. cc e,
      )

  policy_restore-parts :
      (rules : List CachedRule) (p : Policy)
      → policy_restore library rules ≡ ok p
      → (es : List Entry) × (restore_loop library 0 rules ≡ ok es)
        × (build_index library.sorter es ≡ p)
  unfolding policy_restore
  policy_restore-parts rules p h = elim (Result-cases (restore_loop library 0 rules)) [
    | inl (why, run) ↦ absurd (ground (arith, run, h))
    | inr (es, run) ↦ (es, run, ground (arith, run, h))
  ]

  restore_loop-accepts :
      library.uselocale ≡ true
      → ((s : Bytes) → library.regcomp s ≡ compiled)
      → (i : ℕ) (rules : List CachedRule)
      → (es : List Entry) × (restore_loop library i rules ≡ ok es)
  unfolding restore_loop
  restore_loop-accepts locale compiles i [] = ([], refl)
  restore_loop-accepts locale compiles i (f ∷ fs) =
      let (rest, run) = restore_loop-accepts locale compiles (i + 1) fs in
      (restore_entry i f ∷ rest, let c = compiles f.predicate in ground arith)

cache_policy-run :
    (c : Catalogue) (library : Library) (bytes : Bytes) (rules : List CachedRule)
    → cache_validate c nothing_expected bytes ≡ ok tt
    → views_loop (word_at 88 bytes) (drop 92 bytes) ≡ some rules
    → cache_policy c library bytes ≡ some (policy_restore library rules)
unfolding cache_policy
cache_policy-run c library bytes rules h k = rw (h, k, cache_policy) refl

-- Whatever bytes are given as a cache, jf_cache_policy reads none outside them and fills the views of
-- no rule beyond their array: the loops, which make no test, run only behind a validation that
-- accepted.
pub cache_policy-reads :
    (c : Catalogue) (library : Library) (bytes : Bytes) → cache_policy c library bytes ≢ none
unfolding cache_policy
cache_policy-reads c library bytes outside =
    elim (Result-cases (cache_validate c nothing_expected bytes)) [
      | inl (why, e) ↦ cc (rw (e, cache_policy) at outside)
      | inr (u, e) ↦
          let (rules, views, w) = cache_validate-IsRestorable c nothing_expected bytes e in
          cc (cache_policy-run c library bytes rules e views, outside)
    ]

-- Where the validation accepts a cache and the C library compiles every pattern, jf_cache_policy
-- returns a policy: the bounds on the number of the rules, which the restoration tests again, hold.
pub cache_policy-accepts :
    (c : Catalogue) (library : Library) (bytes : Bytes)
    → cache_validate c nothing_expected bytes ≡ ok tt
    → library.uselocale ≡ true
    → ((s : Bytes) → library.regcomp s ≡ compiled)
    → (p : Policy) × (cache_policy c library bytes ≡ some (ok p))
unfolding policy_restore
cache_policy-accepts c library bytes h locale compiles =
    let (rules, views, w) = cache_validate-IsRestorable c nothing_expected bytes h in
    let (es, run) = restore_loop-accepts library locale compiles 0 rules in
    let enough : builtin_rules ≤ length rules =
      let b = w.one_each sender_contains (omega arith) in
      let s = w.one_each spam_is (omega arith) in
      let f = w.one_each always (omega arith) in omega (arith, b, s, f, builtins-length rules) in
    let restored : policy_restore library rules ≡ ok (build_index library.sorter es) =
      let limited = w.limited in ground arith in
    (
      build_index library.sorter es,
      cache_policy-run c library bytes rules h views ∙ ap some restored,
    )

-- Whatever bytes are given as a cache: where jf_cache_policy returns a policy, jf_policy_classify
-- under an engine that answers refuses the messages that fail its validation, with that error, and
-- returns for every other message the first rule of that policy, in the order of its rules, that
-- matches the message when each rule is tested by itself.
pub classify-cache_policy :
    (c : Catalogue) (library : Library) (bytes : Bytes) (p : Policy) (engine : Engine) (m : Message)
    → cache_policy c library bytes ≡ some (ok p)
    → IsReliable engine
    → classify engine p m ≡ (validate m >>= λ total. ok (first_match engine m (refs p.entries)))
unfolding cache_policy build_index
classify-cache_policy c library bytes p engine m h reliable =
    elim (Result-cases (cache_validate c nothing_expected bytes)) [
      | inl (why, e) ↦ cc (rw (e, cache_policy) at h)
      | inr (u, e) ↦
          let (rules, views, w) = cache_validate-IsRestorable c nothing_expected bytes e in
          let restored : policy_restore library rules ≡ ok p =
            cc (cache_policy-run c library bytes rules e views, h) in
          let (es, run, same) = policy_restore-parts library rules p restored in
          let (counts, last, empty) = restore_loop-counts library 0 rules es run w.fallback_last in
          let builtins = one_each-HasBuiltins es (λ k high. counts k ∙ w.one_each k high) last in
          subst
            (λ q.
              classify engine q m
              ≡ (validate m >>= λ total. ok (first_match engine m (refs q.entries))))
            same (classify-build_index engine library.sorter es m reliable builtins)
    ]
