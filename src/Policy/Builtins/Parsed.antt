-- ===== src/Policy/Builtins/Parsed.antt =====
-- src/filter/policy.c and classify.c: a policy that was parsed is classified by its first rule.
use jaro_mail.Base.{
  ◌==◌, if◌then◌else◌, length, All, All-append, All-map, count, count-append, Bytes, codes, ℕ, ◌+◌,
  ◌<◌, ◌≡◌, refl, ap, ◌∙◌, subst, false, Option, none, List, [], ◌∷◌, arith,
}
use jaro_mail.Result.{ok, ◌>>=◌, bind-eq-ok, ok-injective}
use jaro_mail.Policy.Rules.{
  Kind, kind_value, Entry, Policy, sender_contains, spam_is, always, sender_field, spam_field,
}
use jaro_mail.Policy.Lex.{Place}
use jaro_mail.Policy.Parse.{Source, append, new_entry}
use jaro_mail.Policy.Compare.{SourceRef, compare_sources}
use jaro_mail.Policy.Resolve.{Library, resolve}
use jaro_mail.Policy.Build.{check_sources, sources_loop, append_builtins, policy_parse, nowhere}
use jaro_mail.Policy.Builtins.{IsPlain, IsSound, IsPlain-IsSound, builtin_selector, of_kind}
use jaro_mail.Policy.Builtins.Plain.{sources_loop-IsPlain}
use jaro_mail.Policy.Builtins.Sole.{one_each-HasBuiltins}
use jaro_mail.Policy.Builtins.Kept.{IsResolved, resolve-IsResolved}
use jaro_mail.Classify.Build.{refs, build_index}
use jaro_mail.Classify.Message.Defs.{Engine, Message, validate, classify}
use jaro_mail.Classify.Message.Spec.{first_match}
use jaro_mail.Classify.Message.Legacy.{IsReliable}
use jaro_mail.Classify.Message.Winner.{classify-build_index}

-- The entries of the sources hold no builtin.
IsPlain-count :
    (k : Kind) (es : List Entry) → 3 < kind_value k → All IsPlain es → count (of_kind k) es ≡ 0
IsPlain-count k [] high h = refl
IsPlain-count k (e ∷ es) high h =
    let low = h.0.low_kind in let rest = IsPlain-count k es high h.1 in ground arith

append-count :
    (k : Kind) (es : List Entry) (p : Place) (s : Option Source) (sel pred logical : Bytes)
    (kind : Kind) (stage mask : ℕ)
    → count (of_kind k) (append es p s sel pred logical kind stage mask)
      ≡ count (of_kind k) es + (if kind_value kind == kind_value k then 1 else 0)
unfolding append new_entry
append-count k es p s sel pred logical kind stage mask = omega (
  arith,
  count-append (of_kind k) es (new_entry (length es) p s sel pred logical kind stage mask ∷ []),
)

append-All {κ} :
    (P : Entry → Type κ) (es : List Entry) (p : Place) (s : Option Source)
    (sel pred logical : Bytes) (kind : Kind) (stage mask : ℕ)
    → All P es
    → ((n : ℕ) → P (new_entry n p s sel pred logical kind stage mask))
    → All P (append es p s sel pred logical kind stage mask)
unfolding append
append-All P es p s sel pred logical kind stage mask h k = All-append P es _ h (k (length es), tt)

append_builtins-All {κ} :
    (P : Entry → Type κ) (es : List Entry)
    → All P es
    → ((n : ℕ)
        → P (
            new_entry n nowhere none
              (codes "bounce")
              (codes "mailman-bounce")
              (codes "zz.bounces")
              sender_contains
              2
              sender_field))
    → ((n : ℕ)
        → P (
            new_entry n nowhere none
              (codes "spam")
              (codes "YES")
              (codes "spam")
              spam_is
              6
              spam_field))
    → ((n : ℕ) → P (new_entry n nowhere none (codes "unsorted") [] (codes "unsorted") always 8 0))
    → All P (append_builtins es)
unfolding append_builtins
append_builtins-All P es h bounce spam unsorted =
    append-All P _ nowhere none _ _ _ always 8 0
      (append-All P _ nowhere none _ _ _ spam_is 6 spam_field
        (append-All P es nowhere none _ _ _ sender_contains 2 sender_field h bounce) spam)
      unsorted

builtin_counts :
    (k : Kind)
    → 3 < kind_value k
    → 0
        + (if 4 == kind_value k then 1 else 0)
        + (if 5 == kind_value k then 1 else 0)
        + (if 6 == kind_value k then 1 else 0)
      ≡ 1
builtin_counts k high = ground arith

builtin_selector-injective :
    (j k : Kind)
    → 3 < kind_value j
    → 3 < kind_value k
    → builtin_selector j ≡ builtin_selector k
    → j ≡ k
builtin_selector-injective j k h i e = ground arith

append_builtins-count :
    (k : Kind) (es : List Entry)
    → 3 < kind_value k
    → All IsPlain es
    → count (of_kind k) (append_builtins es) ≡ 1
unfolding append_builtins
append_builtins-count k es high h =
    let bounce =
      append es nowhere none (codes "bounce") (codes "mailman-bounce") (codes "zz.bounces")
        sender_contains 2 sender_field in
    let spam =
      append bounce nowhere none (codes "spam") (codes "YES") (codes "spam") spam_is 6 spam_field in
    append-count k spam nowhere none (codes "unsorted") [] (codes "unsorted") always 8 0
    ∙ ap (λ n. n + (if 6 == kind_value k then 1 else 0))
        (append-count k bounce nowhere none (codes "spam") (codes "YES") (codes "spam") spam_is 6
            spam_field
          ∙ ap (λ n. n + (if 5 == kind_value k then 1 else 0))
              (append-count k es nowhere none (codes "bounce") (codes "mailman-bounce")
                  (codes "zz.bounces") sender_contains 2 sender_field
                ∙ ap (λ n. n + (if 4 == kind_value k then 1 else 0)) (IsPlain-count k es high h)))
    ∙ builtin_counts k high

append_builtins-IsSound : (es : List Entry) → All IsPlain es → All IsSound (append_builtins es)
unfolding append_builtins new_entry
append_builtins-IsSound es h =
    append_builtins-All IsSound es (All-map IsPlain IsSound IsPlain-IsSound es h)
      (λ n. record {
        selector_iff = λ k high.
            (ap builtin_selector, builtin_selector-injective sender_contains k (omega arith) high);
        stage_iff = ground arith;
      })
      (λ n. record {
        selector_iff = λ k high.
            (ap builtin_selector, builtin_selector-injective spam_is k (omega arith) high);
        stage_iff = ground arith;
      })
      (λ n. record {
        selector_iff =
            λ k high. (ap builtin_selector, builtin_selector-injective always k (omega arith) high);
        stage_iff = ground arith;
      })

append_builtins-undiscarded :
    (es : List Entry) → All IsPlain es → All (λ e. e.discard ≡ false) (append_builtins es)
unfolding append_builtins new_entry
append_builtins-undiscarded es h =
    append_builtins-All (λ e. e.discard ≡ false) es
      (All-map IsPlain (λ e. e.discard ≡ false) (λ e p. p.undiscarded) es h) (λ n. refl) (λ n. refl)
      (λ n. refl)

-- What policy_parse returns is the index of resolved entries.
policy_parse-IsResolved :
    (library : Library) (sources : List Source) (p : Policy)
    → policy_parse library sources ≡ ok p
    → (es : List Entry) × IsResolved es × (build_index library.sorter es ≡ p)
unfolding policy_parse
policy_parse-IsResolved library sources p h =
    let (checked, c, h1) = bind-eq-ok (check_sources 0 sources) _ h in
    let (entries, e, h2) =
      bind-eq-ok (sources_loop [] (library.sorter.sort SourceRef compare_sources checked)) _ h1 in
    let (resolved, r, h3) = bind-eq-ok (resolve library nowhere (append_builtins entries)) _ h2 in
    let plain = sources_loop-IsPlain _ [] entries tt e in
    (
      resolved,
      resolve-IsResolved library (append_builtins entries) (append_builtins-IsSound entries plain)
          (append_builtins-undiscarded entries plain)
          (λ k high. append_builtins-count k entries high plain) nowhere resolved r,
      ok-injective h3,
    )

-- For every C library that sorts, whatever the sources hold: where jf_policy_parse succeeds,
-- jf_policy_classify under an engine that answers refuses the messages that fail its validation, with
-- that error, and returns for every other message the first rule of the parsed policy, in the order
-- of its rules, that matches the message when each rule is tested by itself.
pub classify-policy_parse :
    (library : Library) (sources : List Source) (p : Policy) (engine : Engine) (m : Message)
    → policy_parse library sources ≡ ok p
    → IsReliable engine
    → classify engine p m ≡ (validate m >>= λ total. ok (first_match engine m (refs p.entries)))
unfolding build_index
classify-policy_parse library sources p engine m h reliable =
    let (es, resolved, same) = policy_parse-IsResolved library sources p h in
    subst
      (λ q.
        classify engine q m ≡ (validate m >>= λ total. ok (first_match engine m (refs q.entries))))
      same
      (classify-build_index engine library.sorter es m reliable
        (one_each-HasBuiltins es resolved.one_each resolved.fallback_last))
