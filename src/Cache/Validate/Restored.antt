-- ===== src/Cache/Validate/Restored.antt =====
-- src/filter/cache.c, jf_cache_policy: the rules of a cache that was accepted.
use jaro_mail.Base.{
  ◌==◌, Bool-cases, Option-cases, length, take, count, Bytes, ℕ, zero, suc, ◌+◌, ◌-◌, ◌≤◌, ◌<◌, ◌≡◌,
  refl, sym, ◌∙◌, subst, ◌≢◌, inl, inr, Bool, true, false, some, List, [], ◌∷◌, arith,
}
use jaro_mail.Policy.Rules.{Kind, kind_value, always}
use jaro_mail.Policy.Resolve.{rule_max, builtin_rules}
use jaro_mail.Cache.Fields.{read32, read_record, field_count}
use jaro_mail.Cache.Dependencies.{read_views}
use jaro_mail.Cache.Restore.{CachedRule, kind_of}
use jaro_mail.Cache.Validate.Rule.{rule_step}
use jaro_mail.Cache.Validate.{Catalogue, Scan}
use jaro_mail.Cache.Validate.Whole.{Expected, rule_views, views_loop, record_step, validate_loop}
use jaro_mail.Cache.Validate.Read.{read_record-parts}
use jaro_mail.Cache.Validate.Counted.{
  tally, Same, Ruled, dependency_step-Same, meta_step-Same, rule_step-Ruled,
}

-- The rules of a kind.
abbrev pub restores : Kind → CachedRule → Bool
restores k r = kind_value (kind_of r.kind) == kind_value k

-- No rule stands behind a fallback.
abbrev pub RuleLast : List CachedRule → Type 0
RuleLast [] = Unit
RuleLast (r ∷ rs) = (kind_of r.kind ≡ always → rs ≡ []) × RuleLast rs

-- What validation has found out about the rules that it went through.
pub record IsCounted (s s' : Scan) (rules : List CachedRule) : Type 0 where
  pub counted : (k : Kind) → 3 < kind_value k → tally k s' ≡ tally k s + count (restores k) rules
  pub numbered : s'.ordinal ≡ s.ordinal + length rules
  pub limited : s.ordinal ≤ rule_max + builtin_rules → s'.ordinal ≤ rule_max + builtin_rules
  pub fallback_last : RuleLast rules

Same-IsCounted :
    (s t s' : Scan) (rules : List CachedRule)
    → Same s t
    → IsCounted t s' rules
    → IsCounted s s' rules
Same-IsCounted s t s' rules same h = record {
  counted = λ k high. let r = h.counted k high in ground arith;
  numbered = let r = h.numbered in omega (arith, same.3);
  limited = λ low. h.limited (omega (arith, same.3));
  fallback_last = h.fallback_last;
}

-- The last record is the last rule.
Ruled-IsCounted :
    (s t s' : Scan) (n : ℕ) (rule : CachedRule) (rules : List CachedRule)
    → Ruled s t (n == 0) rule
    → (n ≡ 0 → rules ≡ [])
    → IsCounted t s' rules
    → IsCounted s s' (rule ∷ rules)
Ruled-IsCounted s t s' n rule rules ruled empty h = record {
  counted = λ k high. omega (arith, h.counted k high, ruled.0 k high);
  numbered = omega (arith, h.numbered, ruled.1);
  limited = λ low. h.limited ruled.2;
  fallback_last = (λ e. let z = ruled.3 e in empty (ground arith), h.fallback_last);
}

record_step-Same :
    (c : Catalogue) (expected : Expected) (i n : ℕ) (s : Scan) (raw : Bytes) (tag : ℕ)
    (fs : List Bytes) (t : Scan)
    → field_count tag ≢ 0
    → (tag == b'R') ≡ false
    → record_step c expected i n s raw tag fs ≡ some t
    → Same s t
unfolding record_step field_count
record_step-Same c expected i n s raw tag fs t known other h = elim (Bool-cases (tag == b'M')) [
  | inl m ↦ meta_step-Same expected.zsh expected.sieve i s fs t (rw (m, record_step) at h)
  | inr m ↦ elim (Bool-cases (tag == b'D')) [
    | inl d ↦ dependency_step-Same c s raw fs t (rw (m, d, record_step) at h)
    | inr d ↦ absurd (known (rw (m, d, other, field_count) refl))
  ]
]

record_step-rule :
    (c : Catalogue) (expected : Expected) (i n : ℕ) (s : Scan) (raw : Bytes) (tag : ℕ)
    (fs : List Bytes) (t : Scan)
    → (tag == b'R') ≡ true
    → record_step c expected i n s raw tag fs ≡ some t
    → rule_step s (n == 0) fs ≡ some t
unfolding record_step
record_step-rule c expected i n s raw tag fs t this h =
    let is : tag ≡ b'R' = ground (arith, this) in
    subst (λ x. record_step c expected i n s raw x fs ≡ some t) is h

views_loop-skip :
    (n : ℕ) (tag : ℕ) (s u : Bytes) (m : ℕ) (fs : List Bytes) (rest : Bytes)
    (rules : List CachedRule)
    → read32 s ≡ some (m, u)
    → read_views m u ≡ some (fs, rest)
    → views_loop n rest ≡ some rules
    → (tag == b'R') ≡ false
    → views_loop (suc n) (tag ∷ s) ≡ some rules
unfolding views_loop
views_loop-skip n tag s u m fs rest rules h k l other = rw (h, k, l, other, views_loop) refl

views_loop-rule :
    (n : ℕ) (tag : ℕ) (s u : Bytes) (m : ℕ) (fs : List Bytes) (rest : Bytes)
    (rules : List CachedRule) (rule : CachedRule)
    → read32 s ≡ some (m, u)
    → read_views m u ≡ some (fs, rest)
    → views_loop n rest ≡ some rules
    → (tag == b'R') ≡ true
    → rule_views fs ≡ some rule
    → views_loop (suc n) (tag ∷ s) ≡ some (rule ∷ rules)
unfolding views_loop
views_loop-rule n tag s u m fs rest rules rule h k l this v = rw (h, k, l, this, v, views_loop) refl

views_loop-empty :
    (n : ℕ) (bytes : Bytes) (rules : List CachedRule)
    → views_loop n bytes ≡ some rules
    → n ≡ 0
    → rules ≡ []
unfolding views_loop
views_loop-empty zero bytes rules h e = cc h
views_loop-empty (suc n) bytes rules h e = absurd (omega (arith, e))

-- After the loop of validation, the loops that make no test go through, and the counters are right.
pub validate_loop-IsCounted :
    (c : Catalogue) (expected : Expected) (i n : ℕ) (s : Scan) (bytes : Bytes) (s' : Scan)
    (rest : Bytes)
    → validate_loop c expected i n s bytes ≡ some (s', rest)
    → (rules : List CachedRule) × (views_loop n bytes ≡ some rules) × IsCounted s s' rules
unfolding validate_loop record_step
validate_loop-IsCounted c expected i zero s bytes s' rest h =
    let same : s ≡ s' = cc h in
    (
      [],
      unfold views_loop in refl,
      subst (λ t. IsCounted s t []) same
          (record {
            counted = λ k high. omega arith;
            numbered = omega arith;
            limited = λ low. low;
            fallback_last = tt;
          }),
    )
validate_loop-IsCounted c expected i (suc n) s bytes s' rest h =
    elim (Option-cases (read_record bytes)) [
      | inl e ↦ cc (rw (e, validate_loop) at h)
      | inr ((tag, fs, behind), e) ↦
          elim (Option-cases
            (record_step c expected i n s (take (length bytes - length behind) bytes) tag fs)) [
              | inl f ↦ cc (rw (e, f, validate_loop) at h)
              | inr (t, f) ↦
                  let (rules, views, counted) =
                    validate_loop-IsCounted c expected (i + 1) n t behind s' rest
                      (rw (e, f, validate_loop) at h) in
                  let (u, m, v, split, size, fields, number, some_fields) =
                    read_record-parts bytes tag fs behind e in
                  let at = λ (x : Bytes).
                    (r : List CachedRule) × (views_loop (suc n) x ≡ some r) × IsCounted s s' r in
                  subst at (sym split) (elim (Bool-cases (tag == b'R')) [
                    | inr other ↦ (
                      rules,
                      views_loop-skip n tag u v m fs behind rules size fields views other,
                      Same-IsCounted s t s' rules
                          (record_step-Same c expected i n s _ tag fs t
                            (λ z. some_fields (number ∙ z)) other f)
                          counted,
                    )
                    | inl this ↦
                        let (rule, viewed, ruled) =
                          rule_step-Ruled s t (n == 0) fs
                            (record_step-rule c expected i n s _ tag fs t this f) in
                        (
                          rule ∷ rules,
                          views_loop-rule n tag u v m fs behind rules rule size fields views this
                              viewed,
                          Ruled-IsCounted s t s' n rule rules ruled
                              (views_loop-empty n behind rules views) counted,
                        )
                  ])
            ]
    ]
