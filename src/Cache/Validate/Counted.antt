-- ===== src/Cache/Validate/Counted.antt =====
-- src/filter/cache.c, jf_cache_validate: what its counters count.
use jaro_mail.Base.{
  ◌==◌, if◌then◌else◌, Bool-cases, Bytes, codes, str_eq, ℕ, ◌+◌, ◌≤◌, ◌<◌, ◌≡◌, refl, subst, inl,
  inr, Bool, true, false, ◌||◌, Option, some, List, [], ◌∷◌, arith,
}
use jaro_mail.Sha256.{update}
use jaro_mail.Policy.Rules.{Kind, kind_value, sender_contains, spam_is, always}
use jaro_mail.Cache.Restore.{CachedRule, kind_of}
use jaro_mail.Cache.Validate.{dependency_step, Catalogue, Scan, meta_step, config_step, only_if}
use jaro_mail.Product.Buffer.Growth.{bind-eq-some}
use jaro_mail.Policy.Resolve.{rule_max, builtin_rules}
use jaro_mail.Cache.Fields.{read_decimal}
use jaro_mail.Cache.Validate.Whole.{rule_views}
use jaro_mail.Cache.Validate.Rule.{kind_step, rule_step}

-- The counter of a builtin.
abbrev pub tally : Kind → Scan → ℕ
tally sender_contains s = s.bounce
tally spam_is s = s.spam
tally _ s = s.fallback

tally-same :
    (k : Kind) (s t : Scan)
    → t.bounce ≡ s.bounce
    → t.spam ≡ s.spam
    → t.fallback ≡ s.fallback
    → tally k t ≡ tally k s
tally-same k s t b m f = ground arith

-- What a record leaves alone.
abbrev pub Same : Scan → Scan → Type 0
Same s s' =
    (s'.bounce ≡ s.bounce)
    × (s'.spam ≡ s.spam)
    × (s'.fallback ≡ s.fallback)
    × (s'.ordinal ≡ s.ordinal)

-- What a rule adds to the counters.
abbrev Counts : Scan → Scan → Bool → Kind → Type 0
Counts s s' last kind =
    ((k : Kind)
      → 3 < kind_value k
      → tally k s' ≡ tally k s + (if kind_value kind == kind_value k then 1 else 0))
    × (s'.ordinal ≡ s.ordinal)
    × (kind ≡ always → last ≡ true)

only_if-some : (test : Bool) (x y : Scan) → only_if test (some x) ≡ some y → (test ≡ true) × (x ≡ y)
only_if-some true x y h = (refl, cc h)
only_if-some false x y h = cc h

plain-Counts :
    (s s' : Scan) (last : Bool) (kind : Kind) → kind_value kind ≤ 3 → s ≡ s' → Counts s s' last kind
plain-Counts s s' last kind low same =
    subst (λ t. Counts s t last kind) same (λ k high. ground arith, refl, λ e. ground arith)

bounce-Counts :
    (s s' : Scan) (last : Bool)
    → record s { bounce = s.bounce + 1 } ≡ s'
    → Counts s s' last sender_contains
bounce-Counts s s' last same =
    subst (λ t. Counts s t last sender_contains) same
      (λ k high. ground arith, refl, λ e. ground arith)

spam-Counts :
    (s s' : Scan) (last : Bool) → record s { spam = s.spam + 1 } ≡ s' → Counts s s' last spam_is
spam-Counts s s' last same =
    subst (λ t. Counts s t last spam_is) same (λ k high. ground arith, refl, λ e. ground arith)

fallback-Counts :
    (s s' : Scan) (last : Bool)
    → last ≡ true
    → record s { fallback = s.fallback + 1 } ≡ s'
    → Counts s s' last always
fallback-Counts s s' last is same =
    subst (λ t. Counts s t last always) same (λ k high. ground arith, refl, λ e. is)

kind_step-Counts :
    (s s' : Scan) (last : Bool) (stage mask : ℕ) (kind id pred : Bytes)
    → kind_step s last stage mask kind id pred ≡ some s'
    → Counts s s' last (kind_of kind)
unfolding kind_step kind_of
kind_step-Counts s s' last stage mask kind id pred h =
    elim (Bool-cases (
      str_eq kind (codes "address")
      || str_eq kind (codes "domain-apex")
      || str_eq kind (codes "domain-subdomains"))) [
        | inl t ↦
            plain-Counts s s' last (kind_of kind) (ground arith)
              (only_if-some _ s s' (rw (t, kind_step) at h)).1
        | inr t ↦ elim (Bool-cases (str_eq kind (codes "ere"))) [
          | inl e ↦
              plain-Counts s s' last (kind_of kind) (ground arith)
                (only_if-some _ s s' (rw (t, e, kind_step) at h)).1
          | inr e ↦ elim (Bool-cases (str_eq kind (codes "sender-contains"))) [
            | inl b ↦
                let is : sender_contains ≡ kind_of kind = ground arith in
                subst (Counts s s' last) is
                  (bounce-Counts s s' last (only_if-some _ _ s' (rw (t, e, b, kind_step) at h)).1)
            | inr b ↦ elim (Bool-cases (str_eq kind (codes "spam-is"))) [
              | inl m ↦
                  let is : spam_is ≡ kind_of kind = ground arith in
                  subst (Counts s s' last) is (
                    spam-Counts s s' last (only_if-some _ _ s' (rw (t, e, b, m, kind_step) at h)).1)
              | inr m ↦
                  let is : always ≡ kind_of kind = ground arith in
                  let r = only_if-some _ _ s' (rw (t, e, b, m, kind_step) at h) in
                  let tests = r.0 in
                  subst (Counts s s' last) is (fallback-Counts s s' last (ground arith) r.1)
            ]
          ]
        ]
      ]

pub meta_step-Same :
    (zsh sieve : Option Bytes) (i : ℕ) (s : Scan) (fs : List Bytes) (s' : Scan)
    → meta_step zsh sieve i s fs ≡ some s'
    → Same s s'
unfolding meta_step
meta_step-Same zsh sieve i s fs s' h = ground (arith, h)

config_step-Same :
    (c : Catalogue) (s : Scan) (fs : List Bytes) (s' : Scan)
    → config_step c s fs ≡ some s'
    → Same s s'
unfolding config_step
config_step-Same c s fs s' h = ground (arith, h)

pub dependency_step-Same :
    (c : Catalogue) (s : Scan) (raw : Bytes) (fs : List Bytes) (s' : Scan)
    → dependency_step c s raw fs ≡ some s'
    → Same s s'
unfolding dependency_step
dependency_step-Same c s raw (role ∷ path ∷ flag ∷ dig ∷ aux ∷ []) s' h =
    let moved : Scan = record s {
      previous_role = role;
      previous_path = path;
      dependencies = s.dependencies + 1;
      hash = update s.hash raw;
    } in
    config_step-Same c moved (role ∷ path ∷ flag ∷ dig ∷ aux ∷ []) s' (ground (arith, h))
dependency_step-Same c s raw fs s' h = cc h

-- What is known of a rule record that was accepted.
abbrev pub Ruled : Scan → Scan → Bool → CachedRule → Type 0
Ruled s s' last rule =
    ((k : Kind)
      → 3 < kind_value k
      → tally k s' ≡ tally k s + (if kind_value (kind_of rule.kind) == kind_value k then 1 else 0))
    × (s'.ordinal ≡ s.ordinal + 1)
    × (s'.ordinal ≤ rule_max + builtin_rules)
    × (kind_of rule.kind ≡ always → last ≡ true)

pub rule_step-Ruled :
    (s s' : Scan) (last : Bool) (fs : List Bytes)
    → rule_step s last fs ≡ some s'
    → (rule : CachedRule) × (rule_views fs ≡ some rule) × Ruled s s' last rule
unfolding rule_step rule_views
rule_step-Ruled s s' last (f0 ∷ f1 ∷ f2 ∷ f3 ∷ f4 ∷ f5 ∷ f6 ∷ f7 ∷ f8 ∷ f9 ∷ f10 ∷ f11 ∷ []) h =
    let (order, e0, h0) = bind-eq-some (read_decimal f0) _ h in
    let (stage, e1, h1) = bind-eq-some (read_decimal f1) _ h0 in
    let (mask, e3, h3) = bind-eq-some (read_decimal f3) _ h1 in
    let (line, e10, h10) = bind-eq-some (read_decimal f10) _ h3 in
    let moved : Scan = record s { ordinal = s.ordinal + 1; phase = 2; prior_stage = stage } in
    let run : kind_step moved last stage mask f2 f4 f5 ≡ some s' = ground (arith, h10) in
    let low : s.ordinal + 1 ≤ rule_max + builtin_rules = ground (arith, h10) in
    let counts = kind_step-Counts moved s' last stage mask f2 f4 f5 run in
    (
      _,
      refl,
      (
        λ k high. omega (arith, counts.0 k high, tally-same k s moved refl refl refl),
        counts.1,
        omega (arith, low, counts.1),
        counts.2,
      ),
    )
rule_step-Ruled s s' last fs h = cc h
