-- ===== src/Policy/Builtins/Plain.antt =====
-- src/filter/policy.c, parse_line: every entry that the lines of the sources append is plain.
use jaro_mail.Base.{
  if◌then◌else◌, Option-cases, length, take, All, All-append, List-cases, Bytes, codes, str_eq, ℕ,
  zero, suc, ◌+◌, ◌≤◌, ◌≡◌, refl, subst, ◌≢◌, inl, inr, Bool, true, false, Option, some, List, [],
  ◌∷◌, arith,
}
use jaro_mail.Result.{ok, bind-eq-ok, ok-injective, Result-cases}
use jaro_mail.Text.Ascii.{fold}
use jaro_mail.Text.Blank.{trim_start, trim_end}
use jaro_mail.Text.Mailbox.{normalize_mailbox}
use jaro_mail.Policy.Rules.{
  Kind, kind_value, Entry, address, from_field, sender_field, to_field, cc_field,
}
use jaro_mail.Policy.Lex.{Place, lex}
use jaro_mail.Policy.Parse.{
  Source, new_entry, append, contact_line, own_line, selector_kind, typed_predicate, rule_line,
  tokens_line, parse_line,
}
use jaro_mail.Policy.Build.{line_step, source_loop, sources_loop, split_line, strip_return}
use jaro_mail.Policy.Compare.{SourceRef}
use jaro_mail.Policy.Builtins.{IsPlain}

-- A selector that no builtin has.
abbrev IsFree : Bytes → Type 0
IsFree sel = (sel ≢ codes "bounce") × (sel ≢ codes "spam") × (sel ≢ codes "unsorted")

append-IsPlain :
    (entries : List Entry) (p : Place) (s : Option Source) (sel pred logical : Bytes) (kind : Kind)
    (stage mask : ℕ)
    → All IsPlain entries
    → IsFree sel
    → kind_value kind ≤ 3
    → stage ≤ 7
    → All IsPlain (append entries p s sel pred logical kind stage mask)
unfolding append new_entry
append-IsPlain entries p s sel pred logical kind stage mask plain free low_kind low_stage =
    All-append IsPlain entries _ plain (
      record {
        low_kind = low_kind;
        low_stage = low_stage;
        not_bounce = free.0;
        not_spam = free.1;
        not_unsorted = free.2;
        undiscarded = refl;
      },
      tt,
    )

selector_kind-IsFree :
    (sel : Bytes) (kind : Kind) → selector_kind sel ≡ some kind → IsFree sel × (kind_value kind ≤ 3)
unfolding selector_kind str_eq
selector_kind-IsFree sel kind h = (
  (
    λ e. cc (subst (λ t. selector_kind t ≡ some kind) e h),
    λ e. cc (subst (λ t. selector_kind t ≡ some kind) e h),
    λ e. cc (subst (λ t. selector_kind t ≡ some kind) e h),
  ),
  ground (arith, h),
)

contact-IsFree : (is_known : Bool) → IsFree (if is_known then codes "known" else codes "blacklist")
contact-IsFree true = (λ e. cc e, λ e. cc e, λ e. cc e)
contact-IsFree false = (λ e. cc e, λ e. cc e, λ e. cc e)

contact_line-IsPlain :
    (entries : List Entry) (p : Place) (s : Source) (is_known : Bool) (line : Bytes)
    (es : List Entry)
    → All IsPlain entries
    → contact_line entries p s is_known line ≡ ok es
    → All IsPlain es
unfolding contact_line
contact_line-IsPlain entries p s is_known line es plain h =
    elim (List-cases (trim_end (trim_start line))) [
      | inl e ↦ subst (All IsPlain) (ok-injective (rw (e, contact_line) at h)) plain
      | inr (c, raw, e) ↦ elim (Option-cases (normalize_mailbox (c ∷ raw))) [
        | inl k ↦ cc (rw (e, k, contact_line) at h)
        | inr (n, k) ↦ subst (All IsPlain) (ok-injective (rw (e, k, contact_line) at h)) (
            append-IsPlain entries p (some s) _ (fold n) _ address _ _ plain
              (contact-IsFree is_known) (omega arith) (ground arith))
      ]
    ]

own_line-IsPlain :
    (entries : List Entry) (p : Place) (s : Source) (raw : Bytes) (es : List Entry)
    → All IsPlain entries
    → own_line entries p s raw ≡ ok es
    → All IsPlain es
unfolding own_line
own_line-IsPlain entries p s raw es plain h = elim (Option-cases (normalize_mailbox raw)) [
  | inl e ↦ cc (rw (e, own_line) at h)
  | inr (n, e) ↦ subst (All IsPlain) (ok-injective (rw (e, own_line) at h)) (
      append-IsPlain entries p (some s) (codes "own") (fold n) (codes "priv") address 7 12 plain
        (λ e. cc e, λ e. cc e, λ e. cc e) (omega arith) (omega arith))
]

typed_predicate-low :
    (p : Place) (kind : Kind) (pred : Bytes) (typed : Kind × Bytes)
    → kind_value kind ≤ 3
    → typed_predicate p kind pred ≡ ok typed
    → kind_value typed.0 ≤ 3
unfolding typed_predicate
typed_predicate-low p kind pred typed low h = ground (arith, h)

rule_line-IsPlain :
    (entries : List Entry) (p : Place) (s : Source) (kind : Kind) (sel : Bytes) (ts : List Bytes)
    (es : List Entry)
    → All IsPlain entries
    → IsFree sel
    → kind_value kind ≤ 3
    → rule_line entries p s kind sel ts ≡ ok es
    → All IsPlain es
unfolding rule_line
rule_line-IsPlain entries p s kind sel [] es plain free low h = cc h
rule_line-IsPlain entries p s kind sel (pred ∷ rest) es plain free low h =
    elim (Result-cases (typed_predicate p kind pred)) [
      | inl (why, run) ↦ ground (arith, run, h)
      | inr (typed, run) ↦
          let target : Bytes × Bytes = elim rest [ act ∷ dest ∷ [] ↦ (act, dest) | _ ↦ ([], []) ] in
          let is_known = str_eq sel (codes "known-domain") in
          let from' = str_eq (take 4 sel) (codes "from") in
          let stage = if is_known then 5 else if from' then 3 else 4 in
          let mask =
            if is_known
            then from_field
            else if from'
            then from_field + sender_field
            else to_field + cc_field in
          let logical = if is_known then codes "known" else target.1 in
          let same : append entries p (some s) sel typed.1 logical typed.0 stage mask ≡ es =
            ground (arith, run, h) in
          subst (All IsPlain) same (
            append-IsPlain entries p (some s) sel typed.1 logical typed.0 stage mask plain free
              (typed_predicate-low p kind pred typed low run) (ground arith))
    ]

tokens_line-IsPlain :
    (entries : List Entry) (p : Place) (s : Source) (ts : List Bytes) (es : List Entry)
    → All IsPlain entries
    → tokens_line entries p s ts ≡ ok es
    → All IsPlain es
unfolding tokens_line
tokens_line-IsPlain entries p s [] es plain h = subst (All IsPlain) (ok-injective h) plain
tokens_line-IsPlain entries p s (t ∷ []) es plain h = elim (Option-cases (selector_kind t)) [
  | inl e ↦ ground (arith, e, h, own_line-IsPlain entries p s t es plain)
  | inr (kind, e) ↦
      let (free, low) = selector_kind-IsFree t kind e in
      ground (
        arith,
        e,
        h,
        own_line-IsPlain entries p s t es plain,
        rule_line-IsPlain entries p s kind t [] es plain free low,
      )
]
tokens_line-IsPlain entries p s (t ∷ a ∷ ts) es plain h = elim (Option-cases (selector_kind t)) [
  | inl e ↦ ground (arith, e, h, own_line-IsPlain entries p s a es plain)
  | inr (kind, e) ↦
      let (free, low) = selector_kind-IsFree t kind e in
      ground (
        arith,
        e,
        h,
        own_line-IsPlain entries p s a es plain,
        rule_line-IsPlain entries p s kind t (a ∷ ts) es plain free low,
      )
]

parse_line-IsPlain :
    (entries : List Entry) (p : Place) (s : Source) (line : Bytes) (es : List Entry)
    → All IsPlain entries
    → parse_line entries p s line ≡ ok es
    → All IsPlain es
unfolding parse_line
parse_line-IsPlain entries p s line es plain h =
    let unread : entries ≡ es → All IsPlain es = λ e. subst (All IsPlain) e plain in
    elim (Result-cases (lex p line)) [
      | inl (why, e) ↦ ground (
        arith,
        e,
        h,
        unread,
        contact_line-IsPlain entries p s true line es plain,
        contact_line-IsPlain entries p s false line es plain,
      )
      | inr (ts, e) ↦ ground (
        arith,
        e,
        h,
        unread,
        contact_line-IsPlain entries p s true line es plain,
        contact_line-IsPlain entries p s false line es plain,
        tokens_line-IsPlain entries p s ts es plain,
      )
    ]

source_loop-IsPlain :
    (fuel : ℕ) (entries : List Entry) (p : Place) (s : Source) (content : Bytes) (es : List Entry)
    → All IsPlain entries
    → source_loop fuel entries p s content ≡ ok es
    → All IsPlain es
unfolding source_loop line_step
source_loop-IsPlain fuel entries p s [] es plain h = subst (All IsPlain) (ok-injective h) plain
source_loop-IsPlain zero entries p s (c ∷ rest) es plain h = cc h
source_loop-IsPlain (suc fuel) entries p s (c ∷ rest) es plain h =
    let here : Place = record p { line = p.line + 1 } in
    let line = strip_return (split_line (c ∷ rest)).0 in
    let (next, step, more) = bind-eq-ok (line_step entries here s line) _ h in
    let parsed : parse_line entries here s line ≡ ok next = ground (arith, step) in
    source_loop-IsPlain fuel next here s (split_line (c ∷ rest)).1 es
      (parse_line-IsPlain entries here s line next plain parsed) more

-- Whatever the sources hold, the entries that their lines append are plain.
pub sources_loop-IsPlain :
    (rs : List SourceRef) (entries es : List Entry)
    → All IsPlain entries
    → sources_loop entries rs ≡ ok es
    → All IsPlain es
unfolding sources_loop
sources_loop-IsPlain [] entries es plain h = subst (All IsPlain) (ok-injective h) plain
sources_loop-IsPlain (r ∷ rs) entries es plain h =
    let p : Place = record { source = some r.index; line = 0 } in
    let (next, run, more) =
      bind-eq-ok (source_loop (length r.source.content) entries p r.source r.source.content) _ h in
    sources_loop-IsPlain rs next es
      (source_loop-IsPlain (length r.source.content) entries p r.source r.source.content next plain
        run)
      more
