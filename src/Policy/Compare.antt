-- ===== src/Policy/Compare.antt =====
-- src/filter/policy.c: the comparisons that sort the sources and the entries.
use jaro_mail.Base.{◌==◌, if◌then◌else◌, strcmp, ℕ, compare, Ordering, Bool, not, ◌&&◌}
use jaro_mail.Policy.Rules.{kind_value, Entry, Ref}
use jaro_mail.Policy.Parse.{Source, source_value}

-- `c ? c : d`.
abbrev pub or_else : Ordering → Ordering → Ordering
or_else c d = elim c [ Ordering.eq ↦ d | other ↦ other ]

-- struct source_ref: a source and its index.
pub record SourceRef : Type 0 where
  pub source : Source
  pub index : ℕ

unfoldable pub compare_sources : SourceRef → SourceRef → Ordering
compare_sources x y =
    or_else (compare (source_value x.source.kind) (source_value y.source.kind))
      (or_else (strcmp x.source.identity y.source.identity) (compare x.index y.index))

unfoldable pub compare_key : Entry → Entry → Ordering
compare_key a b =
    or_else (strcmp a.rule.selector b.rule.selector) (strcmp a.rule.predicate b.rule.predicate)

unfoldable pub compare_records : Ref → Ref → Ordering
compare_records x y = or_else (compare_key x.entry y.entry) (
    or_else (strcmp x.entry.rule.logical y.entry.rule.logical) (
      or_else (strcmp x.entry.rule.source_identity y.entry.rule.source_identity)
        (compare x.entry.order y.entry.order)))

unfoldable pub compare_keys : Ref → Ref → Ordering
compare_keys x y = or_else (compare_key x.entry y.entry) (compare x.entry.order y.entry.order)

abbrev is_address : Entry → Bool
is_address e = kind_value e.rule.kind == 0

unfoldable pub compare_order : Entry → Entry → Ordering
compare_order x y =
    let by_order = compare x.order y.order in
    elim (compare x.rule.stage y.rule.stage) [
      | Ordering.eq ↦
          if x.rule.stage == 5 && not (kind_value x.rule.kind == kind_value y.rule.kind)
          then if is_address x then Ordering.lt else if is_address y then Ordering.gt else by_order
          else by_order
      | other ↦ other
    ]
