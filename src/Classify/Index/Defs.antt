-- ===== src/Classify/Index/Defs.antt =====
-- src/filter/classify.c: index_key, compare_index, compare_lookup and lookup, with no work counters
-- (`stats` is NULL).
use jaro_mail.Base.{
  strcmp, ltb, ◌==◌, if◌then◌else◌, length, get_elem?, drop, Bytes, ℕ, zero, suc, ◌+◌, ◌-◌, ◌/◌,
  compare, Ordering, Bool, true, false, not, ◌&&◌, Option, none, some, List, [], ◌∷◌,
}
use Prim.Native.Nat.{bit_and}
use jaro_mail.Policy.Rules.{Kind, domain_subdomains, kind_value, Entry, Ref, before}

-- A subdomain rule is indexed behind its "*.".
unfoldable pub index_key : Entry → Bytes
index_key e = elim e.rule.kind [
  | domain_subdomains ↦ drop 2 e.rule.predicate
  | _ ↦ e.rule.predicate
]

-- `kind!=e->rule.kind ? ... : strcmp(key,index_key(e))`.
unfoldable pub compare_lookup : Kind → Bytes → Entry → Ordering
compare_lookup kind key e = elim (compare (kind_value kind) (kind_value e.rule.kind)) [
  | Ordering.lt ↦ Ordering.lt
  | Ordering.gt ↦ Ordering.gt
  | Ordering.eq ↦ strcmp key (index_key e)
]

-- The comparison that the index is sorted by; the position breaks a tie.
unfoldable pub compare_index : Ref → Ref → Ordering
compare_index x y = elim (compare_lookup x.entry.rule.kind (index_key x.entry) y.entry) [
  | Ordering.lt ↦ Ordering.lt
  | Ordering.gt ↦ Ordering.gt
  | Ordering.eq ↦ compare x.position y.position
]

-- `rule.fields&field`.
unfoldable pub has_field : ℕ → Entry → Bool
has_field field e = not (bit_and e.rule.fields field == 0)

module _ (index : List Ref) (kind : Kind) (key : Bytes) where
  -- `while (low<high)`; `none` is a read outside the index, or no fuel left.
  unfoldable pub bisect : ℕ → ℕ → ℕ → Option ℕ
  bisect zero low high = if ltb low high then none else some low
  bisect (suc fuel) low high =
      let mid = low + (high - low) / 2 in
      elim (ltb low high) [
        | false ↦ some low
        | true ↦ elim (get_elem? index mid) [
          | none ↦ none
          | some r ↦ elim (compare_lookup kind key r.entry) [
            | Ordering.gt ↦ bisect fuel (suc mid) high
            | _ ↦ bisect fuel low mid
          ]
        ]
      ]

module _ (kind : Kind) (key : Bytes) (field : ℕ) where
  -- The body of the scan, for an entry that has the key.
  unfoldable pub improve : Option Ref → Ref → Option Ref
  improve best r = if has_field field r.entry && before (some r) best then some r else best

  -- `for (i=low;i<p->index_count && !compare_lookup(...);i++)`.
  unfoldable pub scan_equal : List Ref → Option Ref → Option Ref
  scan_equal [] best = best
  scan_equal (r ∷ rs) best = elim (compare_lookup kind key r.entry) [
    | Ordering.eq ↦ scan_equal rs (improve best r)
    | _ ↦ best
  ]

-- The count of the index is fuel enough for the halving, which never reads outside it.
unfoldable pub lookup : List Ref → Kind → Bytes → ℕ → Option Ref → Option Ref
lookup index kind key field best = elim (bisect index kind key (length index) 0 (length index)) [
  | none ↦ best
  | some low ↦ scan_equal kind key field (drop low index) best
]
