-- ===== src/Classify/Index/Order.antt =====
-- src/filter/classify.c: the order of the index, as compare_index and compare_lookup see it.
use jaro_mail.Base.{
  ◌<◌, All, Bytes, strcmp_trans, strcmp_lt_le_trans, Ordering, ◌≡◌, ◌≢◌, List, [], ◌∷◌, arith,
}
use jaro_mail.Policy.Rules.{Kind, Ref}
use jaro_mail.Classify.Index.Defs.{index_key, compare_lookup}

-- The entry does not stand below the key.
abbrev pub NotBelow : Kind → Bytes → Ref → Type 0
NotBelow kind key r = compare_lookup kind key r.entry ≢ Ordering.gt

abbrev pub Below : Kind → Bytes → Ref → Type 0
Below kind key r = compare_lookup kind key r.entry ≡ Ordering.gt

-- The first entry may stand before the second.
abbrev pub IndexLe : Ref → Ref → Type 0
IndexLe r s = NotBelow r.entry.rule.kind (index_key r.entry) s

-- Every entry may stand before all that follow it.
abbrev pub IsSorted : List Ref → Type 0
IsSorted [] = Unit
IsSorted (r ∷ rs) = All (IndexLe r) rs × IsSorted rs

-- The positions rise.
abbrev pub Ascending : List Ref → Type 0
Ascending [] = Unit
Ascending (r ∷ rs) = All (λ s. r.position < s.position) rs × Ascending rs

module _ (kind : Kind) (key : Bytes) (r s : Ref) (le : IndexLe r s) where
  pub IndexLe-NotBelow : NotBelow kind key r → NotBelow kind key s
  unfolding compare_lookup
  IndexLe-NotBelow h = ground (arith, strcmp_trans key (index_key r.entry) (index_key s.entry))

  pub IndexLe-lt :
      compare_lookup kind key r.entry ≡ Ordering.lt → compare_lookup kind key s.entry ≡ Ordering.lt
  unfolding compare_lookup
  IndexLe-lt h = ground (arith, strcmp_lt_le_trans key (index_key r.entry) (index_key s.entry))
