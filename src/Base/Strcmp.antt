-- ===== src/Base/Strcmp.antt =====
-- `strcmp` on bytes, as an ordering.
use Prim.Native.Nat.{compare, Ordering}
use mathlib.Core.Path.{◌≡◌}
use mathlib.Core.Logic.{◌≢◌, ◌↔◌}
use mathlib.Core.List.{[], ◌∷◌}
use native.Mathlib.Omega.{arith}
use jaro_mail.Base.Strings.{Bytes}

unfoldable pub strcmp : Bytes → Bytes → Ordering
strcmp [] [] = Ordering.eq
strcmp [] (y ∷ ys) = Ordering.lt
strcmp (x ∷ xs) [] = Ordering.gt
strcmp (x ∷ xs) (y ∷ ys) = elim (compare x y) [
  | Ordering.lt ↦ Ordering.lt
  | Ordering.gt ↦ Ordering.gt
  | Ordering.eq ↦ strcmp xs ys
]

pub strcmp_iff : (a b : Bytes) → (strcmp a b ≡ Ordering.eq) ↔ (a ≡ b)
unfolding strcmp
strcmp_iff (x ∷ a) (y ∷ b) = ground (arith, strcmp_iff a b)
strcmp_iff _ _ = ground arith

pub strcmp_antisymm : (a b : Bytes) → strcmp a b ≡ Ordering.gt → strcmp b a ≡ Ordering.lt
unfolding strcmp
strcmp_antisymm (x ∷ a) (y ∷ b) = ground (arith, strcmp_antisymm a b)
strcmp_antisymm _ _ = ground arith

-- `a` stands at or before `b`.
abbrev pub StrLe : Bytes → Bytes → Type 0
StrLe a b = strcmp a b ≢ Ordering.gt

pub strcmp_trans :
    (a b c : Bytes) → strcmp a b ≢ Ordering.gt → strcmp b c ≢ Ordering.gt → strcmp a c ≢ Ordering.gt
unfolding strcmp
strcmp_trans (x ∷ a) (y ∷ b) (z ∷ c) h k = ground (arith, strcmp_trans a b c)
strcmp_trans (x ∷ a) (y ∷ b) [] h k = ground arith
strcmp_trans _ _ _ h k = ground arith

pub strcmp_lt_le_trans :
    (a b c : Bytes) → strcmp a b ≡ Ordering.lt → strcmp b c ≢ Ordering.gt → strcmp a c ≡ Ordering.lt
unfolding strcmp
strcmp_lt_le_trans (x ∷ a) (y ∷ b) (z ∷ c) h k = ground (arith, strcmp_lt_le_trans a b c)
strcmp_lt_le_trans [] (y ∷ b) (z ∷ c) h k = ground arith
strcmp_lt_le_trans _ _ _ h k = ground arith
