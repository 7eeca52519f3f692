-- ===== src/Sorter/Defs.antt =====
-- The C library's qsort, as an interface. ISO C 7.22.5.2: the array is sorted into ascending order
-- according to the comparison, which must define a total ordering.
use jaro_mail.Base.{
  if◌then◌else◌, All, In, count, ◌+◌, Ordering, ◌≡◌, refl, ap, ap₂, ◌∙◌, ◌≢◌, inl, inr, Bool, List,
  [], ◌∷◌, arith,
}
use mathlib.Core.List.{Permᴰ}

-- The comparison is consistent and transitive.
pub record IsComparison {A : Type 0} (cmp : A → A → Ordering) : Type 0 where
  pub flip : (a b : A) → cmp a b ≡ Ordering.gt → cmp b a ≢ Ordering.gt
  pub trans : (a b c : A) → cmp a b ≢ Ordering.gt → cmp b c ≢ Ordering.gt → cmp a c ≢ Ordering.gt

-- Every element may stand before all that follow it.
abbrev pub Sorted : {A : Type 0} → (A → A → Ordering) → List A → Type 0
Sorted cmp [] = Unit
Sorted cmp (x ∷ xs) = All (λ y. cmp x y ≢ Ordering.gt) xs × Sorted cmp xs

pub record Sorter : Type 1 where
  pub sort : (A : Type 0) → (A → A → Ordering) → List A → List A
  pub sort_perm : (A : Type 0) (cmp : A → A → Ordering) (xs : List A) → Permᴰ (sort A cmp xs) xs
  pub sort_sorted :
      (A : Type 0) (cmp : A → A → Ordering)
      → IsComparison cmp
      → (xs : List A) → Sorted cmp (sort A cmp xs)

pub Perm-In : {A : Type 0} {xs ys : List A} → Permᴰ xs ys → (a : A) → In a xs → In a ys
Perm-In Permᴰ.nil a h = h
Perm-In (Permᴰ.cons e p) a (inl same) = inl (same ∙ e)
Perm-In (Permᴰ.cons e p) a (inr later) = inr (Perm-In p a later)
Perm-In (Permᴰ.swap e f) a (inl same) = inr (inl (same ∙ e))
Perm-In (Permᴰ.swap e f) a (inr (inl same)) = inl (same ∙ f)
Perm-In (Permᴰ.swap e f) a (inr (inr later)) = inr (inr later)
Perm-In (Permᴰ.trans p q) a h = Perm-In q a (Perm-In p a h)

pub Perm-count :
    {A : Type 0} (p : A → Bool) {xs ys : List A} → Permᴰ xs ys → count p xs ≡ count p ys
Perm-count p Permᴰ.nil = refl
Perm-count p (Permᴰ.cons e q) = ap₂ (λ x n. (if p x then 1 else 0) + n) e (Perm-count p q)
Perm-count p (Permᴰ.swap e f) =
    let weight = λ (b : Bool). (if b then 1 else 0) + 0 in
    let x = ap (λ a. weight (p a)) e in let y = ap (λ a. weight (p a)) f in omega (arith, x, y)
Perm-count p (Permᴰ.trans q r) = Perm-count p q ∙ Perm-count p r
