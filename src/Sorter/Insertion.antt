-- ===== src/Sorter/Insertion.antt =====
-- Insertion sort meets the interface: what is proved for every sorter can be run.
use jaro_mail.Base.{All, All-map, Ordering, ◌≡◌, refl, ◌≢◌, ◌⊎◌, inl, inr, List, [], ◌∷◌, arith}
use mathlib.Core.List.{Permᴰ}
use mathlib.Core.List
use jaro_mail.Sorter.Defs.{IsComparison, Sorted, Sorter}

module _ {A : Type 0} (cmp : A → A → Ordering) where
  unfoldable pub insert : A → List A → List A
  insert a [] = a ∷ []
  insert a (x ∷ xs) = elim (cmp a x) [ Ordering.gt ↦ x ∷ insert a xs | _ ↦ a ∷ x ∷ xs ]

  unfoldable pub insertion_sort : List A → List A
  unfolding insert
  insertion_sort [] = []
  insertion_sort (x ∷ xs) = insert x (insertion_sort xs)

  cmp_cases : (a b : A) → (cmp a b ≡ Ordering.gt) ⊎ (cmp a b ≢ Ordering.gt)
  cmp_cases a b = ground arith

  insert_after :
      (a x : A) (xs : List A) → cmp a x ≡ Ordering.gt → insert a (x ∷ xs) ≡ x ∷ insert a xs
  unfolding insert
  insert_after a x xs h = rw (h, insert)

  insert_before : (a x : A) (xs : List A) → cmp a x ≢ Ordering.gt → insert a (x ∷ xs) ≡ a ∷ x ∷ xs
  unfolding insert
  insert_before a x xs h = ground arith

  insert_perm : (a : A) (xs : List A) → Permᴰ (insert a xs) (a ∷ xs)
  insert_perm a [] = unfold insert in Permᴰ.cons refl Permᴰ.nil
  insert_perm a (x ∷ xs) = elim (cmp_cases a x) [
    | inr h ↦ rw (insert_before a x xs h) (List.Permᴰ.refl (a ∷ x ∷ xs))
    | inl h ↦
        rw (insert_after a x xs h)
          (Permᴰ.trans (Permᴰ.cons refl (insert_perm a xs)) (Permᴰ.swap refl refl))
  ]

  pub sort_perm : (xs : List A) → Permᴰ (insertion_sort xs) xs
  unfolding insertion_sort
  sort_perm [] = Permᴰ.nil
  sort_perm (x ∷ xs) =
      Permᴰ.trans (insert_perm x (insertion_sort xs)) (Permᴰ.cons refl (sort_perm xs))

  All-insert : (P : A → Type 0) (a : A) (xs : List A) → P a → All P xs → All P (insert a xs)
  All-insert P a [] h k = unfold insert in (h, tt)
  All-insert P a (x ∷ xs) h k = elim (cmp_cases a x) [
    | inr e ↦ rw (insert_before a x xs e) (h, k)
    | inl e ↦ rw (insert_after a x xs e) (k.0, All-insert P a xs h k.1)
  ]

  insert-Sorted :
      (c : IsComparison cmp) (a : A) (xs : List A) → Sorted cmp xs → Sorted cmp (insert a xs)
  insert-Sorted c a [] s = unfold insert in (tt, tt)
  insert-Sorted c a (x ∷ xs) s = elim (cmp_cases a x) [
    | inr e ↦ rw (insert_before a x xs e) (
      (
        e,
        All-map (λ y. cmp x y ≢ Ordering.gt) (λ y. cmp a y ≢ Ordering.gt) (λ y h. c.trans a x y e h)
            xs s.0,
      ),
      s,
    )
    | inl e ↦
        rw (insert_after a x xs e) (
          All-insert (λ y. cmp x y ≢ Ordering.gt) a xs (c.flip a x e) s.0,
          insert-Sorted c a xs s.1,
        )
  ]

  pub insertion_sort-Sorted : IsComparison cmp → (xs : List A) → Sorted cmp (insertion_sort xs)
  unfolding insertion_sort
  insertion_sort-Sorted c [] = tt
  insertion_sort-Sorted c (x ∷ xs) =
      insert-Sorted c x (insertion_sort xs) (insertion_sort-Sorted c xs)

unfoldable pub insertion : Sorter
unfolding insertion_sort
insertion = record {
  sort = λ A cmp xs. insertion_sort cmp xs;
  sort_perm = λ A cmp xs. sort_perm cmp xs;
  sort_sorted = λ A cmp c xs. insertion_sort-Sorted cmp c xs;
}
