-- ===== src/Policy/Builtins/Count.antt =====
-- src/filter/policy.c, resolve: what the steps keep of the entries.
use jaro_mail.Base.{
  ◌==◌, if◌then◌else◌, Bool-cases, All, count, ℕ, zero, suc, ◌+◌, ◌<◌, ◌≡◌, refl, ap, ◌∙◌, inl, inr,
  Bool, true, false, List, [], ◌∷◌, arith,
}
use jaro_mail.Policy.Rules.{Kind, kind_value, Entry, Ref}
use jaro_mail.Policy.Resolve.{change, number_loop, number, same_record, compact}
use jaro_mail.Policy.Builtins.{of_kind, IsKept}

pub change-All :
    (P : Entry → Type 0) (i : ℕ) (f : Entry → Entry) (es : List Entry)
    → ((e : Entry) → P e → P (f e))
    → All P es
    → All P (change i f es)
unfolding change
change-All P i f [] h all_es = tt
change-All P zero f (e ∷ es) h all_es = (h e all_es.0, all_es.1)
change-All P (suc i) f (e ∷ es) h all_es = (all_es.0, change-All P i f es h all_es.1)

pub change-count :
    (k : Kind) (i : ℕ) (f : Entry → Entry) (es : List Entry)
    → ((e : Entry) → (f e).rule.kind ≡ e.rule.kind)
    → count (of_kind k) (change i f es) ≡ count (of_kind k) es
unfolding change
change-count k i f [] h = refl
change-count k zero f (e ∷ es) h =
    ap (λ j. (if kind_value j == kind_value k then 1 else 0) + count (of_kind k) es) (h e)
change-count k (suc i) f (e ∷ es) h =
    ap (λ n. (if of_kind k e then 1 else 0) + n) (change-count k i f es h)

-- A predicate that does not read the occurrence.
number_loop-All :
    (P : Entry → Type 0)
    → ((e : Entry) (n : ℕ) → P e → P (record e { rule = record e.rule { occurrence = n } }))
    → (first : Ref) (n : ℕ) (rs : List Ref) (es : List Entry) → All P es
    → All P (number_loop first n rs es)
unfolding number_loop
number_loop-All P blind first n [] es h = h
number_loop-All P blind first n (r ∷ rs) es h =
    elim (Bool-cases (same_record first.entry r.entry)) [
      | inl t ↦
          rw (t, number_loop)
            (number_loop-All P blind first (n + 1) rs _
              (change-All P r.position _ es (λ e. blind e (n + 1)) h))
      | inr f ↦ rw (f, number_loop) (number_loop-All P blind r 1 rs es h)
    ]

number_loop-count :
    (k : Kind) (first : Ref) (n : ℕ) (rs : List Ref) (es : List Entry)
    → count (of_kind k) (number_loop first n rs es) ≡ count (of_kind k) es
unfolding number_loop
number_loop-count k first n [] es = refl
number_loop-count k first n (r ∷ rs) es = elim (Bool-cases (same_record first.entry r.entry)) [
  | inl t ↦
      rw (t, number_loop)
        (number_loop-count k first (n + 1) rs _ ∙ change-count k r.position _ es (λ e. refl))
  | inr f ↦ rw (f, number_loop) (number_loop-count k r 1 rs es)
]

pub number-All :
    (P : Entry → Type 0)
    → ((e : Entry) (n : ℕ) → P e → P (record e { rule = record e.rule { occurrence = n } }))
    → (rs : List Ref) (es : List Entry) → All P es
    → All P (number rs es)
unfolding number
number-All P blind [] es h = h
number-All P blind (r ∷ rs) es h = number_loop-All P blind r 1 rs es h

pub number-count :
    (k : Kind) (rs : List Ref) (es : List Entry)
    → count (of_kind k) (number rs es) ≡ count (of_kind k) es
unfolding number
number-count k [] es = refl
number-count k (r ∷ rs) es = number_loop-count k r 1 rs es

-- Where the builtins are kept, none is lost.
pub compact-count :
    (k : Kind) (es : List Entry)
    → 3 < kind_value k
    → All IsKept es
    → count (of_kind k) (compact es) ≡ count (of_kind k) es
unfolding compact
compact-count k [] high h = refl
compact-count k (e ∷ es) high h = ground (arith, h.0, compact-count k es high h.1)

if-All :
    (P : Entry → Type 0) (b : Bool) (xs ys : List Entry)
    → All P xs
    → All P ys
    → All P (if b then xs else ys)
if-All P true xs ys h k = h
if-All P false xs ys h k = k

pub compact-All : (P : Entry → Type 0) (es : List Entry) → All P es → All P (compact es)
unfolding compact
compact-All P [] h = tt
compact-All P (e ∷ es) h =
    let rest = compact-All P es h.1 in if-All P e.discard _ _ rest (h.0, rest)
