-- ===== src/Cache/Validate/Read.antt =====
-- src/filter/cache.c: jf_cache_policy, which makes no test, reads what jf_cache_validate has read.
use jaro_mail.Base.{
  ◌==◌, Bool-cases, Option-cases, Bytes, ℕ, zero, suc, ◌+◌, ◌≡◌, refl, ap, ◌∙◌, ◌≢◌, inl, inr, not,
  ◌||◌, some, List, [], ◌∷◌, arith,
}
use jaro_mail.Cache.Fields.{
  read32, read_field, read_fields, read_record, nul_allowed, no_nul, field_count,
}
use jaro_mail.Cache.Dependencies.{read_views}

abbrev Read : Type 0
Read = List Bytes × Bytes

read_views-step :
    (n : ℕ) (s u : Bytes) (f : Bytes) (fs : List Bytes) (rest : Bytes)
    → read_field s ≡ some (f, u)
    → read_views n u ≡ some (fs, rest)
    → read_views (suc n) s ≡ some (f ∷ fs, rest)
unfolding read_views
read_views-step n s u f fs rest h k = rw (h, k, read_views) refl

read_fields-read_views :
    (tag j n : ℕ) (s : Bytes) (r : Read) → read_fields tag j n s ≡ some r → read_views n s ≡ some r
unfolding read_fields
read_fields-read_views tag j zero s r h = unfold read_views in h
read_fields-read_views tag j (suc n) s r h = elim (Option-cases (read_field s)) [
  | inl e ↦ cc (rw (e, read_fields) at h)
  | inr ((f, u), e) ↦ elim (Option-cases (read_fields tag (j + 1) n u)) [
    | inl e' ↦ cc (rw (e, e', read_fields) at h)
    | inr ((fs, rest), e') ↦
        let later = read_fields-read_views tag (j + 1) n u (fs, rest) e' in
        let whole = read_views-step n s u f fs rest e later in
        elim (Bool-cases (nul_allowed tag j || no_nul f)) [
          | inl t ↦ whole ∙ rw (e, e', t, read_fields) at h
          | inr t ↦ cc (rw (e, e', t, read_fields) at h)
        ]
  ]
]

-- What a record that validation reads is made of.
pub read_record-parts :
    (bytes : Bytes) (tag : ℕ) (fs : List Bytes) (rest : Bytes)
    → read_record bytes ≡ some (tag, fs, rest)
    → (s : Bytes) × (n : ℕ) × (u : Bytes) × (bytes ≡ tag ∷ s)
      × (read32 s ≡ some (n, u))
      × (read_views n u ≡ some (fs, rest))
      × (n ≡ field_count tag)
      × (n ≢ 0)
unfolding read_record
read_record-parts [] tag fs rest h = cc h
read_record-parts (t ∷ s) tag fs rest h = elim (Option-cases (read32 s)) [
  | inl e ↦ cc (rw (e, read_record) at h)
  | inr ((n, u), e) ↦ elim (Option-cases (read_fields t 0 n u)) [
    | inl e' ↦ cc (rw (e, e', read_record) at h)
    | inr ((gs, v), e') ↦ elim (Bool-cases (not (n == field_count t) || n == 0)) [
      | inl bad ↦ cc (rw (e, e', bad, read_record) at h)
      | inr good ↦
          let count : n ≡ field_count t = ground arith in
          let some_fields : n ≢ 0 = ground arith in
          let same : some (t, gs, v) ≡ some (tag, fs, rest) = rw (e, e', good, read_record) at h in
          (
            s,
            n,
            u,
            ap (λ x. x ∷ s) (cc same),
            e,
            read_fields-read_views t 0 n u (gs, v) e' ∙ cc same,
            count ∙ ap field_count (cc same),
            some_fields,
          )
    ]
  ]
]
