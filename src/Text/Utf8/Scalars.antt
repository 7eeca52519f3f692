-- ===== src/Text/Utf8/Scalars.antt =====
-- src/filter/policy.c: what jf_valid_utf8 accepts, described by encode.
use jaro_mail.Base.{
  ℕ, zero, suc, ◌≤◌, ◌<◌, ◌≡◌, refl, ◌∙◌, ap, ◌↔◌, ◌⊎◌, inl, inr, true, some, List, [], ◌∷◌, ◌++◌,
  length, length-append, All, Option-cases, Bytes, arith,
}
use jaro_mail.Text.Utf8.{decode, utf8_loop, valid_utf8, encode}

-- A Unicode scalar value other than NUL.
pub record IsScalar (c : ℕ) : Type 0 where
  pub positive : 0 < c
  pub bounded : c ≤ 0x10ffff
  pub no_surrogate : (c < 0xd800) ⊎ (0xdfff < c)

abbrev pub encode_all : List ℕ → Bytes
encode_all [] = []
encode_all (c ∷ cs) = encode c ++ encode_all cs

-- One round of the loop undoes `encode`.
abbrev ReadsBack : ℕ → Bytes → Bytes → Type 0
ReadsBack v rest [] = ⊥
ReadsBack v rest (b ∷ s) = decode b s ≡ some (v, rest)

decode-encode : (c : ℕ) (rest : Bytes) → IsScalar c → ReadsBack c rest (encode c ++ rest)
unfolding decode encode
decode-encode c rest h = ground arith

decode_sound :
    (c : ℕ) (s : Bytes) {v : ℕ} {rest : Bytes}
    → decode c s ≡ some (v, rest)
    → IsScalar v × ((c ∷ s) ≡ encode v ++ rest)
unfolding decode encode
decode_sound c [] h = ground arith
decode_sound c (x ∷ []) h = ground arith
decode_sound c (x ∷ y ∷ []) h = ground arith
decode_sound c (x ∷ y ∷ z ∷ s) h = ground arith

utf8_loop-ReadsBack :
    (fuel v : ℕ) (bs rest : Bytes)
    → ReadsBack v rest bs
    → utf8_loop (suc fuel) bs ≡ utf8_loop fuel rest
unfolding utf8_loop
utf8_loop-ReadsBack fuel v [] rest h = absurd h
utf8_loop-ReadsBack fuel v (b ∷ bs) rest h = rw (h, utf8_loop)

length-encode : (c : ℕ) → 0 < length (encode c)
unfolding encode
length-encode c = ground arith

utf8_loop-encode_all :
    (fuel : ℕ) (cs : List ℕ)
    → All IsScalar cs
    → length (encode_all cs) ≤ fuel
    → utf8_loop fuel (encode_all cs) ≡ true
utf8_loop-encode_all fuel [] h le = unfold utf8_loop in refl
utf8_loop-encode_all zero (c ∷ cs) h le =
    absurd (omega (arith, length-append (encode c) (encode_all cs), length-encode c))
utf8_loop-encode_all (suc fuel) (c ∷ cs) h le =
    utf8_loop-ReadsBack fuel c (encode c ++ encode_all cs) (encode_all cs)
      (decode-encode c (encode_all cs) h.0)
    ∙ utf8_loop-encode_all fuel cs h.1
        (omega (arith, length-append (encode c) (encode_all cs), length-encode c))

utf8_loop_sound :
    (fuel : ℕ) (s : Bytes)
    → utf8_loop fuel s ≡ true
    → (cs : List ℕ) × All IsScalar cs × (s ≡ encode_all cs)
unfolding utf8_loop
utf8_loop_sound fuel [] h = ([], tt, refl)
utf8_loop_sound zero (c ∷ s) h = cc h
utf8_loop_sound (suc fuel) (c ∷ s) h = elim (Option-cases (decode c s)) [
  | inl e ↦ cc (rw (e, utf8_loop) at h)
  | inr ((v, rest), e) ↦
      let (cs, scalars, same) = utf8_loop_sound fuel rest (rw (e, utf8_loop) at h) in
      let (scalar, first) = decode_sound c s e in
      (v ∷ cs, (scalar, scalars), first ∙ ap (λ r. encode v ++ r) same)
]

-- jf_valid_utf8 accepts exactly the byte strings that are the encodings, as `encode` writes them,
-- of a sequence of Unicode scalar values other than NUL: no overlong form, no surrogate, nothing
-- above U+10FFFF, no NUL and no stray or missing continuation byte passes.
pub valid_utf8_iff :
    (s : Bytes) → (valid_utf8 s ≡ true) ↔ ((cs : List ℕ) × All IsScalar cs × (s ≡ encode_all cs))
unfolding valid_utf8
valid_utf8_iff s = (
  utf8_loop_sound (length s) s,
  λ (cs, scalars, same). rw same (utf8_loop-encode_all _ cs scalars (omega arith)),
)
