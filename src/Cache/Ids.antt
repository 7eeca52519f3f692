-- ===== src/Cache/Ids.antt =====
-- src/filter/policy.c and cache.c: the identifiers that resolve writes and those that a cache may hold.
use jaro_mail.Base.{
  ◌==◌, Bool-cases, Option-cases, length, all, Bytes, codes, str_eq, str_eq_iff, ℕ, suc, ◌+◌, ◌*◌,
  ◌/◌, ◌%◌, ◌^◌, ◌<◌, ◌≡◌, refl, sym, ap, subst, inl, inr, true, false, some, [], ◌∷◌, ◌++◌, arith,
}
use jaro_mail.Sha256.{pad_loop, length_bytes, Words, Hash, hex, hex_digit, word_hex, update, init}
use jaro_mail.Policy.Rules.{Rule}
use jaro_mail.Policy.Resolve.{identify}
use jaro_mail.Cache.Fields.{is_hex, split_colon, valid_id}

-- Digits in hexadecimal, and how many they are.
abbrev Digits : ℕ → Bytes → Type 0
Digits n s = (length s ≡ n) × (all is_hex s ≡ true)

hex_digit-is_hex : (d : ℕ) → d < 16 → is_hex (hex_digit d) ≡ true
hex_digit-is_hex d h = ground arith

word_hex-Digits : (w n : ℕ) (rest : Bytes) → Digits n rest → Digits (8 + n) (word_hex w rest)
word_hex-Digits w n rest h = (
  omega (arith, h.0),
  rw
      (
        hex_digit-is_hex (w / 2 ^ 28 % 16) (omega arith),
        hex_digit-is_hex (w / 2 ^ 24 % 16) (omega arith),
        hex_digit-is_hex (w / 2 ^ 20 % 16) (omega arith),
        hex_digit-is_hex (w / 2 ^ 16 % 16) (omega arith),
        hex_digit-is_hex (w / 2 ^ 12 % 16) (omega arith),
        hex_digit-is_hex (w / 2 ^ 8 % 16) (omega arith),
        hex_digit-is_hex (w / 2 ^ 4 % 16) (omega arith),
        hex_digit-is_hex (w % 16) (omega arith),
      )
      h.1,
)

words-Digits :
    (w : Words)
    → Digits 64 (
        word_hex w.a (
          word_hex w.b (
            word_hex w.c
              (word_hex w.d (word_hex w.e (word_hex w.f (word_hex w.g (word_hex w.h []))))))))
words-Digits w =
    let h : Bytes = word_hex w.h [] in
    let g : Bytes = word_hex w.g h in
    let f : Bytes = word_hex w.f g in
    let e : Bytes = word_hex w.e f in
    let d : Bytes = word_hex w.d e in
    let c : Bytes = word_hex w.c d in
    let b : Bytes = word_hex w.b c in
    word_hex-Digits w.a 56 b (
      word_hex-Digits w.b 48 c (
        word_hex-Digits w.c 40 d (
          word_hex-Digits w.d 32 e (
            word_hex-Digits w.e 24 f (
              word_hex-Digits w.f 16 g
                (word_hex-Digits w.g 8 h (word_hex-Digits w.h 0 [] (refl, refl))))))))

hex-Digits : (s : Hash) → Digits 64 (hex s)
unfolding hex
hex-Digits s =
    let bits = s.bytes * 8 % 2 ^ 64 in
    let padded = pad_loop 64 (update s (0x80 ∷ [])) in
    words-Digits (update padded (length_bytes bits)).state

split_colon-parts :
    (v : Bytes) (r : Bytes × Bytes)
    → split_colon v ≡ some r
    → length v ≡ length r.0 + 1 + length r.1
unfolding split_colon
split_colon-parts [] r h = cc h
split_colon-parts (c ∷ v) r h = elim (Bool-cases (c == b':')) [
  | inl t ↦
      let e : some ([], v) ≡ some r = rw (t, split_colon) at h in
      let same : ([], v) ≡ r = cc e in
      subst (λ (q : Bytes × Bytes). suc (length v) ≡ length q.0 + 1 + length q.1) same (omega arith)
  | inr t ↦ elim (Option-cases (split_colon v)) [
    | inl e ↦ cc (rw (t, e, split_colon) at h)
    | inr (q, e) ↦
        let whole : some (c ∷ q.0, q.1) ≡ some r = rw (t, e, split_colon) at h in
        let same : (c ∷ q.0, q.1) ≡ r = cc whole in
        subst (λ (q : Bytes × Bytes). suc (length v) ≡ length q.0 + 1 + length q.1) same
          (omega (arith, split_colon-parts v q e))
  ]
]

str_eq-length : (s t : Bytes) → str_eq s t ≡ true → length s ≡ length t
str_eq-length s t h = ap length ((str_eq_iff s t).0 h)

-- Every identifier that the validation of a cache accepts fits the array of 75 bytes that the
-- restoration copies it to, with its NUL.
pub valid_id-fits : (v : Bytes) → valid_id v ≡ true → length v < 75
unfolding valid_id
valid_id-fits v h =
    let bounce = str_eq-length v (codes "builtin:bounce") in
    let spam = str_eq-length v (codes "builtin:spam") in
    let unsorted = str_eq-length v (codes "builtin:unsorted") in
    elim (Option-cases (split_colon v)) [
      | inl e ↦ ground (arith, h, e, bounce, spam, unsorted)
      | inr (r, e) ↦
          let r' = str_eq-length r.0 (codes "r") in
          let known = str_eq-length r.0 (codes "known") in
          let blacklist = str_eq-length r.0 (codes "blacklist") in
          let own = str_eq-length r.0 (codes "own") in
          let parts = split_colon-parts v r e in
          ground (arith, h, e, bounce, spam, unsorted, r', known, blacklist, own, parts)
    ]

valid_id-rule : (s : Bytes) → Digits 64 s → valid_id (codes "r:" ++ s) ≡ true
unfolding valid_id split_colon str_eq
valid_id-rule s h = rw (h.0, h.1) refl

valid_id-known : (s : Bytes) → Digits 64 s → valid_id (codes "known:" ++ s) ≡ true
unfolding valid_id split_colon str_eq
valid_id-known s h = rw (h.0, h.1) refl

valid_id-blacklist : (s : Bytes) → Digits 64 s → valid_id (codes "blacklist:" ++ s) ≡ true
unfolding valid_id split_colon str_eq
valid_id-blacklist s h = rw (h.0, h.1) refl

valid_id-own : (s : Bytes) → Digits 64 s → valid_id (codes "own:" ++ s) ≡ true
unfolding valid_id split_colon str_eq
valid_id-own s h = rw (h.0, h.1) refl

-- What holds of a selector that is a given word, or of the others.
str_eq-elim : (P : Bytes → Type 0) (s word : Bytes) → P word → (str_eq s word ≡ false → P s) → P s
str_eq-elim P s word here other = elim (Bool-cases (str_eq s word)) [
  | inl t ↦ subst P (sym ((str_eq_iff s word).0 t)) here
  | inr f ↦ other f
]

-- Every identifier that resolve gives a rule is one that the validation of a cache accepts.
pub valid_id-identify : (r : Rule) → valid_id (identify r) ≡ true
unfolding identify str_eq valid_id
valid_id-identify r =
    let P = λ (sel : Bytes). valid_id (identify (record r { selector = sel })) ≡ true in
    let digits = hex-Digits (update init r.predicate) in
    str_eq-elim P r.selector (codes "bounce") refl (λ b.
      str_eq-elim P r.selector (codes "spam") refl (λ s.
        str_eq-elim P r.selector (codes "unsorted") refl (λ u.
          str_eq-elim P r.selector (codes "known") (valid_id-known _ digits) (λ k.
            str_eq-elim P r.selector (codes "blacklist") (valid_id-blacklist _ digits) (λ l.
              str_eq-elim P r.selector (codes "own") (valid_id-own _ digits)
                (λ o. rw (b, s, u, k, l, o, identify) (valid_id-rule _ (hex-Digits _))))))))
