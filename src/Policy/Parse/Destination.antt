-- ===== src/Policy/Parse/Destination.antt =====
-- src/filter/policy.c, destination: the accepted destinations are the relative paths of plain names.
use jaro_mail.Base.{
  ◌==◌, if◌then◌else◌, ==_iff, Bool-cases, All, All-append, Bytes, str_eq, ℕ, ◌≡◌, refl, sym, ap₂,
  ◌∙◌, ◌≢◌, ◌↔◌, inl, inr, true, false, not, List, [], ◌∷◌, ◌++◌, append-nil, append_assoc, arith,
}
use jaro_mail.Text.Ascii.{control}
use jaro_mail.Policy.Parse.{destination_loop, valid_destination, bad_component}

-- A byte that a path's name may hold.
abbrev IsPlain : ℕ → Type 0
IsPlain c = (c ≢ b'/') × (control c ≡ false)

-- A name that is not empty, "." or "..".
abbrev IsName : Bytes → Type 0
IsName w = All IsPlain w × (bad_component w ≡ false)

-- A path, by its first name and the others.
unfoldable pub join : Bytes → List Bytes → Bytes
join w [] = w
join w (v ∷ vs) = w ++ b'/' ∷ join v vs

-- The strings that are names joined by slashes.
unfoldable pub IsPath : Bytes → Type 0
IsPath s = (w : Bytes) × (ws : List Bytes) × (s ≡ join w ws) × All IsName (w ∷ ws)

destination_loop-end : (word : Bytes) → destination_loop word [] ≡ not (bad_component word)
unfolding destination_loop
destination_loop-end word = refl

destination_loop-byte :
    (word : Bytes) (c : ℕ) (s : Bytes)
    → destination_loop word (c ∷ s) ≡ (
        if control c
        then false
        else if c == b'/'
        then if bad_component word then false else destination_loop [] s
        else destination_loop (word ++ c ∷ []) s)
unfolding destination_loop
destination_loop-byte word c s = refl

unfoldable IsPathFrom : Bytes → Bytes → Type 0
IsPathFrom word s = (w : Bytes) × (ws : List Bytes) × (word ++ s ≡ join w ws) × All IsName (w ∷ ws)

destination_loop-IsPathFrom :
    (word s : Bytes) → All IsPlain word → destination_loop word s ≡ true → IsPathFrom word s
unfolding IsPathFrom join
destination_loop-IsPathFrom word [] plain h =
    let ended = destination_loop-end word in
    let good : bad_component word ≡ false = ground arith in
    (word, [], append-nil word, ((plain, good), tt))
destination_loop-IsPathFrom word (c ∷ s) plain h = elim (Bool-cases (control c)) [
  | inl t ↦ absurd (cc (rw (destination_loop-byte word c s, t) at h))
  | inr f ↦ elim (Bool-cases (c == b'/')) [
    | inl slash ↦ elim (Bool-cases (bad_component word)) [
      | inl bad ↦ absurd (cc (rw (destination_loop-byte word c s, f, slash, bad) at h))
      | inr good ↦
          let h' : destination_loop [] s ≡ true =
            (rw (destination_loop-byte word c s, f, slash, good) at h) in
          let r = destination_loop-IsPathFrom [] s tt h' in
          let is : c ≡ b'/' = (==_iff c b'/').0 slash in
          let same : word ++ c ∷ s ≡ word ++ b'/' ∷ join r.0 r.1 =
            ap₂ (λ d t. word ++ d ∷ t) is r.2 in
          (word, r.0 ∷ r.1, same, ((plain, good), r.3))
    ]
    | inr other ↦
        let h' : destination_loop (word ++ c ∷ []) s ≡ true =
          (rw (destination_loop-byte word c s, f, other) at h) in
        let differs : c ≢ b'/' = ground arith in
        let plain' = All-append IsPlain word (c ∷ []) plain ((differs, f), tt) in
        let r = destination_loop-IsPathFrom (word ++ c ∷ []) s plain' h' in
        (r.0, r.1, sym (append_assoc word (c ∷ []) s) ∙ r.2, r.3)
  ]
]

-- From within a name, of which `acc` has been read.
destination_loop-join :
    (acc v : Bytes) (vs : List Bytes)
    → All IsPlain v
    → bad_component (acc ++ v) ≡ false
    → All IsName vs
    → destination_loop acc (join v vs) ≡ true
unfolding join
destination_loop-join acc [] [] plain good names =
    let good' : bad_component acc ≡ false = (rw (append-nil acc) at good) in
    (rw (destination_loop-end acc, good') refl)
destination_loop-join acc [] (v ∷ vs) plain good names =
    let good' : bad_component acc ≡ false = (rw (append-nil acc) at good) in
    (rw (destination_loop-byte acc b'/' (join v vs), good')
      (destination_loop-join [] v vs names.0.0 names.0.1 names.1))
destination_loop-join acc (c ∷ v) [] plain good names =
    let same = append_assoc acc (c ∷ []) v in
    let other : (c == b'/') ≡ false = ground arith in
    rw (destination_loop-byte acc c v, plain.0.1, other)
      (destination_loop-join (acc ++ c ∷ []) v [] plain.1 (rw same good) tt)
destination_loop-join acc (c ∷ v) (u ∷ us) plain good names =
    let same = append_assoc acc (c ∷ []) v in
    let other : (c == b'/') ≡ false = ground arith in
    rw (destination_loop-byte acc c (v ++ b'/' ∷ join u us), plain.0.1, other)
      (destination_loop-join (acc ++ c ∷ []) v (u ∷ us) plain.1 (rw same good) names)

valid_destination-byte :
    (c : ℕ) (s : Bytes)
    → valid_destination (c ∷ s) ≡ (if c == b'/' then false else destination_loop [] (c ∷ s))
unfolding valid_destination
valid_destination-byte c s = refl

valid_destination-join :
    (w : Bytes) (ws : List Bytes) → All IsName (w ∷ ws) → valid_destination (join w ws) ≡ true
unfolding join str_eq
valid_destination-join [] ws names = ground arith
valid_destination-join (c ∷ w) [] names =
    let other : (c == b'/') ≡ false = ground arith in
    (rw (valid_destination-byte c w, other)
      (destination_loop-join [] (c ∷ w) [] names.0.0 names.0.1 names.1))
valid_destination-join (c ∷ w) (v ∷ vs) names =
    let other : (c == b'/') ≡ false = ground arith in
    (rw (valid_destination-byte c (w ++ b'/' ∷ join v vs), other)
      (destination_loop-join [] (c ∷ w) (v ∷ vs) names.0.0 names.0.1 names.1))

valid_destination-IsPath : (s : Bytes) → valid_destination s ≡ true → IsPath s
unfolding IsPath valid_destination IsPathFrom
valid_destination-IsPath [] h = cc h
valid_destination-IsPath (c ∷ s) h = elim (Bool-cases (c == b'/')) [
  | inl t ↦ absurd (cc (rw t at h))
  | inr f ↦ destination_loop-IsPathFrom [] (c ∷ s) tt (rw f at h)
]

-- `destination` accepts exactly the strings that are one or more names joined by slashes, where a
-- name is not empty, not "." and not "..", and holds neither a slash nor a control byte: no
-- accepted destination is absolute, climbs out of its directory, or has an empty component.
pub valid_destination_iff : (s : Bytes) → (valid_destination s ≡ true) ↔ IsPath s
unfolding IsPath
valid_destination_iff s = (
  valid_destination-IsPath s,
  λ (w, ws, same, names). rw same (valid_destination-join w ws names),
)
