-- ===== src/Contact/Scan.antt =====
-- src/filter/contact.c: the loop over the lines of the book, on a text in two parts.
use jaro_mail.Base.{
  ◌==◌, Bool-cases, length, All, List-cases, Bytes, ℕ, ◌≤◌, ◌<◌, ◌≡◌, refl, sym, ap, ◌∙◌, subst,
  ◌≢◌, inl, inr, false, ◌||◌, [], ◌∷◌, ◌++◌, append-nil, append_assoc, arith,
}
use jaro_mail.Text.Blank.{is_blank, trim_end}
use jaro_mail.Contact.{Book, Scanned, invalid, found, scanned, and_then, trim_line, book_line, scan}

and_then_ext :
    (r : Scanned) (f g : Book → Scanned) → ((b : Book) → f b ≡ g b) → and_then r f ≡ and_then r g
and_then_ext invalid f g h = refl
and_then_ext found f g h = refl
and_then_ext (scanned b) f g h = h b

and_then_assoc :
    (r : Scanned) (f g : Book → Scanned)
    → and_then r (λ b. and_then (f b) g) ≡ and_then (and_then r f) g
and_then_assoc invalid f g = refl
and_then_assoc found f g = refl
and_then_assoc (scanned b) f g = refl

-- A text and what stands behind a newline are read one after the other.
pub scan-append :
    (w : Bytes) (b : Book) (line raw rest : Bytes)
    → scan w b line (raw ++ b'\n' ∷ rest) ≡ and_then (scan w b line raw) (λ b'. scan w b' [] rest)
unfolding scan
scan-append w b line [] rest = refl
scan-append w b line (c ∷ raw) rest = elim (Bool-cases (c == b'\n')) [
  | inl t ↦ rw t (
      and_then_ext (book_line w b line) _ _ (λ b'. scan-append w b' [] raw rest)
      ∙ and_then_assoc (book_line w b line) (λ b'. scan w b' [] raw) (λ b'. scan w b' [] rest))
  | inr f ↦ rw f (scan-append w b (line ++ c ∷ []) raw rest)
]

abbrev pub OneLine : Bytes → Type 0
OneLine s = All (λ c. c ≢ b'\n') s

scan-line :
    (w : Bytes) (b : Book) (line s : Bytes)
    → OneLine s
    → scan w b line s ≡ book_line w b (line ++ s)
unfolding scan
scan-line w b line [] h = ap (book_line w b) (sym (append-nil line))
scan-line w b line (c ∷ s) h =
    let other : (c == b'\n') ≡ false = ground (arith, h.0) in
    rw other
      (scan-line w b (line ++ c ∷ []) s h.1 ∙ ap (book_line w b) (append_assoc line (c ∷ []) s))

-- A line that a newline ends.
pub scan-first :
    (w : Bytes) (b : Book) (s rest : Bytes)
    → OneLine s
    → scan w b [] (s ++ b'\n' ∷ rest) ≡ and_then (book_line w b s) (λ b'. scan w b' [] rest)
scan-first w b s rest h =
    scan-append w b [] s rest
    ∙ ap (λ r. and_then r (λ b'. scan w b' [] rest)) (scan-line w b [] s h)

-- The last byte is above the space, so nothing is trimmed.
abbrev pub EndsVisible : Bytes → Type 0
EndsVisible [] = ⊥
EndsVisible (c ∷ []) = 32 < c
EndsVisible (c ∷ d ∷ s) = EndsVisible (d ∷ s)

pub EndsVisible-append : (s t : Bytes) → EndsVisible t → EndsVisible (s ++ t)
EndsVisible-append [] t h = h
EndsVisible-append (c ∷ []) [] h = absurd h
EndsVisible-append (c ∷ []) (d ∷ t) h = h
EndsVisible-append (c ∷ d ∷ s) t h = EndsVisible-append (d ∷ s) t h

pub trim_line-EndsVisible : (s : Bytes) → EndsVisible s → trim_line s ≡ s
unfolding trim_line
trim_line-EndsVisible [] h = absurd h
trim_line-EndsVisible (c ∷ []) h = ground (arith, h)
trim_line-EndsVisible (c ∷ d ∷ s) h = rw (trim_line-EndsVisible (d ∷ s) h) refl

pub trim_end-EndsVisible : (s : Bytes) → EndsVisible s → trim_end s ≡ s
unfolding trim_end
trim_end-EndsVisible [] h = absurd h
trim_end-EndsVisible (c ∷ []) h = ground (arith, h)
trim_end-EndsVisible (c ∷ d ∷ s) h = rw (trim_end-EndsVisible (d ∷ s) h) refl

pub trim_line-visible : (c : ℕ) (s : Bytes) → 32 < c → trim_line (c ∷ s) ≡ c ∷ trim_line s
unfolding trim_line
trim_line-visible c s h = elim (List-cases (trim_line s)) [
  | inl e ↦ rw (e, trim_line) (ground (arith, h))
  | inr (x, xs, e) ↦ rw (e, trim_line) refl
]

pub trim_line-length : (s : Bytes) → length (trim_line s) ≤ length s
unfolding trim_line
trim_line-length [] = omega arith
trim_line-length (c ∷ s) =
    let h = trim_line-length s in
    elim (List-cases (trim_line s)) [
      | inl e ↦ rw (e, trim_line) (ground arith)
      | inr (x, xs, e) ↦ rw (e, trim_line) (omega (arith, h, ap length e))
    ]

pub trim_line-All : (P : ℕ → Type 0) (s : Bytes) → All P s → All P (trim_line s)
unfolding trim_line
trim_line-All P [] h = tt
trim_line-All P (c ∷ s) h =
    let k = trim_line-All P s h.1 in
    elim (List-cases (trim_line s)) [
      | inl e ↦ elim (Bool-cases (is_blank c || c == b'\r')) [
        | inl t ↦ rw (e, t, trim_line) tt
        | inr f ↦ rw (e, f, trim_line) (h.0, tt)
      ]
      | inr (x, xs, e) ↦ rw (e, trim_line) (h.0, subst (All P) e k)
    ]
