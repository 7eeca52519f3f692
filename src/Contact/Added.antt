-- ===== src/Contact/Added.antt =====
-- src/filter/contact.c: what the loop keeps, and how an appended record is read.
use jaro_mail.Base.{
  ltb, ◌==◌, Bool-cases, length, any, All-append, All-map, Bytes, codes, ◌+◌, ◌-◌, ◌^◌, ◌≤◌, ◌<◌,
  ◌≡◌, refl, sym, ap, ◌∙◌, subst, ◌≢◌, inl, inr, true, false, ◌||◌, some, [], ◌∷◌, ◌++◌,
  append_assoc, arith,
}
use jaro_mail.Text.Decimal.{decimal}
use jaro_mail.Text.Blank.{trim_start}
use jaro_mail.Policy.Build.{line_max}
use jaro_mail.Policy.Resolve.{rule_max}
use jaro_mail.Cache.Numbers.{decimal_loop-decimal}
use jaro_mail.Contact.{
  canonical, Book, Scanned, invalid, found, scanned, and_then, trim_line, section_line, key_line,
  trimmed_line, book_line, scan,
}
use jaro_mail.Contact.Scan.{scan-first, OneLine}
use jaro_mail.Contact.Words.{decimal-nonempty, decimal-IsDigits, decimal-length}
use jaro_mail.Contact.Record.{
  IsText, IsText-OneLine, label_line, name_line, long_name_line, email_line,
}

-- What the loop keeps true of the book.
abbrev pub IsBook : Book → Type 0
IsBook b = (b.format ≡ false → b.records ≡ 0) × (b.records ≤ rule_max)

section_line-IsBook :
    (b b' : Book) (line : Bytes) → section_line b line ≡ scanned b' → IsBook b → IsBook b'
unfolding section_line
section_line-IsBook b b' line h k = let e = k.0 in let r = k.1 in ground (arith, h, e, r)

key_line-IsBook :
    (w : Bytes) (b b' : Book) (line : Bytes) → key_line w b line ≡ scanned b' → IsBook b → IsBook b'
unfolding key_line
key_line-IsBook w b b' line h k = let same : b ≡ b' = ground (arith, h) in subst IsBook same k

trimmed_line-IsBook :
    (w : Bytes) (b b' : Book) (line : Bytes)
    → trimmed_line w b line ≡ scanned b'
    → IsBook b
    → IsBook b'
unfolding trimmed_line
trimmed_line-IsBook w b b' [] h k = let same : b ≡ b' = cc h in subst IsBook same k
trimmed_line-IsBook w b b' (c ∷ s) h k =
    elim (Bool-cases (ltb line_max (length (c ∷ s)) || any (λ d. d == 0) (c ∷ s))) [
      | inl t ↦ cc (rw (t, trimmed_line) at h)
      | inr t ↦ elim (Bool-cases (c == b'#')) [
        | inl u ↦ let same : b ≡ b' = cc (rw (t, u, trimmed_line) at h) in subst IsBook same k
        | inr u ↦ elim (Bool-cases (c == b'[')) [
          | inl v ↦ section_line-IsBook b b' (c ∷ s) (rw (t, u, v, trimmed_line) at h) k
          | inr v ↦ key_line-IsBook w b b' (c ∷ s) (rw (t, u, v, trimmed_line) at h) k
        ]
      ]
    ]

book_line-IsBook :
    (w : Bytes) (b b' : Book) (line : Bytes)
    → book_line w b line ≡ scanned b'
    → IsBook b
    → IsBook b'
unfolding book_line
book_line-IsBook w b b' line h k = trimmed_line-IsBook w b b' (trim_line (trim_start line)) h k

and_then-parts :
    (r : Scanned) (f : Book → Scanned) (b : Book)
    → and_then r f ≡ scanned b
    → (mid : Book) × (r ≡ scanned mid) × (f mid ≡ scanned b)
and_then-parts invalid f b h = cc h
and_then-parts found f b h = cc h
and_then-parts (scanned mid) f b h = (mid, refl, h)

pub scan-IsBook :
    (w : Bytes) (b b' : Book) (line s : Bytes) → scan w b line s ≡ scanned b' → IsBook b → IsBook b'
unfolding scan
scan-IsBook w b b' line [] h k = book_line-IsBook w b b' line h k
scan-IsBook w b b' line (c ∷ s) h k = elim (Bool-cases (c == b'\n')) [
  | inl t ↦
      let (mid, first, rest) = and_then-parts (book_line w b line) _ b' (rw (t, scan) at h) in
      scan-IsBook w mid b' [] s rest (book_line-IsBook w b mid line first k)
  | inr f ↦ scan-IsBook w b b' (line ++ c ∷ []) s (rw (f, scan) at h) k
]

-- The lines behind the newline that every record begins with.
abbrev pub body : Book → Bytes → Bytes → Bytes
body b email name =
    b'['
    ∷ (decimal b.next
        ++ (b']'
            ∷ b'\n'
            ∷ (codes "name=" ++ (name ++ (b'\n' ∷ (codes "email=" ++ (email ++ (b'\n' ∷ []))))))))

-- The text behind the label of the new section.
abbrev rest_of : Bytes → Bytes → Bytes
rest_of email name = codes "name=" ++ (name ++ (b'\n' ∷ (codes "email=" ++ (email ++ b'\n' ∷ []))))

abbrev labelled : Book → Book
labelled b = record b { records = b.records + 1; next = b.next + 1; section = true }

scan-label :
    (w : Bytes) (b : Book) (email name : Bytes)
    → b.format ≡ true
    → b.records < rule_max
    → b.next < 2 ^ 64 - 1
    → scan w b [] (body b email name) ≡ scan w (labelled b) [] (rest_of email name)
scan-label w b email name format room low =
    let digits = decimal-IsDigits b.next in
    let label : Bytes = b'[' ∷ (decimal b.next ++ b']' ∷ []) in
    let one : OneLine label = (
      omega arith,
      All-append (λ c. c ≢ b'\n') (decimal b.next) (b']' ∷ [])
          (All-map (λ c. (b'0' ≤ c) × (c ≤ b'9')) (λ c. c ≢ b'\n')
            (λ c h. let k = h.0 in omega arith) (decimal b.next) digits)
          (omega arith, tt),
    ) in
    let l =
      label_line w b (decimal b.next) b.next digits (decimal-nonempty b.next)
        (decimal-length b.next (omega arith)) (decimal_loop-decimal b.next (omega arith)) format
        refl low room in
    ap (λ t. scan w b [] (b'[' ∷ t))
      (sym (append_assoc (decimal b.next) (b']' ∷ []) (b'\n' ∷ rest_of email name)))
    ∙ scan-first w b label (rest_of email name) one
    ∙ ap (λ r. and_then r (λ b'. scan w b' [] (rest_of email name))) l

scan-name :
    (w : Bytes) (b : Book) (email name : Bytes)
    → IsText name
    → scan w b [] (rest_of email name)
      ≡ and_then
          (book_line w b (codes "name=" ++ name))
          (λ b'. scan w b' [] (codes "email=" ++ (email ++ b'\n' ∷ [])))
scan-name w b email name named =
    scan-first w b (codes "name=" ++ name) (codes "email=" ++ (email ++ b'\n' ∷ [])) (
      IsText-OneLine (codes "name=" ++ name)
        (omega arith, (omega arith, (omega arith, (omega arith, (omega arith, named))))))

pub scan-body :
    (w : Bytes) (b : Book) (email name : Bytes)
    → b.format ≡ true
    → b.records < rule_max
    → b.next < 2 ^ 64 - 1
    → canonical email ≡ some w
    → IsText email
    → any (λ c. c == b',') email ≡ false
    → 6 + length email ≤ line_max
    → IsText name
    → 5 + length name ≤ line_max
    → scan w b [] (body b email name) ≡ found
scan-body w b email name format room low address text plain short named fits =
    let rest2 : Bytes = codes "email=" ++ (email ++ b'\n' ∷ []) in
    scan-label w b email name format room low
    ∙ scan-name w (labelled b) email name named
    ∙ ap (λ r. and_then r (λ b'. scan w b' [] rest2))
        (name_line w (labelled b) name format named fits)
    ∙ scan-first w (labelled b) (codes "email=" ++ email) [] (
        IsText-OneLine (codes "email=" ++ email) (
          omega arith,
          (omega arith, (omega arith, (omega arith, (omega arith, (omega arith, text))))),
        ))
    ∙ ap (λ r. and_then r (λ b'. scan w b' [] []))
        (email_line w (labelled b) email format refl address text plain short)

-- A name that makes its line longer than a line of a book may be.
pub scan-long_body :
    (w : Bytes) (b : Book) (email name : Bytes)
    → b.format ≡ true
    → b.records < rule_max
    → b.next < 2 ^ 64 - 1
    → IsText name
    → line_max < 5 + length (trim_line name)
    → scan w b [] (body b email name) ≡ invalid
scan-long_body w b email name format room low named long =
    scan-label w b email name format room low
    ∙ scan-name w (labelled b) email name named
    ∙ ap (λ r. and_then r (λ b'. scan w b' [] (codes "email=" ++ (email ++ b'\n' ∷ []))))
        (long_name_line w (labelled b) name long)
