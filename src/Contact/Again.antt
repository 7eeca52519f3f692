-- ===== src/Contact/Again.antt =====
-- src/filter/contact.c: the record behind the text of a book that was read to its end.
use jaro_mail.Base.{
  if◌then◌else◌, Bool-cases, drop, Bytes, codes, str_eq, ◌≡◌, refl, ap, ◌∙◌, inl, inr, true, false,
  [], ◌∷◌, ◌++◌, arith,
}
use jaro_mail.Text.Blank.{trim_start}
use jaro_mail.Contact.{
  Scanned, Book, first_book, scanned, and_then, trim_line, section_line, split_equal, key_line,
  trimmed_line, book_line, scan, contact_record,
}
use jaro_mail.Contact.Scan.{scan-append, scan-first}
use jaro_mail.Contact.Added.{scan-IsBook, body}

abbrev preamble : Bytes
preamble = codes "\n[format]\nprogram=abook\nversion=0.6.1\n"

-- The name that the record holds.
abbrev pub shown : Bytes → Bytes → Bytes
shown email name = if str_eq name [] then email else name

contact_record-body :
    (b : Book) (email name : Bytes)
    → contact_record b email name
      ≡ (if b.format then [] else preamble) ++ b'\n' ∷ body b email (shown email name)
unfolding contact_record
contact_record-body b email name = refl

formatted : Book → Book
formatted b = record b { format = true; section = false }

format_line :
    (w : Bytes) (b : Book)
    → b.format ≡ false
    → b.records ≡ 0
    → book_line w b (codes "[format]") ≡ scanned (formatted b)
unfolding book_line trimmed_line section_line trim_line trim_start str_eq formatted
format_line w b h k = rw (h, k) refl

program_line :
    (w : Bytes) (b : Book)
    → book_line w (formatted b) (codes "program=abook") ≡ scanned (formatted b)
unfolding book_line trimmed_line key_line split_equal trim_line trim_start str_eq formatted
program_line w b = refl

version_line :
    (w : Bytes) (b : Book)
    → book_line w (formatted b) (codes "version=0.6.1") ≡ scanned (formatted b)
unfolding book_line trimmed_line key_line split_equal trim_line trim_start str_eq formatted
version_line w b = refl

empty_line : (w : Bytes) (b : Book) → book_line w b [] ≡ scanned b
unfolding book_line trimmed_line trim_line trim_start
empty_line w b = refl

-- The text that makes a book of an empty file.
scan-preamble :
    (w : Bytes) (b : Book) (rest : Bytes)
    → b.format ≡ false
    → b.records ≡ 0
    → scan w b [] (drop 1 preamble ++ b'\n' ∷ rest) ≡ scan w (formatted b) [] rest
scan-preamble w b rest h k =
    let f : Book = formatted b in
    let rest3 : Bytes = b'\n' ∷ rest in
    let rest2 : Bytes = codes "version=0.6.1\n" ++ rest3 in
    let rest1 : Bytes = codes "program=abook\n" ++ rest2 in
    scan-first w b (codes "[format]") rest1 (ground arith)
    ∙ ap (λ r. and_then r (λ b'. scan w b' [] rest1)) (format_line w b h k)
    ∙ scan-first w f (codes "program=abook") rest2 (ground arith)
    ∙ ap (λ r. and_then r (λ b'. scan w b' [] rest2)) (program_line w b)
    ∙ scan-first w f (codes "version=0.6.1") rest3 (ground arith)
    ∙ ap (λ r. and_then r (λ b'. scan w b' [] rest3)) (version_line w b)
    ∙ scan-first w f [] rest tt
    ∙ ap (λ r. and_then r (λ b'. scan w b' [] rest)) (empty_line w f)

-- Behind a book that was read to its end, what the record comes to is what its lines come to.
pub scan-record :
    (w : Bytes) (b : Book) (raw email name : Bytes) (r : Scanned)
    → scan w first_book [] raw ≡ scanned b
    → ((b' : Book)
        → b'.format ≡ true
        → b'.records ≡ b.records
        → b'.next ≡ b.next
        → scan w b' [] (body b' email (shown email name)) ≡ r)
    → scan w first_book [] (raw ++ contact_record b email name) ≡ r
unfolding formatted
scan-record w b raw email name r h lines =
    let last : Bytes = body b email (shown email name) in
    ap (λ t. scan w first_book [] (raw ++ t)) (contact_record-body b email name)
    ∙ elim (Bool-cases b.format) [
      | inl t ↦ rw t (
          scan-append w first_book [] raw last
          ∙ ap (λ s. and_then s (λ b'. scan w b' [] last)) h
          ∙ lines b t refl refl)
      | inr f ↦ rw f (
          scan-append w first_book [] raw (drop 1 preamble ++ b'\n' ∷ last)
          ∙ ap (λ s. and_then s (λ b'. scan w b' [] (drop 1 preamble ++ b'\n' ∷ last))) h
          ∙ scan-preamble w b last f
              ((scan-IsBook w first_book b [] raw h (λ e. refl, omega arith)).0 f)
          ∙ lines (formatted b) refl refl refl)
    ]
