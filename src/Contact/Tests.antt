-- ===== src/Contact/Tests.antt =====
-- src/filter/contact.c: the theorems on an address book that was empty.
use jaro_mail.Base.{
  length, Bytes, codes, str_eq, in_set, ℕ, zero, suc, ◌≡◌, refl, ◌≢◌, Bool, true, false, some, [],
  ◌∷◌, arith,
}
use jaro_mail.Text.Ascii.{alnum_ascii, atext, fold, fold_byte}
use jaro_mail.Text.Domain.{valid_domain, domain_loop}
use jaro_mail.Text.Utf8.{valid_utf8, utf8_loop, decode, rejected}
use jaro_mail.Text.Mailbox.{local_rest, domain_part, valid_mailbox, normalize_mailbox}
use jaro_mail.Text.Decimal.{decimal, decimal_loop}
use jaro_mail.Text.Blank.{trim_start}
use jaro_mail.Product.Buffer.{bytes_fits}
use jaro_mail.Contact.{
  trim_line, valid_text, contact_record, valid_text, canonical, first_book, scanned, scan,
  book_line, trimmed_line, trim_line, contact_record, opened, granted, Files, stops, append_contact,
  contact_add,
}
use jaro_mail.Contact.LongName.{contact_add-long_name}
use jaro_mail.Contact.Twice.{added, contact_add-again}

abbrev empty_file : Files
empty_file = record {
  opening = opened;
  lock = granted;
  content = some [];
  unchanged = true;
  written = true;
}

abbrev new_text : Bytes
new_text =
    codes "\n[format]\nprogram=abook\nversion=0.6.1\n\n[0]\nname=Jaromil\nemail=Me@dyne.org\n"

abbrev after : Files
after = record empty_file { content = some new_text }

address : canonical (codes "Me@dyne.org") ≡ some (codes "me@dyne.org")
unfolding canonical valid_utf8 utf8_loop decode rejected normalize_mailbox valid_mailbox domain_part
    local_rest atext in_set valid_domain domain_loop alnum_ascii fold fold_byte
address = refl

empty_scan : scan (codes "me@dyne.org") first_book [] [] ≡ scanned first_book
unfolding scan book_line trimmed_line trim_line trim_start
empty_scan = refl

appended : contact_add false empty_file (codes "Me@dyne.org") (codes "Jaromil") ≡ added new_text
unfolding contact_add valid_text canonical valid_utf8 utf8_loop decode rejected normalize_mailbox
    valid_mailbox domain_part local_rest atext in_set valid_domain domain_loop alnum_ascii fold
    fold_byte scan book_line trimmed_line trim_line trim_start append_contact contact_record decimal
    decimal_loop bytes_fits str_eq
appended = refl

contact_add-again_example : contact_add true after (codes "Me@dyne.org") (codes "Jaromil") ≡ stops 1
contact_add-again_example =
    contact_add-again empty_file (codes "Me@dyne.org") (codes "Jaromil") [] new_text
      (codes "me@dyne.org") first_book address refl empty_scan true after appended (omega arith)
      (omega arith) (omega arith) refl refl refl

abbrev copies : ℕ → Bytes
copies zero = []
copies (suc n) = b'a' ∷ copies n

abbrev long_name : Bytes
long_name = copies 65532

long_text : Bytes
long_text = contact_record first_book (codes "Me@dyne.org") long_name

long_name-valid : valid_text long_name ≡ true
unfolding valid_text valid_utf8 utf8_loop decode rejected
long_name-valid = refl

email-valid : valid_text (codes "Me@dyne.org") ≡ true
unfolding valid_text valid_utf8 utf8_loop decode rejected
email-valid = refl

long_text-length : length long_text ≡ 65599
unfolding long_text contact_record decimal decimal_loop str_eq
long_text-length = refl

copies-nonempty : (n : ℕ) → copies (suc n) ≢ []
copies-nonempty n e = cc e

long_line : length (trim_line long_name) ≡ 65532
unfolding trim_line
long_line = refl

contact_add-long_name_example :
    (contact_add false empty_file (codes "Me@dyne.org") long_name ≡ added long_text)
    × ((check : Bool) (later : Files)
        → later.opening ≡ opened
        → later.lock ≡ granted
        → later.content ≡ some long_text
        → contact_add check later (codes "Me@dyne.org") long_name ≡ stops 4)
unfolding long_text
contact_add-long_name_example =
    contact_add-long_name empty_file (codes "Me@dyne.org") long_name [] (codes "me@dyne.org")
      first_book email-valid long_name-valid refl address refl refl refl refl refl empty_scan
      (omega (arith, long_text-length)) (omega arith) (omega arith) (copies-nonempty 65531)
      (omega (arith, long_line))
