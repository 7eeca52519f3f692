-- ===== src/Contact/LongName.antt =====
-- src/filter/contact.c, jf_contact_add: a name that the call accepts, and that the book cannot hold.
use jaro_mail.Base.{
  ltb, leb, ◌==◌, length, any, Bytes, ◌+◌, ◌-◌, ◌^◌, ◌≤◌, ◌<◌, ◌≡◌, refl, ◌∙◌, ◌≢◌, Bool, true,
  false, not, ◌&&◌, ◌||◌, some, [], ◌++◌, arith,
}
use jaro_mail.Contact.{
  valid_text, canonical, Book, first_book, scanned, scan, trim_line, contact_record, opened,
  granted, Files, stops, append_contact, contact_add,
}
use jaro_mail.Contact.Twice.{added, later_call-long_name}
use jaro_mail.Product.Buffer.{bytes_fits}
use jaro_mail.Policy.Build.{input_max, line_max}
use jaro_mail.Policy.Resolve.{rule_max}

append_contact-appends :
    (files : Files) (email name raw : Bytes) (b : Book)
    → files.unchanged ≡ true
    → files.written ≡ true
    → length raw + length (contact_record b email name) ≤ input_max
    → b.records < rule_max
    → append_contact files raw b email name ≡ added (contact_record b email name)
unfolding append_contact bytes_fits
append_contact-appends files email name raw b unchanged written size few =
    let room : (b.records == rule_max
          || not (
              leb (length raw) input_max
              && leb (length (contact_record b email name)) (input_max - length raw)))
        ≡ false =
      ground arith in
    rw (room, unchanged, written, append_contact) refl

contact_add-appends :
    (files : Files) (email name raw w : Bytes) (b : Book)
    → (not (valid_text email) || not (valid_text name) || any (λ c. c == b',') email) ≡ false
    → canonical email ≡ some w
    → files.opening ≡ opened
    → files.lock ≡ granted
    → files.content ≡ some raw
    → length raw ≤ input_max
    → scan w first_book [] raw ≡ scanned b
    → contact_add false files email name ≡ append_contact files raw b email name
unfolding contact_add
contact_add-appends files email name raw w b valid address opens locks content size reads =
    let short : ltb input_max (length raw) ≡ false = ground arith in
    rw (valid, address, contact_add) (ground (arith, opens, locks, content, short, reads))

-- A name that is not empty and that the tests of jf_contact_add accept may be too long for its line
-- in the book. On a book that is read without an error and without the contact, with a record and
-- its bytes left to the limits, a label below 2 ^ 64 - 1, and no failure of the system, the call
-- appends it and returns 0; and every later call with that contact on the book that it left refuses
-- the book, with the status 4, where the system grants the lock.
pub contact_add-long_name :
    (files : Files) (email name raw w : Bytes) (b : Book)
    → valid_text email ≡ true
    → valid_text name ≡ true
    → any (λ c. c == b',') email ≡ false
    → canonical email ≡ some w
    → files.opening ≡ opened
    → files.lock ≡ granted
    → files.content ≡ some raw
    → files.unchanged ≡ true
    → files.written ≡ true
    → scan w first_book [] raw ≡ scanned b
    → length raw + length (contact_record b email name) ≤ input_max
    → b.records < rule_max
    → b.next < 2 ^ 64 - 1
    → name ≢ []
    → line_max < 5 + length (trim_line name)
    → (contact_add false files email name ≡ added (contact_record b email name))
      × ((check : Bool) (later : Files)
          → later.opening ≡ opened
          → later.lock ≡ granted
          → later.content ≡ some (raw ++ contact_record b email name)
          → contact_add check later email name ≡ stops 4)
contact_add-long_name files email name raw w b et nt one address opens locks content unchanged
      written reads size few low named long =
    let valid : (not (valid_text email) || not (valid_text name) || any (λ c. c == b',') email)
        ≡ false =
      ground arith in
    let appends =
      contact_add-appends files email name raw w b valid address opens locks content
        (omega (arith, size)) reads
      ∙ append_contact-appends files email name raw b unchanged written size few in
    (
      appends,
      λ check later.
          later_call-long_name files email name raw (contact_record b email name) w b address
            content reads check later appends low named long,
    )
