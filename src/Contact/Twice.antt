-- ===== src/Contact/Twice.antt =====
-- src/filter/contact.c, jf_contact_add: two calls one after the other.
use jaro_mail.Base.{
  ltb, ◌==◌, Bool-cases, length, length-append, any, Bytes, str_eq, str_eq_iff, ℕ, ◌+◌, ◌-◌, ◌^◌,
  ◌≤◌, ◌<◌, ◌≡◌, refl, sym, ap, ◌∙◌, ◌≢◌, ◌⊎◌, inl, inr, Bool, true, false, not, ◌||◌, some, [],
  ◌++◌, arith,
}
use jaro_mail.Contact.{
  valid_text, canonical, Book, first_book, Scanned, invalid, found, scanned, scan, trim_line,
  contact_record, opened, granted, Files, Outcome, stops, append_contact, contact_add,
}
use jaro_mail.Contact.Record.{IsText, valid_text-IsText}
use jaro_mail.Contact.Added.{scan-IsBook, body, scan-body, scan-long_body}
use jaro_mail.Contact.Again.{shown, scan-record}
use jaro_mail.Product.Buffer.{bytes_fits}
use jaro_mail.Policy.Build.{input_max, line_max}
use jaro_mail.Policy.Resolve.{rule_max}

abbrev pub added : Bytes → Outcome
added new = record { status = 0; appended = some new }

shown-fits :
    (email name : Bytes)
    → IsText email
    → IsText name
    → 5 + length email ≤ line_max
    → 5 + length name ≤ line_max
    → IsText (shown email name) × (5 + length (shown email name) ≤ line_max)
shown-fits email name e n short fits = elim (Bool-cases (str_eq name [])) [
  | inl t ↦ rw t (e, short)
  | inr f ↦ rw f (n, fits)
]

shown-name : (email name : Bytes) → name ≢ [] → shown email name ≡ name
shown-name email name h = elim (Bool-cases (str_eq name [])) [
  | inl t ↦ absurd (h ((str_eq_iff name []).0 t))
  | inr f ↦ rw f refl
]

-- What a call that appends has passed.
record Passed (files : Files) (email name raw new : Bytes) (w : Bytes) (b : Book) : Type 0 where
  email_text : valid_text email ≡ true
  name_text : valid_text name ≡ true
  one_mailbox : any (λ c. c == b',') email ≡ false
  opening : files.opening ≡ opened
  lock : files.lock ≡ granted
  appends : append_contact files raw b email name ≡ added new

module _ (files : Files) (email name raw new w : Bytes) (b : Book)
    (address : canonical email ≡ some w) (content : files.content ≡ some raw)
    (reads : scan w first_book [] raw ≡ scanned b) where
  contact_add-Passed :
      contact_add false files email name ≡ added new → Passed files email name raw new w b
  unfolding contact_add
  contact_add-Passed h =
      elim (Bool-cases
        (not (valid_text email) || not (valid_text name) || any (λ c. c == b',') email)) [
          | inl t ↦ absurd (ground (arith, rw (t, contact_add) at h))
          | inr t ↦
              let run = rw (t, address, contact_add) at h in
              record {
                email_text = ground arith;
                name_text = ground arith;
                one_mailbox = ground arith;
                opening = ground (arith, run);
                lock = ground (arith, run);
                appends = ground (arith, run, content, reads);
              }
        ]

  append_contact-parts :
      append_contact files raw b email name ≡ added new
      → (contact_record b email name ≡ new)
        × (b.records ≢ rule_max)
        × (length (raw ++ new) ≤ input_max)
  unfolding append_contact bytes_fits
  append_contact-parts h =
      let size = length-append raw new in
      let same : contact_record b email name ≡ new = ground (arith, h) in
      let more : b.records ≢ rule_max = ground (arith, h) in
      let room : length raw + length (contact_record b email name) ≤ input_max =
        ground (arith, h) in
      (same, more, omega (arith, room, size, ap length same))

  -- What a later call on the longer book comes to.
  later_call :
      (check : Bool) (later : Files) (r : Scanned) (n : ℕ)
      → contact_add false files email name ≡ added new
      → later.opening ≡ opened
      → later.lock ≡ granted
      → later.content ≡ some (raw ++ new)
      → scan w first_book [] (raw ++ contact_record b email name) ≡ r
      → (r ≡ found) × (n ≡ 1) ⊎ (r ≡ invalid) × (n ≡ 4)
      → contact_add check later email name ≡ stops n
  unfolding contact_add
  later_call check later r n h open_later locked holds run ends =
      let passed = contact_add-Passed h in
      let (same, more, room) = append_contact-parts passed.appends in
      let reached : scan w first_book [] (raw ++ new) ≡ r =
        ap (λ t. scan w first_book [] (raw ++ t)) (sym same) ∙ run in
      let valid : (not (valid_text email) || not (valid_text name) || any (λ c. c == b',') email)
          ≡ false =
        let e = passed.email_text in
        let n = passed.name_text in let o = passed.one_mailbox in ground arith in
      let size : ltb input_max (length (raw ++ new)) ≡ false = ground arith in
      rw (valid, address, contact_add)
        (ground (arith, open_later, locked, holds, size, reached, ends))

  room_left : contact_add false files email name ≡ added new → b.records < rule_max
  room_left h =
      let (same, more, room) = append_contact-parts (contact_add-Passed h).appends in
      let kept = scan-IsBook w first_book b [] raw reads (λ e. refl, omega arith) in
      let k = kept.1 in omega (arith, more)

  -- A contact that jf_contact_add has appended, with status 0, is found by every later call with the
  -- same address and name on the book that it left: the status is 1 and nothing is appended, where
  -- the two lines of the record are not longer than a line of a book may be and its label is below
  -- 2 ^ 64 - 1.
  pub contact_add-again :
      (check : Bool) (later : Files)
      → contact_add false files email name ≡ added new
      → b.next < 2 ^ 64 - 1
      → 6 + length email ≤ line_max
      → 5 + length name ≤ line_max
      → later.opening ≡ opened
      → later.lock ≡ granted
      → later.content ≡ some (raw ++ new)
      → contact_add check later email name ≡ stops 1
  contact_add-again check later h low short fits open_later locked holds =
      let passed = contact_add-Passed h in
      let text = valid_text-IsText email passed.email_text in
      let (named, name_fits) =
        shown-fits email name text (valid_text-IsText name passed.name_text) (omega (arith, short))
          fits in
      let room = room_left h in
      let run = scan-record w b raw email name found reads (λ b' format records next.
        scan-body w b' email (shown email name) format (omega (arith, records, room))
          (omega (arith, next, low)) address text passed.one_mailbox short named name_fits) in
      later_call check later found 1 h open_later locked holds run (inl (refl, refl))

  -- What follows a call that has appended a name that is too long for its line in the book.
  pub later_call-long_name :
      (check : Bool) (later : Files)
      → contact_add false files email name ≡ added new
      → b.next < 2 ^ 64 - 1
      → name ≢ []
      → line_max < 5 + length (trim_line name)
      → later.opening ≡ opened
      → later.lock ≡ granted
      → later.content ≡ some (raw ++ new)
      → contact_add check later email name ≡ stops 4
  later_call-long_name check later h low named long open_later locked holds =
      let passed = contact_add-Passed h in
      let text = valid_text-IsText name passed.name_text in
      let room = room_left h in
      let this = shown-name email name named in
      let run = scan-record w b raw email name invalid reads (λ b' format records next.
        ap (λ t. scan w b' [] (body b' email t)) this
        ∙ scan-long_body w b' email name format (omega (arith, records, room))
            (omega (arith, next, low)) text long) in
      later_call check later invalid 4 h open_later locked holds run (inr (refl, refl))
