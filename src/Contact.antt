-- ===== src/Contact.antt =====
-- src/filter/contact.c: the address book as jf_contact_add reads it, and the record that it appends.
pub mod Scan
pub mod Words
pub mod Record
pub mod Added
pub mod Again
pub mod Twice
pub mod LongName
mod Tests
use jaro_mail.Base.{
  ltb, leb, ◌==◌, if◌then◌else◌, length, drop, all, any, Bytes, codes, str_eq, ℕ, ◌+◌, ◌-◌, ◌^◌,
  Bool, true, false, not, ◌&&◌, ◌||◌, Option, none, some, [], ◌∷◌, ◌++◌,
}
use jaro_mail.Text.Ascii.{control, fold}
use jaro_mail.Text.Blank.{is_blank, trim_start, trim_end}
use jaro_mail.Text.Utf8.{valid_utf8}
use jaro_mail.Text.Decimal.{decimal}
use jaro_mail.Text.Mailbox.{normalize_mailbox}
use jaro_mail.Product.Buffer.{bytes_fits}
use jaro_mail.Policy.Build.{input_max, line_max}
use jaro_mail.Policy.Resolve.{rule_max}
use jaro_mail.Cache.Fields

-- `valid_text`.
unfoldable pub valid_text : Bytes → Bool
valid_text s = leb (length s) line_max && valid_utf8 s && all (λ c. not (control c)) s

-- `canonical`: what it leaves in the buffer, or `none`.
unfoldable pub canonical : Bytes → Option Bytes
canonical s =
    if not (valid_utf8 s)
    then none
    else elim (normalize_mailbox s) [ none ↦ none | some n ↦ some (fold n) ]

module _ (wanted : Bytes) where
  -- One mailbox of the list, from `start` to `end`.
  unfoldable pub same_piece : Bytes → Bool
  same_piece word = elim (canonical (trim_end (trim_start word))) [
    | none ↦ false
    | some found ↦ str_eq found wanted
  ]

  -- The loop of `same_email`, with the bytes from `start` on.
  unfoldable pub same_loop : Bool → Bool → Bytes → Bytes → Bool
  same_loop quote escape word [] = same_piece word
  same_loop quote escape word (c ∷ s) =
      let plain = same_loop quote false (word ++ c ∷ []) s in
      let escaped = same_loop quote true (word ++ c ∷ []) s in
      let turned = same_loop (not quote) false (word ++ c ∷ []) s in
      let fresh = same_loop quote false [] s in
      if escape
      then plain
      else if c == b'\\' && quote
      then escaped
      else if c == b'"'
      then turned
      else if c == b',' && not quote
      then same_piece word || fresh
      else plain

  unfoldable pub same_email : Bytes → Bool
  same_email s = same_loop false false [] s

-- What the loop over the lines keeps.
pub record Book : Type 0 where
  pub format : Bool
  pub section : Bool
  pub records : ℕ
  pub next : ℕ

abbrev pub first_book : Book
first_book = record { format = false; section = false; records = 0; next = 0 }

-- What a line, or the loop, comes to: `goto invalid`, the status 1, or the next round.
pub data Scanned : Type 0 where
  invalid found : Scanned
  scanned : Book → Scanned

abbrev pub and_then : Scanned → (Book → Scanned) → Scanned
and_then invalid next = invalid
and_then found next = found
and_then (scanned b) next = next b

-- The loop that lowers `end`.
unfoldable pub trim_line : Bytes → Bytes
trim_line [] = []
trim_line (c ∷ s) = elim (trim_line s) [
  | [] ↦ if is_blank c || c == b'\r' then [] else c ∷ []
  | x ∷ xs ↦ c ∷ x ∷ xs
]

-- What stands before a last `]`.
unfoldable pub before_bracket : Bytes → Option Bytes
before_bracket [] = none
before_bracket (c ∷ []) = if c == b']' then some [] else none
before_bracket (c ∷ d ∷ s) = elim (before_bracket (d ∷ s)) [ none ↦ none | some r ↦ some (c ∷ r) ]

-- A line that begins with `[`.
unfoldable pub section_line : Book → Bytes → Scanned
section_line b line =
    if str_eq line (codes "[format]")
    then if b.format || not (b.records == 0)
      then invalid
      else scanned (record b { format = true; section = false })
    else if not b.format || ltb (length line) 3
    then invalid
    else elim (before_bracket (drop 1 line)) [
      | none ↦ invalid
      | some digits ↦ elim (Fields.decimal_loop 0 digits) [
        | none ↦ invalid
        | some id ↦
            if id == 2 ^ 64 - 1 || ltb rule_max (b.records + 1)
            then invalid
            else scanned (record b {
              records = b.records + 1;
              next = if leb b.next id then id + 1 else b.next;
              section = true;
            })
      ]
    ]

-- The key and the value around the first `=`.
unfoldable pub split_equal : Bytes → Option (Bytes × Bytes)
split_equal [] = none
split_equal (c ∷ s) =
    let later : Option (Bytes × Bytes) = elim (split_equal s) [
      | none ↦ none
      | some r ↦ some (c ∷ r.0, r.1)
    ] in
    if c == b'=' then some ([], s) else later

unfoldable pub key_line : Bytes → Book → Bytes → Scanned
key_line wanted b line = elim (split_equal line) [
  | none ↦ invalid
  | some r ↦
      if not b.format
      then invalid
      else if b.section && str_eq (trim_end r.0) (codes "email") && same_email wanted r.1
      then found
      else scanned b
]

-- One round, for a line that was trimmed.
unfoldable pub trimmed_line : Bytes → Book → Bytes → Scanned
trimmed_line wanted b [] = scanned b
trimmed_line wanted b (c ∷ s) =
    if ltb line_max (length (c ∷ s)) || any (λ d. d == 0) (c ∷ s)
    then invalid
    else if c == b'#'
    then scanned b
    else if c == b'['
    then section_line b (c ∷ s)
    else key_line wanted b (c ∷ s)

unfoldable pub book_line : Bytes → Book → Bytes → Scanned
book_line wanted b line = trimmed_line wanted b (trim_line (trim_start line))

-- `while (pos<raw.size)`, with the bytes of the line so far; no bytes are a line that says nothing.
unfoldable pub scan : Bytes → Book → Bytes → Bytes → Scanned
scan wanted b line [] = book_line wanted b line
scan wanted b line (c ∷ s) =
    let next = and_then (book_line wanted b line) (λ b'. scan wanted b' [] s) in
    let same = scan wanted b (line ++ c ∷ []) s in if c == b'\n' then next else same

-- The text that is appended.
unfoldable pub contact_record : Book → Bytes → Bytes → Bytes
contact_record b email name =
    (if b.format then [] else codes "\n[format]\nprogram=abook\nversion=0.6.1\n")
    ++ (codes "\n["
        ++ (decimal b.next
            ++ (codes "]\nname="
                ++ ((if str_eq name [] then email else name)
                    ++ (codes "\nemail=" ++ (email ++ codes "\n"))))))

-- What the system answers: `open`, the lock, the bytes of the book, whether the book is the same file
-- at the end, and whether all of the record was written.
pub data Opened : Type 0 where
  opened absent failed : Opened

pub data Lock : Type 0 where
  granted busy refused : Lock

pub record Files : Type 0 where
  pub opening : Opened
  pub lock : Lock
  pub content : Option Bytes
  pub unchanged : Bool
  pub written : Bool

-- The status, and the record that was appended.
pub record Outcome : Type 0 where
  pub status : ℕ
  pub appended : Option Bytes

abbrev pub stops : ℕ → Outcome
stops n = record { status = n; appended = none }

-- Behind the loop.
unfoldable pub append_contact : Files → Bytes → Book → Bytes → Bytes → Outcome
append_contact files raw b email name =
    let new = contact_record b email name in
    if b.records == rule_max || not (bytes_fits (length raw) (length new) input_max)
    then stops 4
    else if not files.unchanged
    then stops 6
    else if not files.written
    then stops 3
    else record { status = 0; appended = some new }

unfoldable pub contact_add : Bool → Files → Bytes → Bytes → Outcome
contact_add check files email name =
    if not (valid_text email) || not (valid_text name) || any (λ c. c == b',') email
    then stops 4
    else elim (canonical email) [
      | none ↦ stops 4
      | some address ↦ elim files.opening [
        | failed ↦ stops 3
        | absent ↦ if check then stops 0 else stops 3
        | opened ↦ elim files.lock [
          | busy ↦ stops 6
          | refused ↦ stops 3
          | granted ↦ elim files.content [
            | none ↦ stops 3
            | some raw ↦
                if ltb input_max (length raw)
                then stops 3
                else elim (scan address first_book [] raw) [
                  | invalid ↦ stops 4
                  | found ↦ stops 1
                  | scanned b ↦ if check then stops 0 else append_contact files raw b email name
                ]
          ]
        ]
      ]
    ]
