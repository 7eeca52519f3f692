-- ===== src/Contact/Record.antt =====
-- src/filter/contact.c: how the lines of an appended record are read.
use jaro_mail.Base.{
  ltb, leb, ◌==◌, length, length-append, All, all, any, All-append, All-map, Bytes, codes, str_eq,
  str_eq_iff, ℕ, ◌+◌, ◌-◌, ◌^◌, ◌≤◌, ◌<◌, ◌≡◌, refl, sym, ap, ◌∙◌, ◌≢◌, Bool, true, false, not,
  ◌||◌, some, [], ◌∷◌, ◌++◌, append-nil, append_assoc, arith,
}
use jaro_mail.Text.Ascii.{control}
use jaro_mail.Text.Blank.{trim_start, trim_end}
use jaro_mail.Policy.Build.{line_max}
use jaro_mail.Policy.Resolve.{rule_max}
use jaro_mail.Cache.Fields
use jaro_mail.Contact.{
  invalid, valid_text, canonical, same_piece, same_loop, same_email, Book, found, scanned,
  trim_line, before_bracket, section_line, split_equal, key_line, trimmed_line, book_line,
}
use jaro_mail.Contact.Scan.{
  OneLine, EndsVisible, EndsVisible-append, trim_line-EndsVisible, trim_end-EndsVisible,
  trim_line-visible, trim_line-length, trim_line-All,
}
use jaro_mail.Contact.Words.{IsDigits, IsBare, canonical-IsBare}

-- A text without control bytes.
abbrev pub IsText : Bytes → Type 0
IsText s = All (λ c. 32 ≤ c) s

pub valid_text-IsText : (s : Bytes) → valid_text s ≡ true → IsText s
unfolding valid_text
valid_text-IsText s h = each s (ground (arith, h))
  where
    each : (s : Bytes) → all (λ c. not (control c)) s ≡ true → IsText s
    each [] h = tt
    each (c ∷ s) h = (ground (arith, h), each s (ground (arith, h)))

pub IsText-OneLine : (s : Bytes) → IsText s → OneLine s
IsText-OneLine s h = All-map (λ c. 32 ≤ c) (λ c. c ≢ b'\n') (λ c k. omega arith) s h

no_nul : (s : Bytes) → IsText s → any (λ d. d == 0) s ≡ false
no_nul [] h = refl
no_nul (c ∷ s) h = let r = no_nul s h.1 in let k = h.0 in ground arith

-- A trimmed line of a fit length that begins a key.
key_start :
    (w : Bytes) (b : Book) (c : ℕ) (s : Bytes)
    → IsText (c ∷ s)
    → length (c ∷ s) ≤ line_max
    → c ≢ b'#'
    → c ≢ b'['
    → trimmed_line w b (c ∷ s) ≡ key_line w b (c ∷ s)
unfolding trimmed_line
key_start w b c s text short h k = let r = no_nul (c ∷ s) text in ground arith

IsBare-EndsVisible : (s : Bytes) → IsBare s → EndsVisible s
IsBare-EndsVisible [] h = absurd h
IsBare-EndsVisible (c ∷ s) h = h.1

IsBare-trim : (s : Bytes) → IsBare s → trim_end (trim_start s) ≡ s
unfolding trim_start
IsBare-trim [] h = absurd h
IsBare-trim (c ∷ s) h =
    let visible = h.0 in
    let start : trim_start (c ∷ s) ≡ c ∷ s = ground arith in
    ap trim_end start ∙ trim_end-EndsVisible (c ∷ s) h.1

before_bracket-append : (s : Bytes) → before_bracket (s ++ b']' ∷ []) ≡ some s
unfolding before_bracket
before_bracket-append [] = refl
before_bracket-append (c ∷ []) = refl
before_bracket-append (c ∷ d ∷ s) = rw (before_bracket-append (d ∷ s)) refl

label_start :
    (w : Bytes) (b : Book) (s : Bytes)
    → IsText (b'[' ∷ s)
    → length (b'[' ∷ s) ≤ line_max
    → trimmed_line w b (b'[' ∷ s) ≡ section_line b (b'[' ∷ s)
unfolding trimmed_line
label_start w b s text short = let r = no_nul (b'[' ∷ s) text in ground arith

label_section :
    (b : Book) (d : ℕ) (ds : Bytes) (id : ℕ)
    → d ≤ b'9'
    → Fields.decimal_loop 0 (d ∷ ds) ≡ some id
    → b.format ≡ true
    → id ≡ b.next
    → id < 2 ^ 64 - 1
    → b.records < rule_max
    → section_line b (b'[' ∷ d ∷ (ds ++ b']' ∷ []))
      ≡ scanned (record b { records = b.records + 1; next = id + 1; section = true })
unfolding section_line str_eq
label_section b d ds id digit reads format same low room =
    let inner : before_bracket (d ∷ (ds ++ b']' ∷ [])) ≡ some (d ∷ ds) =
      before_bracket-append (d ∷ ds) in
    let size = length-append ds (b']' ∷ []) in
    let other : (d == b'f') ≡ false = ground arith in
    let guard : (not b.format || ltb (length (b'[' ∷ d ∷ (ds ++ b']' ∷ []))) 3) ≡ false =
      ground arith in
    let bad : (id == 2 ^ 64 - 1 || ltb rule_max (b.records + 1)) ≡ false = ground arith in
    let above : leb b.next id ≡ true = ground arith in
    rw (other, guard, inner, reads, bad, above, section_line) refl

-- The label of a section.
pub label_line :
    (w : Bytes) (b : Book) (digits : Bytes) (id : ℕ)
    → IsDigits digits
    → digits ≢ []
    → length digits ≤ 21
    → Fields.decimal_loop 0 digits ≡ some id
    → b.format ≡ true
    → id ≡ b.next
    → id < 2 ^ 64 - 1
    → b.records < rule_max
    → book_line w b (b'[' ∷ (digits ++ b']' ∷ []))
      ≡ scanned (record b { records = b.records + 1; next = id + 1; section = true })
unfolding book_line trim_start
label_line w b [] id ds more short reads format same low room = absurd (more refl)
label_line w b (d ∷ ds) id digits more short reads format same low room =
    let whole : Bytes = d ∷ (ds ++ b']' ∷ []) in
    let kept =
      trim_line-EndsVisible (b'[' ∷ whole)
        (EndsVisible-append (b'[' ∷ d ∷ ds) (b']' ∷ []) (omega arith)) in
    let text : IsText (b'[' ∷ whole) = (
      omega arith,
      All-append (λ c. 32 ≤ c) (d ∷ ds) (b']' ∷ [])
          (All-map (λ c. (b'0' ≤ c) × (c ≤ b'9')) (λ c. 32 ≤ c) (λ c h. let k = h.0 in omega arith)
            (d ∷ ds) digits)
          (omega arith, tt),
    ) in
    ap (trimmed_line w b) kept
    ∙ label_start w b whole text (omega (arith, length-append ds (b']' ∷ [])))
    ∙ label_section b d ds id digits.0.1 reads format same low room

key_name :
    (w : Bytes) (b : Book) (s : Bytes)
    → b.format ≡ true
    → key_line w b (codes "name=" ++ s) ≡ scanned b
unfolding key_line split_equal str_eq trim_end
key_name w b s format = ground (arith, format)

trim_name : (s : Bytes) → trim_line (codes "name=" ++ s) ≡ codes "name=" ++ trim_line s
trim_name s =
    trim_line-visible b'n' _ (omega arith)
    ∙ ap (λ t. b'n' ∷ t)
        (trim_line-visible b'a' _ (omega arith)
          ∙ ap (λ t. b'a' ∷ t)
              (trim_line-visible b'm' _ (omega arith)
                ∙ ap (λ t. b'm' ∷ t)
                    (trim_line-visible b'e' _ (omega arith)
                      ∙ ap (λ t. b'e' ∷ t) (trim_line-visible b'=' s (omega arith)))))

pub name_line :
    (w : Bytes) (b : Book) (name : Bytes)
    → b.format ≡ true
    → IsText name
    → 5 + length name ≤ line_max
    → book_line w b (codes "name=" ++ name) ≡ scanned b
unfolding book_line trim_start
name_line w b name format text short =
    let kept = trim_line-All (λ c. 32 ≤ c) name text in
    ap (trimmed_line w b) (trim_name name)
    ∙ key_start w b b'n' (codes "ame=" ++ trim_line name)
        (omega arith, (omega arith, (omega arith, (omega arith, (omega arith, kept)))))
        (omega (arith, trim_line-length name)) (omega arith) (omega arith)
    ∙ key_name w b (trim_line name) format

pub long_name_line :
    (w : Bytes) (b : Book) (name : Bytes)
    → line_max < 5 + length (trim_line name)
    → book_line w b (codes "name=" ++ name) ≡ invalid
unfolding book_line trimmed_line trim_start
long_name_line w b name long = ap (trimmed_line w b) (trim_name name) ∙ ground (arith, long)

-- Without a comma the list is one mailbox.
same_loop-piece :
    (w : Bytes) (quote escape : Bool) (word s : Bytes)
    → any (λ c. c == b',') s ≡ false
    → same_loop w quote escape word s ≡ same_piece w (word ++ s)
unfolding same_loop
same_loop-piece w quote escape word [] h = ap (same_piece w) (sym (append-nil word))
same_loop-piece w quote escape word (c ∷ s) h =
    let rest : any (λ c. c == b',') s ≡ false = ground (arith, h) in
    let other : (c == b',') ≡ false = ground (arith, h) in
    let plain = same_loop-piece w quote false (word ++ c ∷ []) s rest in
    let escaped = same_loop-piece w quote true (word ++ c ∷ []) s rest in
    let turned = same_loop-piece w (not quote) false (word ++ c ∷ []) s rest in
    let joined = ap (same_piece w) (append_assoc word (c ∷ []) s) in
    ground (arith, other, plain, escaped, turned, joined)

same_email-canonical :
    (w email : Bytes)
    → canonical email ≡ some w
    → any (λ c. c == b',') email ≡ false
    → same_email w email ≡ true
unfolding same_email same_piece
same_email-canonical w email address plain =
    same_loop-piece w false false [] email plain
    ∙ rw (IsBare-trim email (canonical-IsBare email w address), address, same_piece)
        ((str_eq_iff w w).1 refl)

key_email :
    (w : Bytes) (b : Book) (s : Bytes)
    → b.format ≡ true
    → b.section ≡ true
    → same_email w s ≡ true
    → key_line w b (codes "email=" ++ s) ≡ found
unfolding key_line split_equal str_eq trim_end
key_email w b s format section same = ground (arith, format, section, same)

pub email_line :
    (w : Bytes) (b : Book) (email : Bytes)
    → b.format ≡ true
    → b.section ≡ true
    → canonical email ≡ some w
    → IsText email
    → any (λ c. c == b',') email ≡ false
    → 6 + length email ≤ line_max
    → book_line w b (codes "email=" ++ email) ≡ found
unfolding book_line trim_start
email_line w b email format section address text plain short =
    ap (trimmed_line w b) (
      trim_line-EndsVisible (codes "email=" ++ email) (
        EndsVisible-append (codes "email=") email
          (IsBare-EndsVisible email (canonical-IsBare email w address))))
    ∙ key_start w b b'e' (codes "mail=" ++ email)
        (
          omega arith,
          (omega arith, (omega arith, (omega arith, (omega arith, (omega arith, text))))),
        )
        (omega arith) (omega arith) (omega arith)
    ∙ key_email w b email format section (same_email-canonical w email address plain)
