-- ===== src/Classify/Text.antt =====
-- src/filter/classify.c: validate_text and raw_match.
use jaro_mail.Base.{
  ltb, ◌==◌, if◌then◌else◌, length, all, Bytes, ℕ, ◌+◌, ◌-◌, ◌%◌, ◌^◌, Bool, true, false, not, ◌&&◌,
  ◌||◌, none, [], ◌∷◌,
}
use jaro_mail.Result.{Result, ok, err, Code, message_limit, message_text}
use jaro_mail.Text.Blank.{trim_start, trim_end}
use jaro_mail.Text.Ascii.{fold_byte}

abbrev pub headers_max : ℕ
headers_max = 1048576

abbrev pub text_max : ℕ
text_max = 65536

-- `error(e,code,detail,7)`.
abbrev pub refuse {ℓ} : {A : Type ℓ} → Code → Result A
refuse code = err (record { code = code; status = 7; source = none; line = 0 })

-- `size_t` subtraction.
abbrev pub size_sub : ℕ → ℕ → ℕ
size_sub a b = (a + 2 ^ 64 - b) % 2 ^ 64

-- The loop's test: a control byte other than HTAB, or DEL.
abbrev pub text_byte : ℕ → Bool
text_byte c = not (ltb c 32 && not (c == b'\t')) && not (c == 127)

-- The new total, for a text with a buffer.
unfoldable pub validate_text : Bytes → ℕ → Result ℕ
validate_text text total =
    if ltb text_max (length text) || ltb (size_sub headers_max total) (length text)
    then refuse message_limit
    else if all text_byte text
    then ok (total + length text)
    else refuse message_text

-- The inner loop: the key stands at the head of the text, whatever the case of its letters.
unfoldable pub folded_prefix : Bytes → Bytes → Bool
folded_prefix key [] = elim key [ [] ↦ true | _ ∷ _ ↦ false ]
folded_prefix [] (c ∷ s) = true
folded_prefix (k ∷ key) (c ∷ s) = fold_byte c == fold_byte k && folded_prefix key s

-- `for (i=0;i<=text.size-n;i++)`: the text from offset i on.
unfoldable pub match_from : Bool → Bytes → Bytes → Bool
match_from contains key [] = folded_prefix key []
match_from contains key (c ∷ s) =
    let later = match_from contains key s in
    if ltb (length (c ∷ s)) (length key)
    then false
    else if folded_prefix key (c ∷ s)
    then true
    else if contains
    then later
    else false

-- With `contains` false the text must be the key; surrounding blanks are then ignored.
unfoldable pub raw_match : Bytes → Bytes → Bool → Bool
raw_match text key contains =
    let view = if contains then text else trim_end (trim_start text) in
    if ltb (length view) (length key) || not contains && not (length view == length key)
    then false
    else match_from contains key view
