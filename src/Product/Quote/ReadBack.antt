-- ===== src/Product/Quote/ReadBack.antt =====
-- src/filter/emit.c: a quoted word is read back as what was quoted.
use jaro_mail.Base.{
  ◌==◌, if◌then◌else◌, Bool-cases, within, Bytes, codes, in_set, ℕ, ◌≡◌, refl, ap, ◌∙◌, inl, inr,
  Bool, true, false, ◌||◌, Option, none, some, [], ◌∷◌, ◌++◌, append_assoc, arith,
}
use jaro_mail.Product.Buffer.{Buffer, ◌>>=◌, bytes_add}
use jaro_mail.Product.Buffer.Growth.{bytes_add-content, bind-eq-some}
use jaro_mail.Product.Quote.{zsh_loop, quote_zsh}

pub data Mode : Type 0 where
  outside inside escaped : Mode

-- The bytes that end a word of a shell where they are not quoted: a blank, a newline, and the
-- operators.
abbrev pub ends_word : ℕ → Bool
ends_word c = in_set c (codes " \t\n|&;()<>")

-- The bytes that stand for themselves where they are not quoted.
abbrev plain_byte : ℕ → Bool
plain_byte c =
    within b'a' b'z' c || within b'A' b'Z' c || within b'0' b'9' c || in_set c (codes "_./-:@%+,")

-- The end of a quoted text, in single quotes or behind a backslash, is not the end of the word: what
-- comes next belongs to it, up to a byte that ends a word or the end of the text. In single quotes
-- every byte stands for itself up to the next quote. Outside of them a backslash quotes one byte, or
-- is dropped with a newline. What a shell would expand (`$x`, a text in double quotes, a pattern) is
-- not read: `none`.
unfoldable pub read_zsh : Mode → Bytes → Option (Bytes × Bytes)
read_zsh outside [] = some ([], [])
read_zsh inside [] = none
read_zsh escaped [] = none
read_zsh outside (c ∷ s) =
    let entered = read_zsh inside s in
    let quoted = read_zsh escaped s in
    let more : Option (Bytes × Bytes) = (do r ← read_zsh outside s; some (c ∷ r.0, r.1)) in
    if c == b'\''
    then entered
    else if c == b'\\'
    then quoted
    else if ends_word c
    then some ([], c ∷ s)
    else if plain_byte c
    then more
    else none
read_zsh inside (c ∷ s) =
    let left = read_zsh outside s in
    let more : Option (Bytes × Bytes) = (do r ← read_zsh inside s; some (c ∷ r.0, r.1)) in
    if c == b'\'' then left else more
read_zsh escaped (c ∷ s) =
    let joined = read_zsh outside s in
    let more : Option (Bytes × Bytes) = (do r ← read_zsh outside s; some (c ∷ r.0, r.1)) in
    if c == b'\n' then joined else more

-- The end of the text, or a byte that ends a word.
abbrev pub is_apart : Bytes → Bool
is_apart [] = true
is_apart (c ∷ rest) = ends_word c

-- What is written behind the opening quote.
abbrev zsh_body : Bytes → Bytes
zsh_body [] = codes "'"
zsh_body (c ∷ s) = (if c == b'\'' then codes "'\\''" else c ∷ []) ++ zsh_body s

zsh_loop-content :
    (b : Buffer) (s : Bytes) {b' : Buffer}
    → zsh_loop b s ≡ some b'
    → b'.content ≡ b.content ++ zsh_body s
unfolding zsh_loop
zsh_loop-content b [] h = bytes_add-content b (codes "'") h
zsh_loop-content b (c ∷ s) h =
    let w = if c == b'\'' then codes "'\\''" else c ∷ [] in
    let (mid, first, rest) = bind-eq-some (bytes_add b w) (λ next. zsh_loop next s) h in
    zsh_loop-content mid s rest
    ∙ ap (λ t. t ++ zsh_body s) (bytes_add-content b w first)
    ∙ append_assoc b.content w (zsh_body s)

read_zsh-end : (rest : Bytes) → is_apart rest ≡ true → read_zsh outside rest ≡ some ([], rest)
unfolding read_zsh in_set
read_zsh-end [] h = refl
read_zsh-end (c ∷ rest) h =
    let q : (c == b'\'') ≡ false = ground (arith, h) in
    let r : (c == b'\\') ≡ false = ground (arith, h) in rw (q, r, h, read_zsh) refl

read_zsh-split :
    (s : Bytes)
    → read_zsh inside (b'\'' ∷ b'\\' ∷ b'\'' ∷ b'\'' ∷ s)
      ≡ (read_zsh inside s >>= λ r. some (b'\'' ∷ r.0, r.1))
unfolding read_zsh
read_zsh-split s = refl

read_zsh-inside :
    (c : ℕ) (s : Bytes)
    → (c == b'\'') ≡ false
    → read_zsh inside (c ∷ s) ≡ (read_zsh inside s >>= λ r. some (c ∷ r.0, r.1))
unfolding read_zsh
read_zsh-inside c s h = rw h refl

read_zsh-close : (s : Bytes) → read_zsh inside (b'\'' ∷ s) ≡ read_zsh outside s
unfolding read_zsh
read_zsh-close s = refl

read_zsh-body :
    (s rest : Bytes) → is_apart rest ≡ true → read_zsh inside (zsh_body s ++ rest) ≡ some (s, rest)
read_zsh-body [] rest h = read_zsh-close rest ∙ read_zsh-end rest h
read_zsh-body (a ∷ s) rest h = elim (Bool-cases (a == b'\'')) [
  | inl t ↦
      let is : a ≡ b'\'' = ground arith in
      rw (t, is)
        (read_zsh-split (zsh_body s ++ rest)
          ∙ ap (λ r. r >>= λ q. some (b'\'' ∷ q.0, q.1)) (read_zsh-body s rest h))
  | inr f ↦ rw f (
      read_zsh-inside a (zsh_body s ++ rest) f
      ∙ ap (λ r. r >>= λ q. some (a ∷ q.0, q.1)) (read_zsh-body s rest h))
]

read_zsh-open : (s : Bytes) → read_zsh outside (b'\'' ∷ s) ≡ read_zsh inside s
unfolding read_zsh
read_zsh-open s = refl

-- What quote_zsh writes is one shell word, whatever bytes the string holds: a shell reads it back as
-- the string that was quoted, where the text ends behind it or goes on with a blank, a newline or an
-- operator.
pub read_zsh-quote_zsh :
    (b : Buffer) (s : Bytes) (b' : Buffer)
    → quote_zsh b s ≡ some b'
    → (w : Bytes) × (b'.content ≡ b.content ++ w)
      × ((rest : Bytes) → is_apart rest ≡ true → read_zsh outside (w ++ rest) ≡ some (s, rest))
unfolding quote_zsh
read_zsh-quote_zsh b s b' h =
    let (mid, first, rest) = bind-eq-some (bytes_add b (codes "'")) (λ next. zsh_loop next s) h in
    (
      b'\'' ∷ zsh_body s,
      zsh_loop-content mid s rest
          ∙ ap (λ t. t ++ zsh_body s) (bytes_add-content b (codes "'") first)
          ∙ append_assoc b.content (codes "'") (zsh_body s),
      λ later apart. read_zsh-open _ ∙ read_zsh-body s later apart,
    )
