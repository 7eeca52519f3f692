-- ===== src/Product/Tests.antt =====
-- src/filter/emit.c and src/filter/product_util.c: the theorems at concrete inputs.
use jaro_mail.Base.{
  length, Bytes, codes, in_set, ◌+◌, ◌<◌, ◌≡◌, refl, ◌⊎◌, true, false, none, some, ◌∷◌, ◌++◌, arith,
}
use jaro_mail.Product.Buffer.{
  Buffer, empty, bytes_fits, capacity_loop, new_capacity, bytes_add_limit, bytes_add,
}
use jaro_mail.Product.Buffer.Growth.{IsBounded, bytes_add_limit-cases}
use jaro_mail.Product.Quote.{zsh_loop, quote_zsh, sieve_loop, quote_sieve}
use jaro_mail.Product.Quote.SieveString.{read_string, read_string-quote_sieve}
use jaro_mail.Product.Quote.ReadBack.{outside, is_apart, read_zsh, read_zsh-quote_zsh}

abbrev written : Buffer
written = record { content = codes "'it'\\''s'"; capacity = 256 }

quoted : quote_zsh empty (codes "it's") ≡ some written
unfolding quote_zsh zsh_loop bytes_add bytes_add_limit bytes_fits new_capacity capacity_loop
quoted = refl

read_zsh-quote_zsh_example :
    (w : Bytes) × (written.content ≡ empty.content ++ w)
    × ((rest : Bytes)
        → is_apart rest ≡ true
        → read_zsh outside (w ++ rest) ≡ some (codes "it's", rest))
read_zsh-quote_zsh_example = read_zsh-quote_zsh empty (codes "it's") written quoted

-- Behind the closing quote the word goes on.
read_zsh-goes_on : read_zsh outside (codes "'foo'x y") ≡ some (codes "foox", codes " y")
unfolding read_zsh in_set
read_zsh-goes_on = refl

read_zsh-expansion : read_zsh outside (codes "'foo'$x") ≡ none
unfolding read_zsh in_set
read_zsh-expansion = refl

bytes_add_limit-cases_example :
    (bytes_add_limit empty (codes "abc") 2 ≡ none) × (2 < length empty.content + 3)
    ⊎ (b' : Buffer) × (bytes_add_limit empty (codes "abc") 2 ≡ some b')
      × (b'.content ≡ empty.content ++ codes "abc")
      × IsBounded 2 b'
bytes_add_limit-cases_example =
    bytes_add_limit-cases empty (codes "abc") 2
      (record { content_fits = omega arith; capacity_fits = omega arith })

abbrev mailbox_written : Buffer
mailbox_written = record { content = codes "\"a\\\"b\""; capacity = 256 }

mailbox_quoted : quote_sieve empty (codes "a\"b") ≡ some mailbox_written
unfolding quote_sieve sieve_loop bytes_add bytes_add_limit bytes_fits new_capacity capacity_loop
mailbox_quoted = refl

read_string-quote_sieve_example :
    (w : Bytes) × (mailbox_written.content ≡ empty.content ++ b'"' ∷ w)
    × ((rest : Bytes) → read_string false (w ++ rest) ≡ some (codes "a\"b", rest))
read_string-quote_sieve_example =
    read_string-quote_sieve empty (codes "a\"b") mailbox_written mailbox_quoted
