-- ===== src/Import/Tests.antt =====
-- src/filter/import.c: the theorem on a string of a script.
use jaro_mail.Base.{
  length, Bytes, codes, in_set, ◌≤◌, ◌<◌, ◌≡◌, refl, true, some, List, [], ◌∷◌, ◌++◌, arith,
}
use jaro_mail.Result.{Result, ok}
use jaro_mail.Product.Buffer.{
  Buffer, empty, bytes_fits, capacity_loop, new_capacity, bytes_add, bytes_add_limit,
}
use jaro_mail.Product.Quote.{quote_sieve, sieve_loop}
use jaro_mail.Import.{
  skip, string_loop, string_byte, keep_byte, end_value, mark, same_token, strings_loop, strings,
  string, Parser, next, quote_loop, quote,
}
use jaro_mail.Import.Strings.{strings-total}
use jaro_mail.Policy.Resolve.{rule_max}
use jaro_mail.Import.Quoted.{lex-quote}
use jaro_mail.Policy.Lex.{Place, separated, read_token, lex}
use jaro_mail.Import.ReadBack.{IsPrintable, next-quote_sieve}

abbrev name : Bytes
name = codes "a \"b\" \\c"

abbrev written : Buffer
written = record { content = codes "\"a \\\"b\\\" \\\\c\""; capacity = 256 }

quoted : quote_sieve empty name ≡ some written
unfolding quote_sieve sieve_loop bytes_add bytes_add_limit bytes_fits new_capacity capacity_loop
quoted = refl

name-IsPrintable : IsPrintable name
name-IsPrintable = ground arith

next-quote_sieve_example :
    (w : Bytes) × (written.content ≡ empty.content ++ w)
    × ((p : Parser) (rest : Bytes)
        → p.rest ≡ w ++ rest
        → next p
          ≡ ok (record {
            rest = rest;
            line = p.line;
            token_line = p.line;
            token = string;
            value = name;
          }))
next-quote_sieve_example = next-quote_sieve empty name written quoted name-IsPrintable (omega arith)

quote-name : quote empty name ≡ some written
unfolding quote quote_loop bytes_add bytes_add_limit bytes_fits new_capacity capacity_loop
quote-name = refl

lex-quote_example :
    (w : Bytes) × (written.content ≡ empty.content ++ b'"' ∷ w)
    × ((p : Place) (rest : Bytes)
        → separated rest ≡ true
        → read_token p b'"' (w ++ rest) ≡ ok (name, rest))
    × ((p : Place) → lex p (b'"' ∷ w) ≡ ok (name ∷ []))
lex-quote_example = lex-quote empty name written quote-name

abbrev list_start : Parser
list_start = record {
  rest = codes "\"a\", \"b\"];";
  line = 1;
  token_line = 1;
  token = mark b'[';
  value = [];
}

strings-total_example :
    (r : Result (List Bytes × Parser)) × (strings list_start ≡ some r)
    × ((ss : List Bytes) (q : Parser) → r ≡ ok (ss, q) → (0 < length ss) × (length ss ≤ rule_max))
strings-total_example = strings-total list_start

strings-pair :
    strings list_start
    ≡ some (
        ok (
          codes "a" ∷ codes "b" ∷ [],
          record { rest = []; line = 1; token_line = 1; token = mark b';'; value = [] },
        ))
unfolding strings strings_loop same_token jaro_mail.Import.take next skip string_loop string_byte
    keep_byte end_value bytes_add_limit bytes_fits bytes_add new_capacity capacity_loop in_set
strings-pair = refl
