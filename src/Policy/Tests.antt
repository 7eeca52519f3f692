-- ===== src/Policy/Tests.antt =====
-- src/filter/policy.c: the theorems on the reading of a policy at concrete inputs.
use jaro_mail.Base.{
  length, All, Bytes, codes, ◌+◌, ◌≤◌, ◌≡◌, refl, ◌↔◌, Bool, true, false, some, List, [], ◌∷◌,
  arith,
}
use jaro_mail.Result.{ok}
use jaro_mail.Policy.Lex.{Place, bare, separated, read_token, lex_loop, lex}
use jaro_mail.Policy.Lex.RoundTrip.{quote_line, lex-quote_line}
use jaro_mail.Policy.Lex.Bounds.{stored, lex-fits}
use jaro_mail.Policy.Parse.{valid_destination}
use jaro_mail.Policy.Parse.{Source, aliases}
use jaro_mail.Policy.Build.{strip_return, source_loop}
use jaro_mail.Policy.Build.Lines.{IsLine, lines_text, each_line, source_loop-each_line}
use jaro_mail.Policy.Parse.Destination.{IsPath, valid_destination_iff}

abbrev place : Place
place = record { source = some 0; line = 7 }

abbrev tokens : List Bytes
tokens = codes "from" ∷ codes "a \"b\"" ∷ []

lex-quote_line_example : lex place (quote_line tokens) ≡ ok tokens
lex-quote_line_example = lex-quote_line place tokens (ground arith) (omega arith)

lex_line :
    lex place (codes "email Me@dyne.org # mine") ≡ ok (codes "email" ∷ codes "Me@dyne.org" ∷ [])
unfolding lex lex_loop read_token bare separated
lex_line = refl

lex-fits_example :
    (stored (codes "email" ∷ codes "Me@dyne.org" ∷ [])
      ≤ length (codes "email Me@dyne.org # mine") + 1)
    × (length (codes "email" ∷ codes "Me@dyne.org" ∷ []) ≤ 5)
lex-fits_example =
    lex-fits place (codes "email Me@dyne.org # mine") (codes "email" ∷ codes "Me@dyne.org" ∷ [])
      lex_line

valid_destination_iff_example :
    (valid_destination (codes "lists/../x") ≡ true) ↔ IsPath (codes "lists/../x")
valid_destination_iff_example = valid_destination_iff (codes "lists/../x")

abbrev two_lines : List (Bytes × Bool)
two_lines = (codes "me@dyne.org", true) ∷ (codes "# mine", false) ∷ []

abbrev alias_file : Source
alias_file = record {
  kind = aliases;
  identity = codes "Aliases";
  path = codes "Aliases.txt";
  content = lines_text two_lines;
}

two_lines-IsLine : All (λ x. IsLine x.0) two_lines
unfolding strip_return
two_lines-IsLine = ((ground arith, refl), ((ground arith, refl), tt))

source_loop-each_line_example :
    source_loop 20 [] place alias_file (lines_text two_lines)
    ≡ each_line [] place alias_file two_lines
source_loop-each_line_example =
    source_loop-each_line 20 [] place alias_file two_lines two_lines-IsLine (omega arith)
