-- ===== src/Policy/Builtins/Tests.antt =====
-- src/filter/policy.c and classify.c: the theorem on the policy of parsed sources at concrete inputs.
use jaro_mail.Base.{codes, str_eq, strcmp, ◌≡◌, refl, true, none, [], ◌∷◌}
use jaro_mail.Result.{ok, err, ◌>>=◌}
use jaro_mail.Sorter.Insertion.{insertion, insertion_sort, insert}
use jaro_mail.Text.Utf8.{valid_utf8, utf8_loop, decode, rejected}
use jaro_mail.Text.Ascii.{alnum_ascii}
use jaro_mail.Text.Domain.{valid_domain, domain_loop}
use jaro_mail.Policy.Rules.{Policy}
use jaro_mail.Policy.Lex.{lex, lex_loop, read_token, bare, separated}
use jaro_mail.Policy.Parse.{
  Source, filters, parse_line, tokens_line, rule_line, selector_kind, typed_predicate, append,
  new_entry, valid_destination, destination_loop,
}
use jaro_mail.Policy.Compare.{
  compare_sources, compare_key, compare_records, compare_keys, compare_order,
}
use jaro_mail.Policy.Resolve.{
  Library, compiled, number, number_loop, same_record, discard_duplicates, discard_loop, compact,
  finish, kept, resolve, change,
}
use jaro_mail.Policy.Build.{
  policy_parse, check_sources, sources_loop, source_loop, line_step, split_line, strip_return,
  append_builtins,
}
use jaro_mail.Policy.Builtins.Parsed.{classify-policy_parse}
use jaro_mail.Classify.Build.{refs}
use jaro_mail.Classify.Message.Defs.{Message, Engine, no_match, validate, classify}
use jaro_mail.Classify.Message.Spec.{first_match}
use jaro_mail.Classify.Message.Legacy.{IsReliable}

abbrev library : Library
library = record { sorter = insertion; uselocale = true; regcomp = λ pattern. compiled }

-- One rule and a comment.
abbrev filter_file : Source
filter_file = record {
  kind = filters;
  identity = codes "Filters";
  path = codes "Filters.txt";
  content = codes "from-domain dyne.org move lists\n# end\n";
}

abbrev mail : Message
mail = record {
  addresses = record { field = 1; value = codes "jaromil@Dyne.org" } ∷ [];
  senders = [];
  spam_flags = codes " yes" ∷ [];
}

abbrev quiet : Engine
quiet = record { regexec = λ pattern text. no_match; uselocale = true }

quiet-IsReliable : IsReliable quiet
quiet-IsReliable = record { answers = λ p t h. cc h; locale = refl }

abbrev policy : Policy
policy = elim (policy_parse library (filter_file ∷ [])) [
  | ok p ↦ p
  | err why ↦ record {
    entries = [];
    index = [];
    legacy = [];
    bounce = none;
    spam = none;
    fallback = none;
  }
]

parsed : policy_parse library (filter_file ∷ []) ≡ ok policy
unfolding policy_parse check_sources sources_loop source_loop line_step split_line strip_return
    append_builtins insertion insertion_sort insert valid_utf8 utf8_loop decode rejected
    valid_domain lex lex_loop read_token bare separated parse_line tokens_line rule_line
    selector_kind typed_predicate append new_entry valid_destination destination_loop
    compare_sources compare_key compare_records compare_keys compare_order number number_loop
    same_record discard_duplicates discard_loop compact finish kept resolve change str_eq
    domain_loop alnum_ascii strcmp
parsed = refl

classify-policy_parse_example :
    classify quiet policy mail
    ≡ (validate mail >>= λ total. ok (first_match quiet mail (refs policy.entries)))
classify-policy_parse_example =
    classify-policy_parse library (filter_file ∷ []) policy quiet mail parsed quiet-IsReliable
