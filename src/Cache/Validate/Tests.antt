-- ===== src/Cache/Validate/Tests.antt =====
-- src/filter/cache.c: the theorems on a cache at concrete inputs.
use jaro_mail.Base.{Bytes, codes, str_eq, ◌≡◌, refl, ◌≢◌, true, none, some, [], ◌∷◌}
use jaro_mail.Result.{ok, ◌>>=◌}
use jaro_mail.Sorter.Insertion.{insertion}
use jaro_mail.Policy.Rules.{Policy}
use jaro_mail.Policy.Resolve.{Library, compiled}
use jaro_mail.Classify.Build.{refs}
use jaro_mail.Classify.Message.Defs.{Message, Engine, no_match, validate, classify}
use jaro_mail.Classify.Message.Spec.{first_match}
use jaro_mail.Classify.Message.Legacy.{IsReliable}
use jaro_mail.Cache.Dependencies.{read_views}
use jaro_mail.Cache.Restore.{policy_restore, restore_loop, restore_entry, kind_of}
use jaro_mail.Cache.Validate.Accepted.{
  cache_policy-reads, cache_policy-accepts, classify-cache_policy,
}
use jaro_mail.Sha256.{
  hex, update, update_loop, pad_loop, init, flush, transform, rounds, extend, load_words,
  round_step, rotate,
}
use jaro_mail.Product.Buffer.{cache_file_size, bytes_fits, digest, pair_digits, digest_hex}
use jaro_mail.Cache.Fields.{
  read32, compare_views, decimal_loop, field_count, names_loop, no_control, no_nul, nul_allowed,
  read_decimal, read_field, read_fields, read_record, safe_text, split_colon, starts_with, valid_id,
}
use jaro_mail.Cache.Validate.Rule.{kind_step, rule_step}
use jaro_mail.Cache.Validate.Whole.{
  read_header, word_at, complete, record_step, validate_loop, cache_validate, nothing_expected,
  cache_policy, views_loop, rule_views,
}
use jaro_mail.Cache.Validate.{
  config_step, dependency_step, follows, inline_role, meta_step, Catalogue,
}
use jaro_mail.Text.Utf8.{valid_utf8, utf8_loop, decode, rejected}

abbrev no_catalogue : Catalogue
no_catalogue = record { qualification = []; catalogue = [] }

abbrev cache_bytes : Bytes
cache_bytes =
    74 ∷ 70 ∷ 78 ∷ 67 ∷ 65 ∷ 67 ∷ 72 ∷ 69 ∷ 1 ∷ 0 ∷ 0 ∷ 0 ∷ 1 ∷ 0 ∷ 0 ∷ 0 ∷ 134 ∷ 2 ∷ 0 ∷ 0 ∷ 0 ∷ 0
    ∷ 0 ∷ 0 ∷ 146 ∷ 97 ∷ 213 ∷ 203 ∷ 202 ∷ 119 ∷ 84 ∷ 199 ∷ 220 ∷ 149 ∷ 251 ∷ 253 ∷ 135 ∷ 116 ∷ 109
    ∷ 230 ∷ 110 ∷ 113 ∷ 165 ∷ 200 ∷ 217 ∷ 72 ∷ 19 ∷ 63 ∷ 236 ∷ 129 ∷ 214 ∷ 117 ∷ 117 ∷ 243 ∷ 70
    ∷ 177 ∷ 2 ∷ 170 ∷ 163 ∷ 97 ∷ 68 ∷ 202 ∷ 38 ∷ 244 ∷ 23 ∷ 131 ∷ 201 ∷ 139 ∷ 20 ∷ 178 ∷ 111 ∷ 197
    ∷ 62 ∷ 230 ∷ 25 ∷ 57 ∷ 216 ∷ 153 ∷ 191 ∷ 250 ∷ 18 ∷ 222 ∷ 246 ∷ 74 ∷ 241 ∷ 59 ∷ 203 ∷ 164 ∷ 5
    ∷ 0 ∷ 0 ∷ 0 ∷ 77 ∷ 7 ∷ 0 ∷ 0 ∷ 0 ∷ 27 ∷ 0 ∷ 0 ∷ 0 ∷ 106 ∷ 97 ∷ 114 ∷ 111 ∷ 109 ∷ 97 ∷ 105 ∷ 108
    ∷ 45 ∷ 102 ∷ 105 ∷ 108 ∷ 116 ∷ 101 ∷ 114 ∷ 45 ∷ 99 ∷ 111 ∷ 109 ∷ 112 ∷ 105 ∷ 108 ∷ 101 ∷ 114
    ∷ 45 ∷ 118 ∷ 50 ∷ 7 ∷ 0 ∷ 0 ∷ 0 ∷ 99 ∷ 111 ∷ 114 ∷ 101 ∷ 45 ∷ 118 ∷ 49 ∷ 20 ∷ 0 ∷ 0 ∷ 0 ∷ 112
    ∷ 111 ∷ 115 ∷ 105 ∷ 120 ∷ 45 ∷ 101 ∷ 114 ∷ 101 ∷ 45 ∷ 99 ∷ 45 ∷ 105 ∷ 99 ∷ 97 ∷ 115 ∷ 101 ∷ 45
    ∷ 118 ∷ 49 ∷ 24 ∷ 0 ∷ 0 ∷ 0 ∷ 97 ∷ 115 ∷ 99 ∷ 105 ∷ 105 ∷ 45 ∷ 109 ∷ 97 ∷ 105 ∷ 108 ∷ 98 ∷ 111
    ∷ 120 ∷ 45 ∷ 99 ∷ 97 ∷ 115 ∷ 101 ∷ 109 ∷ 97 ∷ 112 ∷ 45 ∷ 118 ∷ 49 ∷ 15 ∷ 0 ∷ 0 ∷ 0 ∷ 105 ∷ 59
    ∷ 97 ∷ 115 ∷ 99 ∷ 105 ∷ 105 ∷ 45 ∷ 99 ∷ 97 ∷ 115 ∷ 101 ∷ 109 ∷ 97 ∷ 112 ∷ 32 ∷ 0 ∷ 0 ∷ 0 ∷ 227
    ∷ 176 ∷ 196 ∷ 66 ∷ 152 ∷ 252 ∷ 28 ∷ 20 ∷ 154 ∷ 251 ∷ 244 ∷ 200 ∷ 153 ∷ 111 ∷ 185 ∷ 36 ∷ 39 ∷ 174
    ∷ 65 ∷ 228 ∷ 100 ∷ 155 ∷ 147 ∷ 76 ∷ 164 ∷ 149 ∷ 153 ∷ 27 ∷ 120 ∷ 82 ∷ 184 ∷ 85 ∷ 32 ∷ 0 ∷ 0 ∷ 0
    ∷ 227 ∷ 176 ∷ 196 ∷ 66 ∷ 152 ∷ 252 ∷ 28 ∷ 20 ∷ 154 ∷ 251 ∷ 244 ∷ 200 ∷ 153 ∷ 111 ∷ 185 ∷ 36 ∷ 39
    ∷ 174 ∷ 65 ∷ 228 ∷ 100 ∷ 155 ∷ 147 ∷ 76 ∷ 164 ∷ 149 ∷ 153 ∷ 27 ∷ 120 ∷ 82 ∷ 184 ∷ 85 ∷ 68 ∷ 5
    ∷ 0 ∷ 0 ∷ 0 ∷ 28 ∷ 0 ∷ 0 ∷ 0 ∷ 99 ∷ 111 ∷ 110 ∷ 102 ∷ 105 ∷ 103 ∷ 46 ∷ 97 ∷ 100 ∷ 100 ∷ 114
    ∷ 101 ∷ 115 ∷ 115 ∷ 45 ∷ 110 ∷ 111 ∷ 114 ∷ 109 ∷ 97 ∷ 108 ∷ 105 ∷ 122 ∷ 97 ∷ 116 ∷ 105 ∷ 111
    ∷ 110 ∷ 0 ∷ 0 ∷ 0 ∷ 0 ∷ 1 ∷ 0 ∷ 0 ∷ 0 ∷ 49 ∷ 32 ∷ 0 ∷ 0 ∷ 0 ∷ 196 ∷ 89 ∷ 109 ∷ 78 ∷ 122 ∷ 35
    ∷ 42 ∷ 196 ∷ 145 ∷ 50 ∷ 254 ∷ 49 ∷ 150 ∷ 80 ∷ 61 ∷ 105 ∷ 18 ∷ 174 ∷ 82 ∷ 215 ∷ 163 ∷ 154 ∷ 127
    ∷ 109 ∷ 99 ∷ 151 ∷ 214 ∷ 232 ∷ 183 ∷ 227 ∷ 54 ∷ 19 ∷ 26 ∷ 0 ∷ 0 ∷ 0 ∷ 109 ∷ 97 ∷ 105 ∷ 108 ∷ 98
    ∷ 111 ∷ 120 ∷ 45 ∷ 109 ∷ 105 ∷ 110 ∷ 105 ∷ 109 ∷ 97 ∷ 108 ∷ 45 ∷ 113 ∷ 117 ∷ 111 ∷ 116 ∷ 105
    ∷ 110 ∷ 103 ∷ 45 ∷ 118 ∷ 50 ∷ 82 ∷ 12 ∷ 0 ∷ 0 ∷ 0 ∷ 1 ∷ 0 ∷ 0 ∷ 0 ∷ 49 ∷ 1 ∷ 0 ∷ 0 ∷ 0 ∷ 50 ∷ 15
    ∷ 0 ∷ 0 ∷ 0 ∷ 115 ∷ 101 ∷ 110 ∷ 100 ∷ 101 ∷ 114 ∷ 45 ∷ 99 ∷ 111 ∷ 110 ∷ 116 ∷ 97 ∷ 105 ∷ 110
    ∷ 115 ∷ 1 ∷ 0 ∷ 0 ∷ 0 ∷ 50 ∷ 14 ∷ 0 ∷ 0 ∷ 0 ∷ 98 ∷ 117 ∷ 105 ∷ 108 ∷ 116 ∷ 105 ∷ 110 ∷ 58 ∷ 98
    ∷ 111 ∷ 117 ∷ 110 ∷ 99 ∷ 101 ∷ 14 ∷ 0 ∷ 0 ∷ 0 ∷ 109 ∷ 97 ∷ 105 ∷ 108 ∷ 109 ∷ 97 ∷ 110 ∷ 45 ∷ 98
    ∷ 111 ∷ 117 ∷ 110 ∷ 99 ∷ 101 ∷ 10 ∷ 0 ∷ 0 ∷ 0 ∷ 122 ∷ 122 ∷ 46 ∷ 98 ∷ 111 ∷ 117 ∷ 110 ∷ 99 ∷ 101
    ∷ 115 ∷ 10 ∷ 0 ∷ 0 ∷ 0 ∷ 122 ∷ 122 ∷ 46 ∷ 98 ∷ 111 ∷ 117 ∷ 110 ∷ 99 ∷ 101 ∷ 115 ∷ 10 ∷ 0 ∷ 0 ∷ 0
    ∷ 122 ∷ 122 ∷ 46 ∷ 98 ∷ 111 ∷ 117 ∷ 110 ∷ 99 ∷ 101 ∷ 115 ∷ 0 ∷ 0 ∷ 0 ∷ 0 ∷ 1 ∷ 0 ∷ 0 ∷ 0 ∷ 48
    ∷ 4 ∷ 0 ∷ 0 ∷ 0 ∷ 109 ∷ 111 ∷ 118 ∷ 101 ∷ 82 ∷ 12 ∷ 0 ∷ 0 ∷ 0 ∷ 1 ∷ 0 ∷ 0 ∷ 0 ∷ 50 ∷ 1 ∷ 0 ∷ 0
    ∷ 0 ∷ 54 ∷ 7 ∷ 0 ∷ 0 ∷ 0 ∷ 115 ∷ 112 ∷ 97 ∷ 109 ∷ 45 ∷ 105 ∷ 115 ∷ 2 ∷ 0 ∷ 0 ∷ 0 ∷ 49 ∷ 54 ∷ 12
    ∷ 0 ∷ 0 ∷ 0 ∷ 98 ∷ 117 ∷ 105 ∷ 108 ∷ 116 ∷ 105 ∷ 110 ∷ 58 ∷ 115 ∷ 112 ∷ 97 ∷ 109 ∷ 3 ∷ 0 ∷ 0 ∷ 0
    ∷ 89 ∷ 69 ∷ 83 ∷ 4 ∷ 0 ∷ 0 ∷ 0 ∷ 115 ∷ 112 ∷ 97 ∷ 109 ∷ 7 ∷ 0 ∷ 0 ∷ 0 ∷ 122 ∷ 122 ∷ 46 ∷ 115
    ∷ 112 ∷ 97 ∷ 109 ∷ 4 ∷ 0 ∷ 0 ∷ 0 ∷ 83 ∷ 112 ∷ 97 ∷ 109 ∷ 0 ∷ 0 ∷ 0 ∷ 0 ∷ 1 ∷ 0 ∷ 0 ∷ 0 ∷ 48 ∷ 4
    ∷ 0 ∷ 0 ∷ 0 ∷ 109 ∷ 111 ∷ 118 ∷ 101 ∷ 82 ∷ 12 ∷ 0 ∷ 0 ∷ 0 ∷ 1 ∷ 0 ∷ 0 ∷ 0 ∷ 51 ∷ 1 ∷ 0 ∷ 0 ∷ 0
    ∷ 56 ∷ 6 ∷ 0 ∷ 0 ∷ 0 ∷ 97 ∷ 108 ∷ 119 ∷ 97 ∷ 121 ∷ 115 ∷ 1 ∷ 0 ∷ 0 ∷ 0 ∷ 48 ∷ 16 ∷ 0 ∷ 0 ∷ 0
    ∷ 98 ∷ 117 ∷ 105 ∷ 108 ∷ 116 ∷ 105 ∷ 110 ∷ 58 ∷ 117 ∷ 110 ∷ 115 ∷ 111 ∷ 114 ∷ 116 ∷ 101 ∷ 100
    ∷ 0 ∷ 0 ∷ 0 ∷ 0 ∷ 8 ∷ 0 ∷ 0 ∷ 0 ∷ 117 ∷ 110 ∷ 115 ∷ 111 ∷ 114 ∷ 116 ∷ 101 ∷ 100 ∷ 8 ∷ 0 ∷ 0 ∷ 0
    ∷ 117 ∷ 110 ∷ 115 ∷ 111 ∷ 114 ∷ 116 ∷ 101 ∷ 100 ∷ 8 ∷ 0 ∷ 0 ∷ 0 ∷ 117 ∷ 110 ∷ 115 ∷ 111 ∷ 114
    ∷ 116 ∷ 101 ∷ 100 ∷ 0 ∷ 0 ∷ 0 ∷ 0 ∷ 1 ∷ 0 ∷ 0 ∷ 0 ∷ 48 ∷ 4 ∷ 0 ∷ 0 ∷ 0 ∷ 109 ∷ 111 ∷ 118 ∷ 101
    ∷ []

accepted : cache_validate no_catalogue nothing_expected cache_bytes ≡ ok tt
unfolding str_eq hex update update_loop pad_loop init flush transform rounds extend load_words
    round_step rotate cache_file_size bytes_fits digest pair_digits digest_hex read32 compare_views
    decimal_loop field_count names_loop no_control no_nul nul_allowed read_decimal read_field
    read_fields read_record safe_text split_colon starts_with valid_id kind_step rule_step
    read_header word_at complete record_step validate_loop cache_validate config_step
    dependency_step follows inline_role meta_step valid_utf8 utf8_loop decode rejected
accepted = refl

abbrev library : Library
library = record { sorter = insertion; uselocale = true; regcomp = λ pattern. compiled }

abbrev policy : Policy
policy = elim (cache_policy no_catalogue library cache_bytes) [
  | some (ok p) ↦ p
  | _ ↦ record {
    entries = [];
    index = [];
    legacy = [];
    bounce = none;
    spam = none;
    fallback = none;
  }
]

restored : cache_policy no_catalogue library cache_bytes ≡ some (ok policy)
unfolding cache_policy policy_restore restore_loop restore_entry kind_of views_loop rule_views
    read_views str_eq hex update update_loop pad_loop init flush transform rounds extend load_words
    round_step rotate cache_file_size bytes_fits digest pair_digits digest_hex read32 compare_views
    decimal_loop field_count names_loop no_control no_nul nul_allowed read_decimal read_field
    read_fields read_record safe_text split_colon starts_with valid_id kind_step rule_step
    read_header word_at complete record_step validate_loop cache_validate config_step
    dependency_step follows inline_role meta_step valid_utf8 utf8_loop decode rejected
restored = refl

abbrev mail : Message
mail = record {
  addresses = record { field = 1; value = codes "jaromil@Dyne.org" } ∷ [];
  senders = [];
  spam_flags = codes " yes" ∷ [];
}

abbrev quiet : Engine
quiet = record { regexec = λ pattern text. no_match; uselocale = true }

quiet-IsReliable : IsReliable quiet
quiet-IsReliable = record { answers = λ p t h. cc h; locale = refl }

cache_policy-reads_example : cache_policy no_catalogue library cache_bytes ≢ none
cache_policy-reads_example = cache_policy-reads no_catalogue library cache_bytes

cache_policy-accepts_example :
    (p : Policy) × (cache_policy no_catalogue library cache_bytes ≡ some (ok p))
cache_policy-accepts_example =
    cache_policy-accepts no_catalogue library cache_bytes accepted refl (λ s. refl)

classify-cache_policy_example :
    classify quiet policy mail
    ≡ (validate mail >>= λ total. ok (first_match quiet mail (refs policy.entries)))
classify-cache_policy_example =
    classify-cache_policy no_catalogue library cache_bytes policy quiet mail restored
      quiet-IsReliable
