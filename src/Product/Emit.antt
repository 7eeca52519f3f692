-- ===== src/Product/Emit.antt =====
-- src/filter/emit.c: the compatibility script for zsh and the Sieve script.
use jaro_mail.Base.{
  ◌==◌, if◌then◌else◌, any, Bytes, codes, ℕ, zero, suc, ◌+◌, Bool, not, ◌&&◌, ◌||◌, Option, none,
  some, List, [], ◌∷◌, ◌++◌, map,
}
use jaro_mail.Result.{Result, ok, err, memory, rule, regex_export}
use jaro_mail.Text.Decimal.{decimal}
use jaro_mail.Policy.Rules.{
  Kind, kind_value, Rule, address, domain_apex, domain_subdomains, ere, sender_contains, spam_is,
  always,
}
use jaro_mail.Product.Buffer.{Buffer, ◌>>=◌, bytes_add, product_error}
use jaro_mail.Product.Quote.{quote_zsh, quote_sieve}
use jaro_mail.Product.Regex.{regex_supported}

-- The fields of struct jf_profile that the emission reads.
pub record Output : Type 0 where
  pub create : Bool
  pub regex : Bool

unfoldable pub kind_name : Kind → Bytes
kind_name address = codes "address"
kind_name domain_apex = codes "domain-apex"
kind_name domain_subdomains = codes "domain-subdomains"
kind_name ere = codes "ere"
kind_name sender_contains = codes "sender-contains"
kind_name spam_is = codes "spam-is"
kind_name always = codes "always"

abbrev zsh_prologue : Bytes
zsh_prologue =
    codes "# Jaromail native filter compatibility v1\n"
    ++ codes "unset filter_from filter_to filter_own filter_whitelist filter_blacklist "
    ++ codes "filter_rule_ids filter_rule_kinds filter_rule_patterns filter_rule_destinations "
    ++ codes "filter_rule_stages filter_rule_masks\n"
    ++ codes "typeset -gA filter_from filter_to\n"
    ++ codes "typeset -ga filter_own filter_whitelist filter_blacklist filter_rule_ids "
    ++ codes
        "filter_rule_kinds filter_rule_patterns filter_rule_destinations filter_rule_stages filter_rule_masks\n"
    ++ codes
        "filter_from=()\nfilter_to=()\nfilter_own=()\nfilter_whitelist=()\nfilter_blacklist=()\n"

abbrev is_kind : Kind → Rule → Bool
is_kind k r = kind_value r.kind == kind_value k

-- The array of contacts that a rule belongs to; `none` is the null pointer.
unfoldable pub zsh_array : Rule → Option Bytes
zsh_array r =
    if r.stage == 1
    then some (codes "filter_blacklist")
    else if r.stage == 5 && is_kind address r
    then some (codes "filter_whitelist")
    else if r.stage == 7
    then some (codes "filter_own")
    else none

-- One round of the first loop.
unfoldable pub zsh_rule : Buffer → Rule → Option Buffer
zsh_rule b r =
    if is_kind ere r
    then (do
      b ← bytes_add b (if r.stage == 3 then codes "filter_from+=(" else codes "filter_to+=(")
      b ← quote_zsh b r.predicate
      b ← bytes_add b (codes " ")
      b ← quote_zsh b r.local
      bytes_add b (codes ")\n"))
    else elim (zsh_array r) [
      | none ↦ some b
      | some array ↦ bytes_add b array >>= λ b. bytes_add b (codes "+=(") >>= λ b.
          quote_zsh b r.predicate >>= λ b. bytes_add b (codes ")\n")
    ]

unfoldable pub zsh_rules : Buffer → List Rule → Option Buffer
zsh_rules b [] = some b
zsh_rules b (r ∷ rs) = do next ← zsh_rule b r; zsh_rules next rs

-- The columns, by their number.
abbrev columns : List (Bytes × (Rule → Bytes))
columns =
    (codes "ids", λ (r : Rule). r.id)
    ∷ (codes "kinds", λ (r : Rule). kind_name r.kind)
    ∷ (codes "patterns", λ (r : Rule). r.predicate)
    ∷ (codes "destinations", λ (r : Rule). r.local)
    ∷ (codes "stages", λ (r : Rule). decimal r.stage)
    ∷ (codes "masks", λ (r : Rule). decimal r.fields)
    ∷ []

unfoldable pub zsh_values : Buffer → (Rule → Bytes) → List Rule → Option Buffer
zsh_values b value [] = some b
zsh_values b value (r ∷ rs) = do
  b ← bytes_add b (codes " ")
  b ← quote_zsh b (value r)
  zsh_values b value rs

-- The loop over the columns.
unfoldable pub zsh_columns : Buffer → List Rule → List (Bytes × (Rule → Bytes)) → Option Buffer
zsh_columns b rs [] = some b
zsh_columns b rs (c ∷ cs) = do
  b ← bytes_add b (codes "filter_rule_")
  b ← bytes_add b c.0
  b ← bytes_add b (codes "=(")
  b ← zsh_values b c.1 rs
  b ← bytes_add b (codes " )\n")
  zsh_columns b rs cs

unfoldable pub zsh : Buffer → List Rule → Option Buffer
zsh b rs = do b ← bytes_add b zsh_prologue; b ← zsh_rules b rs; zsh_columns b rs columns

unfoldable pub action : Buffer → Output → Bytes → Option Buffer
action b p mailbox = do
  b ← bytes_add b (if p.create then codes "fileinto :create " else codes "fileinto ")
  b ← quote_sieve b mailbox
  bytes_add b (codes ";")

-- `goto memory`.
abbrev or_memory : Option Buffer → Result Buffer
or_memory none = product_error memory 0
or_memory (some b) = ok b

-- The header names for a mask; `none` is the null pointer.
unfoldable pub field_names : ℕ → Option Bytes
field_names mask =
    if mask == 1
    then some (codes "\"From\"")
    else if mask == 3
    then some (codes "[\"From\",\"Sender\"]")
    else if mask == 12
    then some (codes "[\"To\",\"Cc\"]")
    else none

-- The test of a rule, up to its key; the outer `none` is a mask without header names.
unfoldable pub rule_test : Buffer → Rule → Option (Option Buffer)
rule_test b r =
    if is_kind sender_contains r
    then some (bytes_add b (codes "header :contains :comparator \"i;ascii-casemap\" \"Sender\" "))
    else if is_kind spam_is r
    then some (bytes_add b (codes "header :is :comparator \"i;ascii-casemap\" \"X-Spam-Flag\" "))
    else elim (field_names r.fields) [
      | none ↦ none
      | some names ↦ some (
          bytes_add b (
            if is_kind ere r
            then codes "address :all :regex "
            else if is_kind address r
            then codes "address :all :is "
            else if is_kind domain_apex r
            then codes "address :domain :is "
            else codes "address :domain :matches ")
          >>= λ b. bytes_add b (codes ":comparator \"i;ascii-casemap\" ") >>= λ b.
              bytes_add b names >>= λ b. bytes_add b (codes " "))
    ]

-- One rule of a stage, the `i`th of the policy, with its mailbox.
unfoldable pub sieve_rule : Buffer → Output → ℕ → Rule → Bytes → Result Buffer
sieve_rule b p i r mailbox =
    if is_kind ere r && (not p.regex || not (regex_supported r.predicate))
    then err (record { code = regex_export; status = 4; source = some i; line = r.line })
    else elim (bytes_add b (codes "  if ")) [
      | none ↦ product_error memory 0
      | some b ↦ elim (rule_test b r) [
        | none ↦ product_error rule r.line
        | some tested ↦ or_memory (
            tested >>= λ b. quote_sieve b r.predicate >>= λ b. bytes_add b (codes " { ") >>= λ b.
            action b p mailbox >>= λ b. bytes_add b (codes " stop; }\n"))
      ]
    ]

-- The rules of one stage, and those that are left.
unfoldable pub sieve_rules :
    Buffer → Output → ℕ → ℕ → List (Rule × Bytes) → Result (Buffer × ℕ × List (Rule × Bytes))
sieve_rules b p stage i [] = ok (b, i, [])
sieve_rules b p stage i (r ∷ rs) =
    let next : Result (Buffer × ℕ × List (Rule × Bytes)) = elim (sieve_rule b p i r.0 r.1) [
      | err e ↦ err e
      | ok b ↦ sieve_rules b p stage (i + 1) rs
    ] in
    if r.0.stage == stage then next else ok (b, i, r ∷ rs)

-- The loop over `left` stages, from `stage` on.
unfoldable pub sieve_stages :
    ℕ → Buffer → Output → ℕ → ℕ → List (Rule × Bytes) → Result (Buffer × List (Rule × Bytes))
sieve_stages zero b p stage i rs = ok (b, rs)
sieve_stages (suc left) b p stage i rs = elim (bytes_add b (codes "if true {\n")) [
  | none ↦ product_error memory 0
  | some b ↦ elim (sieve_rules b p stage i rs) [
    | err e ↦ err e
    | ok done ↦ elim (bytes_add done.0 (codes "}\n")) [
      | none ↦ product_error memory 0
      | some b ↦ sieve_stages left b p (stage + 1) done.1 done.2
    ]
  ]
]

-- The last rule has no test.
unfoldable pub sieve_fallback : Buffer → Output → List (Rule × Bytes) → Result Buffer
sieve_fallback b p (r ∷ []) =
    if is_kind always r.0
    then or_memory (action b p r.1 >>= λ b. bytes_add b (codes "\n"))
    else product_error rule 0
sieve_fallback b p rs = product_error rule 0

unfoldable pub sieve_require : Buffer → Output → List (Rule × Bytes) → Option Buffer
sieve_require b p rs = do
  b ← bytes_add b (codes "require [\"fileinto\"")
  b ← (if p.create then bytes_add b (codes ",\"mailbox\"") else some b)
  b ←
      (if any (λ (r : Rule × Bytes). is_kind ere r.0) rs && p.regex
        then bytes_add b (codes ",\"regex\"")
        else some b)
  bytes_add b (codes "];\n")

-- `jf_emit_text` on the rules with their mailboxes: the script for zsh and the Sieve script.
unfoldable pub emit_text : Output → List (Rule × Bytes) → Buffer → Buffer → Result (Buffer × Buffer)
emit_text p rs zsh_out sieve_out = elim (zsh zsh_out (map (λ (r : Rule × Bytes). r.0) rs)) [
  | none ↦ product_error memory 0
  | some script ↦ elim (sieve_require sieve_out p rs) [
    | none ↦ product_error memory 0
    | some b ↦ elim (sieve_stages 7 b p 1 0 rs) [
      | err e ↦ err e
      | ok done ↦ elim (sieve_fallback done.0 p done.1) [ err e ↦ err e | ok b ↦ ok (script, b) ]
    ]
  ]
]
