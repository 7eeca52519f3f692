-- ===== src/Policy/Parse.antt =====
-- src/filter/policy.c: destination, append and parse_line, where the allocations succeed.
pub mod Destination
use jaro_mail.Base.{
  ltb, leb, ◌==◌, if◌then◌else◌, ltb→lt, lt→ltb, leb→le, ==_iff, ==_refl, Bool-cases, Option-cases,
  &&-eq-true, within, length, get_elem?, take, drop, length-append, All, all, any, All-append,
  All-get_elem?, get_elem?-some, All-map, In, In-take-or-drop, In-drop, All-In, drop-length, Bytes,
  codes, str_eq, str_eq_iff, in_set, strcmp, strcmp_iff, strcmp_antisymm, strcmp_trans,
  strcmp_lt_le_trans, StrLe, ℕ, zero, suc, ◌+◌, ◌-◌, ◌*◌, ◌/◌, ◌%◌, ◌^◌, ◌≤◌, ◌<◌, min, max,
  compare, Ordering, String, ◌≡◌, refl, sym, ap, ap₂, ◌∙◌, subst, ◌≡⟨◌⟩◌, ◌∎, ◌≢◌, ◌↔◌, ◌⊎◌, inl,
  inr, Bool, true, false, not, ◌&&◌, ◌||◌, Option, none, some, List, [], ◌∷◌, ◌++◌, map, foldl,
  append-nil, append_assoc, reverse, reverse-append, reverse-reverse, arith,
}
use jaro_mail.Result.{
  Result, ok, err, ◌>>=◌, Code, address, fields, selector, predicate, action, domain, destination,
}
use jaro_mail.Text.Ascii.{control, fold}
use jaro_mail.Text.Blank.{is_blank, trim_start, trim_end}
use jaro_mail.Text.Domain.{valid_domain}
use jaro_mail.Text.Mailbox.{normalize_mailbox}
use jaro_mail.Policy.Rules.{Kind, Rule, Entry, from_field, sender_field, to_field, cc_field}
use jaro_mail.Policy.Rules
use jaro_mail.Policy.Lex.{Place, fail, lex}

-- enum jf_source_kind.
pub data SourceKind : Type 0 where
  filters account aliases known blacklist : SourceKind

abbrev pub source_value : SourceKind → ℕ
source_value filters = 0
source_value account = 1
source_value aliases = 2
source_value known = 3
source_value blacklist = 4

-- struct jf_source, with a buffer, an identity and a path.
pub record Source : Type 0 where
  pub kind : SourceKind
  pub identity : Bytes
  pub path : Bytes
  pub content : Bytes

-- The component from `start` to here is empty, "." or "..".
abbrev pub bad_component : Bytes → Bool
bad_component w = str_eq w [] || str_eq w (codes ".") || str_eq w (codes "..")

-- The loop of `destination`; `word` holds the component's bytes so far.
unfoldable pub destination_loop : Bytes → Bytes → Bool
destination_loop word [] = not (bad_component word)
destination_loop word (c ∷ s) =
    let next = destination_loop [] s in
    let same = destination_loop (word ++ c ∷ []) s in
    if control c
    then false
    else if c == b'/'
    then if bad_component word then false else next
    else same

unfoldable pub valid_destination : Bytes → Bool
valid_destination [] = false
valid_destination (c ∷ s) = if c == b'/' then false else destination_loop [] (c ∷ s)

-- `append`: the new entry, behind `n` others. A builtin has no source.
unfoldable pub new_entry : ℕ → Place → Option Source → Bytes → Bytes → Bytes → Kind → ℕ → ℕ → Entry
new_entry n p s sel pred logical kind stage mask = record {
  rule = record {
    kind = kind;
    stage = stage;
    fields = mask;
    selector = sel;
    predicate = pred;
    action = codes "move";
    logical = logical;
    local = if str_eq sel (codes "spam") then codes "zz.spam" else logical;
    sieve =
        if str_eq logical (codes "known")
        then codes "INBOX"
        else if str_eq sel (codes "spam")
        then codes "Spam"
        else logical;
    source = elim s [ none ↦ [] | some src ↦ src.path ];
    source_identity = elim s [ none ↦ [] | some src ↦ src.identity ];
    line = p.line;
    occurrence = 1;
    id = [];
  };
  discard = false;
  order = n;
  input_index = elim p.source [ none ↦ 2 ^ 64 - 1 | some i ↦ i ];
}

unfoldable pub append :
    List Entry → Place → Option Source → Bytes → Bytes → Bytes → Kind → ℕ → ℕ → List Entry
append entries p s sel pred logical kind stage mask =
    entries ++ new_entry (length entries) p s sel pred logical kind stage mask ∷ []

-- A line of a contact export: one raw mailbox, or a blank line.
unfoldable pub contact_line : List Entry → Place → Source → Bool → Bytes → Result (List Entry)
contact_line entries p s is_known line = elim (trim_end (trim_start line)) [
  | [] ↦ ok entries
  | c ∷ raw ↦ elim (normalize_mailbox (c ∷ raw)) [
    | none ↦ fail p address
    | some n ↦ ok (
        append entries p (some s) (if is_known then codes "known" else codes "blacklist") (fold n)
          (if is_known then codes "known" else codes "zz.blacklist") Kind.address
          (if is_known then 5 else 1) from_field)
  ]
]

-- The one mailbox of an account's email line or of an alias.
unfoldable pub own_line : List Entry → Place → Source → Bytes → Result (List Entry)
own_line entries p s raw = elim (normalize_mailbox raw) [
  | none ↦ fail p address
  | some n ↦ ok (
      append entries p (some s) (codes "own") (fold n) (codes "priv") Kind.address 7
        (to_field + cc_field))
]

-- The bytes up to the first blank.
unfoldable pub first_word : Bytes → Bytes
first_word [] = []
first_word (c ∷ s) = if is_blank c then [] else c ∷ first_word s

-- What a selector stands for: the kind of its predicate.
unfoldable pub selector_kind : Bytes → Option Kind
selector_kind sel =
    if str_eq sel (codes "known-domain")
      || str_eq sel (codes "from-domain")
      || str_eq sel (codes "to-domain")
    then some Kind.domain_apex
    else if str_eq sel (codes "from-address") || str_eq sel (codes "to-address")
    then some Kind.address
    else if str_eq sel (codes "from") || str_eq sel (codes "to")
    then some Kind.ere
    else none

-- The predicate as it is stored, and the final kind.
unfoldable pub typed_predicate : Place → Kind → Bytes → Result (Kind × Bytes)
typed_predicate p kind pred = elim kind [
  | Kind.domain_apex ↦
      let subdomains = str_eq (take 2 pred) (codes "*.") in
      if valid_domain (if subdomains then drop 2 pred else pred)
      then ok (if subdomains then Kind.domain_subdomains else Kind.domain_apex, fold pred)
      else fail p domain
  | Kind.address ↦ elim (normalize_mailbox pred) [
    | none ↦ fail p address
    | some n ↦ ok (Kind.address, fold n)
  ]
  | other ↦ ok (other, pred)
]

abbrev is_from : Bytes → Bool
is_from sel = str_eq (take 4 sel) (codes "from")

-- The checks on the tokens of a rule behind the selector, in their order.
unfoldable pub rule_line :
    List Entry → Place → Source → Kind → Bytes → List Bytes → Result (List Entry)
rule_line entries p s kind sel (pred ∷ rest) =
    let is_known = str_eq sel (codes "known-domain") in
    let target : Bytes × Bytes = elim rest [ act ∷ dest ∷ [] ↦ (act, dest) | _ ↦ ([], []) ] in
    if not (length rest == (if is_known then 0 else 2))
    then fail p fields
    else if str_eq pred []
    then fail p predicate
    else if not is_known
        && not (str_eq target.0 (codes "move"))
        && not (str_eq target.0 (codes "save"))
    then fail p action
    else if not is_known && not (valid_destination target.1)
    then fail p destination
    else do
      typed ← typed_predicate p kind pred
      ok (
          append entries p (some s) sel typed.1 (if is_known then codes "known" else target.1)
            typed.0 (if is_known then 5 else if is_from sel then 3 else 4)
            (if is_known
              then from_field
              else if is_from sel
              then from_field + sender_field
              else to_field + cc_field))
rule_line entries p s kind sel [] = fail p fields

-- The tokens of a line of a source other than a contact export.
unfoldable pub tokens_line : List Entry → Place → Source → List Bytes → Result (List Entry)
tokens_line entries p s [] = ok entries
tokens_line entries p s (t ∷ ts) = elim s.kind [
  | account ↦ elim ts [ a ∷ [] ↦ own_line entries p s a | _ ↦ fail p fields ]
  | filters ↦ elim (selector_kind t) [
    | none ↦ fail p selector
    | some kind ↦ rule_line entries p s kind t ts
  ]
  | _ ↦ elim ts [ [] ↦ own_line entries p s t | _ ↦ fail p fields ]
]

unfoldable pub parse_line : List Entry → Place → Source → Bytes → Result (List Entry)
parse_line entries p s line =
    let lexed = (do ts ← lex p line; tokens_line entries p s ts) in
    elim s.kind [
      | known ↦ contact_line entries p s true line
      | blacklist ↦ contact_line entries p s false line
      | account ↦
          if str_eq (first_word (trim_start line)) (codes "email") then lexed else ok entries
      | _ ↦ lexed
    ]
