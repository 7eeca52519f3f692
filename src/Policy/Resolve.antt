-- ===== src/Policy/Resolve.antt =====
-- src/filter/policy.c, identify and resolve, where the allocations succeed.
use jaro_mail.Base.{
  ltb, ◌==◌, if◌then◌else◌, length, get_elem?, Bytes, codes, str_eq, ℕ, zero, suc, ◌+◌, ◌-◌, ◌%◌,
  ◌^◌, Ordering, Bool, true, false, not, ◌&&◌, ◌||◌, none, some, List, [], ◌∷◌, ◌++◌,
}
use jaro_mail.Result.{Result, ok, ◌>>=◌, memory, rule_limit, regex}
use jaro_mail.Sorter.Defs.{Sorter}
use jaro_mail.Sha256.{init, update, hex}
use jaro_mail.Text.Decimal.{decimal}
use jaro_mail.Policy.Rules.{kind_value, Rule, Entry, Ref}
use jaro_mail.Policy.Lex.{Place, fail}
use jaro_mail.Policy.Compare.{compare_key, compare_records, compare_keys, compare_order}
use jaro_mail.Classify.Build.{refs}

-- What regcomp answers under the C locale.
pub data Compiled : Type 0 where
  compiled no_space refused : Compiled

-- The parts of the C library that resolve calls.
pub record Library : Type 1 where
  pub sorter : Sorter
  pub uselocale : Bool
  pub regcomp : Bytes → Compiled

abbrev pub is_equal : Ordering → Bool
is_equal c = elim c [ Ordering.eq ↦ true | _ ↦ false ]

-- The entry at a position is changed through its pointer.
unfoldable pub change : ℕ → (Entry → Entry) → List Entry → List Entry
change i f [] = []
change zero f (e ∷ es) = f e ∷ es
change (suc i) f (e ∷ es) = e ∷ change i f es

-- The condition of the inner loop that numbers the occurrences.
unfoldable pub same_record : Entry → Entry → Bool
same_record a b =
    is_equal (compare_key a b)
    && str_eq a.rule.logical b.rule.logical
    && str_eq a.rule.source_identity b.rule.source_identity

-- Inside the group of `first`, of which `n` entries have been seen.
unfoldable pub number_loop : Ref → ℕ → List Ref → List Entry → List Entry
number_loop first n [] entries = entries
number_loop first n (r ∷ rs) entries =
    let inside =
      number_loop first (n + 1) rs (
        change r.position (λ e. record e { rule = record e.rule { occurrence = n + 1 } })
          entries) in
    let next = number_loop r 1 rs entries in
    if same_record first.entry r.entry then inside else next

unfoldable pub number : List Ref → List Entry → List Entry
number [] entries = entries
number (r ∷ rs) entries = number_loop r 1 rs entries

abbrev pub is_contact : Entry → Bool
is_contact e =
    str_eq e.rule.selector (codes "own")
    || str_eq e.rule.selector (codes "known")
    || str_eq e.rule.selector (codes "blacklist")

unfoldable pub discard : Ref → List Entry → List Entry
discard r entries = change r.position (λ e. record e { discard = true }) entries

-- Inside the group of `first`, with the last entry seen: a contact keeps the first of its group,
-- any other entry is kept only if nothing of its group follows.
unfoldable pub discard_loop : Ref → Ref → List Ref → List Entry → List Entry
discard_loop first last [] entries = entries
discard_loop first last (r ∷ rs) entries =
    let inside =
      discard_loop first r rs (discard (if is_contact first.entry then r else last) entries) in
    let next = discard_loop r r rs entries in
    if is_equal (compare_key first.entry r.entry) then inside else next

unfoldable pub discard_duplicates : List Ref → List Entry → List Entry
discard_duplicates [] entries = entries
discard_duplicates (r ∷ rs) entries = discard_loop r r rs entries

-- The loop that closes the gaps.
unfoldable pub compact : List Entry → List Entry
compact [] = []
compact (e ∷ es) = if e.discard then compact es else e ∷ compact es

abbrev pub is_builtin : Bytes → Bool
is_builtin sel =
    str_eq sel (codes "bounce") || str_eq sel (codes "spam") || str_eq sel (codes "unsorted")

-- `identify`: the new value of the field `id`.
unfoldable pub identify : Rule → Bytes
identify r =
    let contact =
      str_eq r.selector (codes "known")
      || str_eq r.selector (codes "blacklist")
      || str_eq r.selector (codes "own") in
    let terminated = λ (s : Bytes). s ++ 0 ∷ [] in
    if is_builtin r.selector
    then codes "builtin:" ++ r.selector
    else if contact
    then r.selector ++ codes ":" ++ hex (update init r.predicate)
    else codes "r:"
      ++ hex (
          update
            (update
              (update
                (update (update (update init (terminated r.selector)) (terminated r.predicate))
                  (terminated r.action))
                (terminated r.logical))
              (terminated r.source_identity))
            (decimal r.occurrence))

abbrev pub rule_max : ℕ
rule_max = 100000

abbrev pub builtin_rules : ℕ
builtin_rules = 3

-- The place that an error about an entry names.
abbrev entry_place : Place → Entry → Place
entry_place p e = record {
  source = if e.input_index == 2 ^ 64 - 1 then none else some e.input_index;
  line = e.rule.line;
}

module _ (library : Library) where
  -- The last loop, which names the rules and compiles their regular expressions.
  unfoldable pub finish : Place → List Entry → Result (List Entry)
  finish p [] = ok []
  finish p (e ∷ es) =
      let named = record e { rule = record e.rule { id = identify e.rule } } in
      let next = (do rest ← finish p es; ok (named ∷ rest)) in
      if not (kind_value e.rule.kind == 3)
      then next
      else if not library.uselocale
      then fail p memory
      else elim (library.regcomp e.rule.predicate) [
        | compiled ↦ next
        | no_space ↦ fail (entry_place p e) memory
        | refused ↦ fail (entry_place p e) regex
      ]

  -- The entries that are kept, in the order of the source.
  unfoldable pub kept : List Entry → List Entry
  kept entries =
      let numbered = number (library.sorter.sort Ref compare_records (refs entries)) entries in
      compact (discard_duplicates (library.sorter.sort Ref compare_keys (refs numbered)) numbered)

  unfoldable pub resolve : Place → List Entry → Result (List Entry)
  resolve p entries =
      let es = kept entries in
      if ltb rule_max ((length es + 2 ^ 64 - builtin_rules) % 2 ^ 64)
      then elim (get_elem? es rule_max) [
        | none ↦ fail p rule_limit
        | some e ↦ fail (entry_place p e) rule_limit
      ]
      else finish p (library.sorter.sort Entry compare_order es)
