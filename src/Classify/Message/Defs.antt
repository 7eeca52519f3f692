-- ===== src/Classify/Message/Defs.antt =====
-- src/filter/classify.c: jf_policy_classify, on arguments that are not NULL. The regex engine and
-- the switch to the policy's locale are the C library's: parameters.
use jaro_mail.Base.{
  ltb, ◌==◌, if◌then◌else◌, length, Bytes, codes, ℕ, ◌+◌, Bool, true, false, not, ◌&&◌, ◌||◌,
  Option, none, some, List, [], ◌∷◌,
}
use jaro_mail.Result.{
  Result, ok, err, ◌>>=◌, message_limit, message_field, message_address, regex_exec,
}
use jaro_mail.Text.Utf8.{valid_utf8}
use jaro_mail.Text.Ascii.{fold}
use jaro_mail.Text.Mailbox.{normalize_mailbox}
use jaro_mail.Policy.Rules.{
  address, domain_apex, domain_subdomains, Ref, before, Policy, from_field, sender_field, to_field,
  cc_field,
}
use jaro_mail.Classify.Index.Defs.{has_field, lookup}
use jaro_mail.Classify.Text.{headers_max, refuse, size_sub, validate_text, raw_match}

-- struct jf_mailbox.
pub record Mailbox : Type 0 where
  pub field : ℕ
  pub value : Bytes

-- struct jf_message.
pub record Message : Type 0 where
  pub addresses : List Mailbox
  pub senders : List Bytes
  pub spam_flags : List Bytes

-- What `regexec` returns: 0, REG_NOMATCH, or any other status.
pub data Match : Type 0 where
  matched no_match failed : Match

-- The C library: `regexec` of a pattern compiled with the policy's flags, and whether `uselocale`
-- returns a locale.
pub record Engine : Type 0 where
  pub regexec : Bytes → Bytes → Match
  pub uselocale : Bool

abbrev known_field : ℕ → Bool
known_field f = f == from_field || f == sender_field || f == to_field || f == cc_field

-- One round of the first loop over the addresses; the totals are `total` and `sender_addresses`.
unfoldable pub check_address : Mailbox → ℕ × ℕ → Result (ℕ × ℕ)
check_address a (total, sender_addresses) =
    if not (known_field a.field) then refuse message_field else do
      t ← validate_text a.value (if a.field == sender_field then sender_addresses else total)
      if not (valid_utf8 a.value)
          then refuse message_address
          else elim (normalize_mailbox a.value) [
            | none ↦ refuse message_address
            | some n ↦ ok (if a.field == sender_field then (total, t) else (t, sender_addresses))
          ]

unfoldable pub check_addresses : List Mailbox → ℕ × ℕ → Result (ℕ × ℕ)
check_addresses [] totals = ok totals
check_addresses (a ∷ as') totals = do next ← check_address a totals; check_addresses as' next

unfoldable pub check_texts : List Bytes → ℕ → Result ℕ
check_texts [] total = ok total
check_texts (t ∷ ts) total = do next ← validate_text t total; check_texts ts next

-- Everything that is checked before a winner is considered; the total of the message.
unfoldable pub validate : Message → Result ℕ
validate m =
    if ltb headers_max (length m.addresses)
      || ltb headers_max (length m.senders)
      || ltb headers_max (length m.spam_flags)
    then refuse message_limit
    else do
      totals ← check_addresses m.addresses (0, 0)
      values ← check_texts m.senders 0
      let sender_values = if ltb values totals.1 then totals.1 else values
      if ltb (size_sub headers_max totals.0) sender_values
          then refuse message_limit
          else check_texts m.spam_flags (totals.0 + sender_values)

-- `strrchr(mailbox,'@')+1`; a validated mailbox has an `@`.
unfoldable pub after_last_at : Bytes → Option Bytes
after_last_at [] = none
after_last_at (c ∷ s) = elim (after_last_at s) [
  | some d ↦ some d
  | none ↦ if c == b'@' then some s else none
]

abbrev pub domain_of : Bytes → Bytes
domain_of mailbox = elim (after_last_at mailbox) [ none ↦ [] | some d ↦ d ]

-- `for (suffix=strchr(domain,'.');suffix;suffix=strchr(suffix+1,'.'))`, over the bytes.
unfoldable pub suffix_loop : List Ref → ℕ → Bytes → Option Ref → Option Ref
suffix_loop index field [] best = best
suffix_loop index field (c ∷ s) best =
    suffix_loop index field s
      (if c == b'.' then lookup index domain_subdomains s field best else best)

-- The two loops over the raw fields.
unfoldable pub sender_loop : Policy → List Bytes → Option Ref → Option Ref
sender_loop p [] best = best
sender_loop p (s ∷ ss) best =
    sender_loop p ss (if raw_match s (codes "mailman-bounce") true then p.bounce else best)

unfoldable pub spam_loop : Policy → List Bytes → Option Ref → Option Ref
spam_loop p [] best = best
spam_loop p (s ∷ ss) best =
    spam_loop p ss (if raw_match s (codes "YES") false && before p.spam best then p.spam else best)

-- The typed lookups for one folded mailbox.
unfoldable pub typed_step : List Ref → ℕ → Bytes → Option Ref → Option Ref
typed_step index field folded best =
    let exact = lookup index address folded field best in
    let domain = domain_of folded in
    let apex = lookup index domain_apex domain field exact in suffix_loop index field domain apex

module _ (engine : Engine) where
  -- The loop over the legacy rules, with the mailbox normalized and not folded.
  unfoldable pub legacy_loop : ℕ → Bytes → List Ref → Option Ref → Result (Option Ref)
  legacy_loop field mailbox [] best = ok best
  legacy_loop field mailbox (r ∷ rs) best =
      let later = legacy_loop field mailbox rs best in
      if not (before (some r) best)
      then ok best
      else if not (has_field field r.entry)
      then later
      else elim (engine.regexec r.entry.rule.predicate mailbox) [
        | matched ↦ ok (some r)
        | no_match ↦ later
        | failed ↦ err (record { code = regex_exec; status = 3; source = none; line = 0 })
      ]

  -- `if (p->legacy_count)`.
  unfoldable pub legacy_step : ℕ → Bytes → List Ref → Option Ref → Result (Option Ref)
  legacy_step field mailbox [] best = ok best
  legacy_step field mailbox (r ∷ rs) best =
      if engine.uselocale
      then legacy_loop field mailbox (r ∷ rs) best
      else err (record { code = regex_exec; status = 3; source = none; line = 0 })

  -- One round of the second loop over the addresses. The complete input was validated before, so
  -- `normalize_mailbox` gives a mailbox again.
  unfoldable pub address_step : Policy → Mailbox → Option Ref → Result (Option Ref)
  address_step p a best = elim (normalize_mailbox a.value) [
    | none ↦ ok best
    | some n ↦ legacy_step a.field n p.legacy (typed_step p.index a.field (fold n) best)
  ]

  unfoldable pub address_loop : Policy → List Mailbox → Option Ref → Result (Option Ref)
  address_loop p [] best = ok best
  address_loop p (a ∷ as') best = do next ← address_step p a best; address_loop p as' next

  unfoldable pub classify : Policy → Message → Result (Option Ref)
  classify p m = do
    total ← validate m
    address_loop p m.addresses (spam_loop p m.spam_flags (sender_loop p m.senders p.fallback))
