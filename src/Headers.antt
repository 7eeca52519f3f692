-- ===== src/Headers.antt =====
-- src/filter/headers.c: the header fields of a message, read byte by byte, where the allocations and
-- the reads succeed. The parser of address lists, src/rfc822.c, is a parameter: the mailboxes that it
-- hands to the callback, in order, and whether it then accepts the field.
pub mod Prefix
mod Tests
use jaro_mail.Base.{
  ltb, leb, ◌==◌, if◌then◌else◌, ltb→lt, lt→ltb, leb→le, ==_iff, ==_refl, Bool-cases, Option-cases,
  &&-eq-true, within, length, get_elem?, take, drop, length-append, All, all, any, All-append,
  All-get_elem?, get_elem?-some, All-map, In, In-take-or-drop, In-drop, All-In, drop-length, Bytes,
  codes, str_eq, str_eq_iff, in_set, strcmp, strcmp_iff, strcmp_antisymm, strcmp_trans,
  strcmp_lt_le_trans, StrLe, ℕ, zero, suc, ◌+◌, ◌-◌, ◌*◌, ◌/◌, ◌%◌, ◌^◌, ◌≤◌, ◌<◌, min, max,
  compare, Ordering, String, ◌≡◌, refl, sym, ap, ap₂, ◌∙◌, subst, ◌≡⟨◌⟩◌, ◌∎, ◌≢◌, ◌↔◌, ◌⊎◌, inl,
  inr, Bool, true, false, not, ◌&&◌, ◌||◌, Option, none, some, List, [], ◌∷◌, ◌++◌, map, foldl,
  append-nil, append_assoc, reverse, reverse-append, reverse-reverse, arith,
}
use jaro_mail.Result.{
  Result, ok, err, ◌>>=◌, Code, message_header, message_truncated, message_limit, message_text,
  message_address,
}
use jaro_mail.Sha256.{Hash, init, update, hex}
use jaro_mail.Text.Utf8.{valid_utf8}
use jaro_mail.Text.Ascii.{fold_byte, fold}
use jaro_mail.Text.Mailbox.{valid_mailbox, normalize_mailbox}
use jaro_mail.Policy.Rules.{from_field, sender_field, to_field, cc_field, spam_field}
use jaro_mail.Classify.Text.{headers_max}
use jaro_mail.Classify.Message.Defs.{Mailbox, Message}

abbrev pub line_max : ℕ
line_max = 65536

pub record Emitted : Type 0 where
  pub mailboxes : List Bytes
  pub accepted : Bool

-- struct header_parser with the struct jf_headers that it fills, the digest and the physical line.
-- `value_size` counts the bytes of every field, `value` holds those of a field that is kept.
pub record Parser : Type 0 where
  pub message : Message
  pub wire_size : ℕ
  pub hash : Hash
  pub value : Bytes
  pub value_size : ℕ
  pub line : ℕ
  pub field_line : ℕ
  pub field : ℕ
  pub active : Bool
  pub physical : Bytes

-- struct jf_headers, as the callers read it.
pub record Headers : Type 0 where
  pub message : Message
  pub wire_size : ℕ
  pub wire_digest : Bytes

abbrev pub fresh : Parser
fresh = record {
  message = record { addresses = []; senders = []; spam_flags = [] };
  wire_size = 0;
  hash = init;
  value = [];
  value_size = 0;
  line = 0;
  field_line = 0;
  field = 0;
  active = false;
  physical = [];
}

unfoldable pub fail {ℓ} : {A : Type ℓ} → ℕ → Code → Result A
fail line code = err (record { code = code; status = 7; source = none; line = line })

-- The callback, on one mailbox.
unfoldable pub emit_address : ℕ → ℕ → Bytes → List Mailbox → Result (List Mailbox)
emit_address field_line field mailbox addresses =
    if not (valid_utf8 mailbox) || not (valid_mailbox mailbox)
    then fail field_line message_address
    else elim (normalize_mailbox mailbox) [
      | none ↦ fail field_line message_address
      | some n ↦ ok (addresses ++ record { field = field; value = n } ∷ [])
    ]

unfoldable pub emit_all : ℕ → ℕ → List Bytes → List Mailbox → Result (List Mailbox)
emit_all field_line field [] addresses = ok addresses
emit_all field_line field (m ∷ ms) addresses = do
  next ← emit_address field_line field m addresses
  emit_all field_line field ms next

unfoldable pub name_is : Bytes → Bytes → Bool
name_is name expected = str_eq (fold name) expected

-- The field that a name stands for; 0 for one that is not kept.
unfoldable pub field_of : Bytes → ℕ
field_of name =
    if name_is name (codes "from")
    then from_field
    else if name_is name (codes "sender")
    then sender_field
    else if name_is name (codes "to")
    then to_field
    else if name_is name (codes "cc")
    then cc_field
    else if name_is name (codes "x-spam-flag")
    then spam_field
    else 0

-- The name before the colon with what follows it: the outer `none` is an invalid byte, the inner
-- one a missing colon.
unfoldable pub read_name : Bytes → Option (Bytes × Option Bytes)
read_name [] = some ([], none)
read_name (c ∷ s) =
    let later : Option (Bytes × Option Bytes) = elim (read_name s) [
      | none ↦ none
      | some r ↦ some (c ∷ r.0, r.1)
    ] in
    if c == b':' then some ([], some s) else if ltb c 33 || ltb 126 c then none else later

-- The end of the loop: the contents of a field are within the limit, and kept if it has a number.
unfoldable pub add_value : Parser → Bytes → Result Parser
add_value p s =
    if ltb (line_max - p.value_size) (length s)
    then fail p.field_line message_limit
    else ok (record p {
      value = if p.field == 0 then p.value else p.value ++ s;
      value_size = p.value_size + length s;
    })

-- The name of a field and the start of its value, in the line of that number.
unfoldable pub start_field : Parser → ℕ → Bytes → Result Parser
start_field p line s = elim (read_name s) [
  | none ↦ fail line message_header
  | some r ↦ elim r.1 [
    | none ↦ fail line message_header
    | some rest ↦
        if str_eq r.0 []
        then fail line message_header
        else add_value
            (record p {
              field_line = line;
              active = true;
              value = [];
              value_size = 0;
              field = field_of r.0;
            })
            rest
  ]
]

-- A carriage return at the end of the physical line.
unfoldable pub ends_in_return : Bytes → Bool
ends_in_return [] = false
ends_in_return (c ∷ []) = c == b'\r'
ends_in_return (c ∷ d ∷ s) = ends_in_return (d ∷ s)

unfoldable pub without_last : Bytes → Bytes
without_last [] = []
without_last (c ∷ []) = []
without_last (c ∷ d ∷ s) = c ∷ without_last (d ∷ s)

-- The physical line without its carriage return.
unfoldable pub physical_line : Parser → Bytes
physical_line p = if ends_in_return p.physical then without_last p.physical else p.physical

module _ (parse_mailboxes : Bytes → Emitted) where
  unfoldable pub finish_field : Parser → Result Parser
  finish_field p =
      let parsed = parse_mailboxes p.value in
      let kept = (do
        addresses ← emit_all p.field_line p.field parsed.mailboxes p.message.addresses
        (if not parsed.accepted
            then fail p.field_line message_address
            else ok (record p {
              message = record p.message {
                addresses = addresses;
                senders =
                    if p.field == sender_field
                    then p.message.senders ++ p.value ∷ []
                    else p.message.senders;
              };
            }))) in
      if not p.active || p.field == 0
      then ok p
      else if p.field == spam_field
      then ok (record p {
        message = record p.message { spam_flags = p.message.spam_flags ++ p.value ∷ [] };
      })
      else if not (valid_utf8 p.value)
      then fail p.field_line message_address
      else kept

  -- A line that starts a field.
  unfoldable pub field_line : Parser → Bytes → Result Parser
  field_line p s = do finished ← finish_field p; start_field finished p.line s

  -- `line`, on a line that is not empty.
  unfoldable pub line_step : Parser → Bytes → Result Parser
  line_step p s =
      let here : Parser = record p { line = p.line + 1 } in
      if str_eq (take 1 s) (codes " ") || str_eq (take 1 s) (codes "\t")
      then if p.active then add_value here s else fail (p.line + 1) message_header
      else field_line here s

  -- The end of a physical line; the flag is set behind the line that ends the headers.
  unfoldable pub newline_step : Parser → Result (Bool × Parser)
  newline_step p =
      let s = physical_line p in
      if ltb line_max (length s)
      then fail (p.line + 1) message_limit
      else if length s == 0
      then (do finished ← finish_field p; ok (true, finished))
      else (do next ← line_step p s; ok (false, record next { physical = [] }))

  -- A byte inside a physical line.
  unfoldable pub inner_step : Parser → ℕ → Result (Bool × Parser)
  inner_step p c =
      if ltb c 32 && not (c == b'\t') && not (c == b'\r') || c == 127 || ends_in_return p.physical
      then fail (p.line + 1) message_text
      else if length p.physical == line_max + 1
      then fail (p.line + 1) message_limit
      else ok (false, record p { physical = p.physical ++ c ∷ [] })

  -- One round of the loop; the flag is set behind the line that ends the headers.
  unfoldable pub byte_step : Parser → ℕ → Result (Bool × Parser)
  byte_step p c =
      let read : Parser = record p { wire_size = p.wire_size + 1; hash = update p.hash (c ∷ []) } in
      if ltb headers_max (p.wire_size + 1)
      then fail (p.line + 1) message_limit
      else if c == b'\n'
      then newline_step read
      else inner_step read c

  unfoldable pub headers_loop : Parser → Bytes → Result Headers
  headers_loop p [] = fail (p.line + 1) message_truncated
  headers_loop p (c ∷ s) = elim (byte_step p c) [
    | err e ↦ err e
    | ok r ↦ elim r.0 [
      | true ↦
          ok (record {
            message = r.1.message;
            wire_size = r.1.wire_size;
            wire_digest = hex r.1.hash;
          })
      | false ↦ headers_loop r.1 s
    ]
  ]

  unfoldable pub headers_parse : Bytes → Result Headers
  headers_parse s = headers_loop fresh s
