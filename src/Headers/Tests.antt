-- ===== src/Headers/Tests.antt =====
-- src/filter/headers.c: a short message, and the theorem at it.
use jaro_mail.Base.{length, drop, Bytes, codes, str_eq, ◌≤◌, ◌≡◌, refl, true, [], ◌∷◌, ◌++◌}
use jaro_mail.Result.{ok}
use jaro_mail.Classify.Text.{headers_max}
use jaro_mail.Headers.{
  Emitted, Headers, headers_parse, headers_loop, byte_step, inner_step, ends_in_return,
  newline_step, physical_line, line_step, field_line, finish_field, start_field, read_name,
  add_value, field_of, name_is, without_last, emit_all,
}
use jaro_mail.Text.Ascii.{fold, fold_byte}
use jaro_mail.Sha256.{
  rotate, rounds, round_step, load_words, extend, transform, init, flush, update_loop, update,
  pad_loop, hex,
}
use jaro_mail.Headers.Prefix.{headers_parse-prefix}

-- A parser of address lists that takes the whole field for one mailbox.
abbrev one_mailbox : Bytes → Emitted
one_mailbox s = record { mailboxes = drop 1 s ∷ []; accepted = true }

abbrev message : Bytes
message = codes "X-Spam-Flag: YES\n\nbody"

abbrev parsed : Headers
parsed = record {
  message = record { addresses = []; senders = []; spam_flags = codes " YES" ∷ [] };
  wire_size = 18;
  wire_digest = codes "a65b9558f7788b5dfa24555cabcd8671c0bfeee023c662fe2a6fb78c54e0ee1b";
}

message_parses : headers_parse one_mailbox message ≡ ok parsed
unfolding headers_parse headers_loop byte_step inner_step ends_in_return newline_step physical_line
    line_step field_line finish_field start_field read_name add_value field_of name_is without_last
    emit_all str_eq fold fold_byte hex update update_loop flush transform init pad_loop rounds
    extend load_words round_step rotate
message_parses = refl

headers_parse-prefix_example :
    (header : Bytes) × (body : Bytes) × (message ≡ header ++ body)
    × (length header ≡ parsed.wire_size)
    × (parsed.wire_size ≤ headers_max)
    × ((other : Bytes) → headers_parse one_mailbox (header ++ other) ≡ ok parsed)
headers_parse-prefix_example = headers_parse-prefix one_mailbox message parsed message_parses
