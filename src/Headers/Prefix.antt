-- ===== src/Headers/Prefix.antt =====
-- src/filter/headers.c: what of a message is read.
use jaro_mail.Base.{
  ltb, ◌==◌, Bool-cases, length, Bytes, ℕ, ◌+◌, ◌≤◌, ◌≡◌, refl, ap, ◌∙◌, inl, inr, Bool, true,
  false, [], ◌∷◌, ◌++◌, arith,
}
use jaro_mail.Result.{ok, bind-eq-ok, Result-cases}
use jaro_mail.Sha256.{update}
use jaro_mail.Classify.Text.{headers_max}
use jaro_mail.Headers.{
  Emitted, Parser, Headers, fail, add_value, start_field, finish_field, field_line, line_step,
  line_max, physical_line, newline_step, inner_step, byte_step, headers_loop, headers_parse, fresh,
}

add_value-size :
    (p : Parser) (s : Bytes) (q : Parser) → add_value p s ≡ ok q → q.wire_size ≡ p.wire_size
unfolding add_value fail
add_value-size p s q h = ground arith

start_field-size :
    (p : Parser) (line : ℕ) (s : Bytes) (q : Parser)
    → start_field p line s ≡ ok q
    → q.wire_size ≡ p.wire_size
unfolding start_field add_value fail
start_field-size p line s q h = ground arith

module _ (parse_mailboxes : Bytes → Emitted) where
  finish_field-size :
      (p : Parser) (q : Parser) → finish_field parse_mailboxes p ≡ ok q → q.wire_size ≡ p.wire_size
  unfolding finish_field fail
  finish_field-size p q h = ground arith

  field_line-size :
      (p : Parser) (s : Bytes) (q : Parser)
      → field_line parse_mailboxes p s ≡ ok q
      → q.wire_size ≡ p.wire_size
  unfolding field_line
  field_line-size p s q h =
      let (finished, e, rest) =
        bind-eq-ok (finish_field parse_mailboxes p) (λ f. start_field f p.line s) h in
      start_field-size finished p.line s q rest ∙ finish_field-size p finished e

  line_step-size :
      (p : Parser) (s : Bytes) (q : Parser)
      → line_step parse_mailboxes p s ≡ ok q
      → q.wire_size ≡ p.wire_size
  unfolding line_step fail
  line_step-size p s q h =
      let a = add_value-size (record p { line = p.line + 1 }) s q in
      let b = field_line-size (record p { line = p.line + 1 }) s q in ground (arith, a, b)

  newline_step-size :
      (p : Parser) (ended : Bool) (q : Parser)
      → newline_step parse_mailboxes p ≡ ok (ended, q)
      → q.wire_size ≡ p.wire_size
  unfolding newline_step fail
  newline_step-size p ended q h = elim (Bool-cases (ltb line_max (length (physical_line p)))) [
    | inl long ↦ absurd (cc (rw long at h))
    | inr short ↦ elim (Bool-cases (length (physical_line p) == 0)) [
      | inl blank ↦
          let (f, e, k) =
            bind-eq-ok (finish_field parse_mailboxes p) (λ f. ok (true, f))
              (rw (short, blank) at h) in
          ground (arith, k, finish_field-size p f e)
      | inr more ↦
          let (n, e, k) =
            bind-eq-ok (line_step parse_mailboxes p (physical_line p))
              (λ n. ok (false, record n { physical = [] })) (rw (short, more) at h) in
          ground (arith, k, line_step-size p (physical_line p) n e)
    ]
  ]

  byte_step-size :
      (p : Parser) (c : ℕ) (ended : Bool) (q : Parser)
      → byte_step parse_mailboxes p c ≡ ok (ended, q)
      → (q.wire_size ≡ p.wire_size + 1) × (p.wire_size + 1 ≤ headers_max)
  unfolding byte_step inner_step fail
  byte_step-size p c ended q h =
      let a =
        newline_step-size (record p { wire_size = p.wire_size + 1; hash = update p.hash (c ∷ []) })
          ended q in
      ground (arith, a)

  -- A successful read stops behind a header, of which it counts the bytes, within the limit, and does
  -- the same whatever follows.
  abbrev Stops : Parser → Bytes → Headers → Type 0
  Stops p s h =
      (header : Bytes) × (body : Bytes) × (s ≡ header ++ body)
      × (p.wire_size + length header ≡ h.wire_size)
      × (h.wire_size ≤ headers_max)
      × ((other : Bytes) → headers_loop parse_mailboxes p (header ++ other) ≡ ok h)

  headers_loop-Stops :
      (p : Parser) (s : Bytes) (h : Headers) → headers_loop parse_mailboxes p s ≡ ok h → Stops p s h
  unfolding headers_loop fail
  headers_loop-Stops p [] h e = absurd (ground arith)
  headers_loop-Stops p (c ∷ s) h e = elim (Result-cases (byte_step parse_mailboxes p c)) [
    | inl (why, k) ↦ absurd (cc (rw (k, headers_loop) at e))
    | inr ((true, q), k) ↦
        let size = byte_step-size p c true q k in
        let is = rw (k, headers_loop) at e in
        (c ∷ [], s, refl, ground (arith, is), ground (arith, is), λ other. rw (k, headers_loop) is)
    | inr ((false, q), k) ↦
        let size = byte_step-size p c false q k in
        let (header, body, same, count, fits, stops) =
          headers_loop-Stops q s h (rw (k, headers_loop) at e) in
        (
          c ∷ header,
          body,
          ap (λ t. c ∷ t) same,
          omega arith,
          fits,
          λ other. rw (k, headers_loop) (stops other),
        )
  ]

  -- Where jf_headers_parse succeeds, what it reads is a header at the start of the message: its size
  -- is the one that is reported and at most 1 MiB, and the result is the same whatever body follows
  -- the header, so no byte of the body is looked at.
  pub headers_parse-prefix :
      (s : Bytes) (h : Headers)
      → headers_parse parse_mailboxes s ≡ ok h
      → (header : Bytes) × (body : Bytes) × (s ≡ header ++ body)
        × (length header ≡ h.wire_size)
        × (h.wire_size ≤ headers_max)
        × ((other : Bytes) → headers_parse parse_mailboxes (header ++ other) ≡ ok h)
  unfolding headers_parse
  headers_parse-prefix s h e =
      let (header, body, same, count, fits, stops) = headers_loop-Stops fresh s h e in
      (header, body, same, omega arith, fits, stops)
