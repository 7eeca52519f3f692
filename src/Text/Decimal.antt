-- ===== src/Text/Decimal.antt =====
-- The decimal digits that `%zu` and `%u` print.
use jaro_mail.Base.{◌==◌, if◌then◌else◌, Bytes, ℕ, zero, suc, ◌+◌, ◌/◌, ◌%◌, [], ◌∷◌}

-- The digits of `n` in front of what was written; a number has no more digits than itself.
unfoldable pub decimal_loop : ℕ → ℕ → Bytes → Bytes
decimal_loop zero n written = written
decimal_loop (suc fuel) n written =
    let digit = b'0' + n % 10 in
    let more = decimal_loop fuel (n / 10) (digit ∷ written) in
    if n / 10 == 0 then digit ∷ written else more

unfoldable pub decimal : ℕ → Bytes
decimal n = decimal_loop (n + 1) n []
