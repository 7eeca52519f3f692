-- ===== src/Profile/Mailbox.antt =====
-- src/filter/profile.c, jf_profile_mailbox: the mailbox that a rule files into.
use jaro_mail.Base.{◌==◌, if◌then◌else◌, Bytes, codes, str_eq, Option, none, some, List, [], ◌∷◌}
use jaro_mail.Policy.Rules.{kind_value, Rule}
use jaro_mail.Product.Buffer.{Buffer, ◌>>=◌, empty, bytes_add}
use jaro_mail.Profile.{Profile}

-- The first mapping of a logical destination.
unfoldable pub find_mapping : Bytes → List (Bytes × Bytes) → Option Bytes
find_mapping logical [] = none
find_mapping logical (m ∷ ms) =
    let later = find_mapping logical ms in if str_eq m.0 logical then some m.1 else later

-- The loop that writes the destination with the namespace's separator.
unfoldable pub mailbox_loop : Buffer → Bytes → Bytes → Option Buffer
mailbox_loop b separator [] = some b
mailbox_loop b separator (c ∷ s) =
    bytes_add b (if c == b'/' then separator else c ∷ []) >>= λ next. mailbox_loop next separator s

-- `none` is the null pointer.
unfoldable pub profile_mailbox : Profile → Rule → Option Bytes
profile_mailbox p r = elim (find_mapping r.logical p.mappings) [
  | some m ↦ some m
  | none ↦
      if str_eq r.logical (codes "known")
      then some (codes "INBOX")
      else if kind_value r.kind == 5
      then some (codes "Spam")
      else bytes_add empty p.prefix >>= λ b. mailbox_loop b p.separator r.logical >>= λ b.
          bytes_add b (0 ∷ []) >>= λ ended. some b.content
]
