-- ===== src/Cache/Framing.antt =====
-- src/filter/cache.c: the record of a dependency is read back.
use jaro_mail.Base.{
  ltb, if◌then◌else◌, Bool-cases, length, take, drop, length-append, All, Bytes, codes, ℕ, suc, ◌+◌,
  ◌-◌, ◌*◌, ◌/◌, ◌%◌, ◌^◌, ◌<◌, ◌≡◌, refl, sym, ap, ◌∙◌, inl, inr, true, false, ◌||◌, none, some,
  List, [], ◌∷◌, ◌++◌, append-nil, append_assoc, arith,
}
use jaro_mail.Product.Buffer.{Buffer, bytes_add}
use jaro_mail.Product.Buffer.Growth.{then_appends, bytes_add-content, bind-eq-some}
use jaro_mail.Cache.Encode.{low_bytes, u32, field, Dependency, dependency}
use jaro_mail.Cache.Fields.{
  no_nul, nul_allowed, field_count, read32, read_field, read_fields, read_record,
}

-- A field as it is written.
abbrev field_bytes : Bytes → Bytes
field_bytes s = low_bytes 4 (length s) ++ s

field-writes :
    (b : Buffer) (s : Bytes) (b' : Buffer)
    → field b s ≡ some b'
    → (length s < 2 ^ 32) × (b'.content ≡ b.content ++ field_bytes s)
unfolding field u32
field-writes b s b' h = elim (Bool-cases (ltb (2 ^ 32 - 1) (length s))) [
  | inl large ↦ absurd (cc (rw large at h))
  | inr small ↦
      let (mid, first, rest) =
        bind-eq-some (bytes_add b (low_bytes 4 (length s))) (λ m. bytes_add m s) (rw small at h) in
      (
        ground arith,
        then_appends b.content (low_bytes 4 (length s)) s (bytes_add-content b _ first)
            (bytes_add-content mid s rest),
      )
]

read32-low_bytes :
    (n : ℕ) (rest : Bytes) → n < 2 ^ 32 → read32 (low_bytes 4 n ++ rest) ≡ some (n, rest)
unfolding read32 low_bytes
read32-low_bytes n rest h =
    let sum : n % 256
          + n / 256 % 256 * 2 ^ 8
          + n / 256 / 256 % 256 * 2 ^ 16
          + n / 256 / 256 / 256 % 256 * 2 ^ 24
        ≡ n =
      omega arith in
    ap (λ m. some (m, rest)) sum

take-length : (s rest : Bytes) → take (length s) (s ++ rest) ≡ s
take-length [] rest = refl
take-length (c ∷ s) rest = ap (λ t. c ∷ t) (take-length s rest)

drop-append : (s rest : Bytes) → drop (length s) (s ++ rest) ≡ rest
drop-append [] rest = refl
drop-append (c ∷ s) rest = drop-append s rest

read_field-size :
    (t u : Bytes) (n : ℕ)
    → read32 t ≡ some (n, u)
    → read_field t ≡ (if ltb (length u) n then none else some (take n u, drop n u))
unfolding read_field
read_field-size t u n h = rw (h, read_field) refl

read_field-bytes :
    (s rest : Bytes) → length s < 2 ^ 32 → read_field (field_bytes s ++ rest) ≡ some (s, rest)
read_field-bytes s rest h =
    let room : ltb (length (s ++ rest)) (length s) ≡ false = ground (arith, length-append s rest) in
    let size =
      ap read32 (append_assoc (low_bytes 4 (length s)) s rest)
      ∙ read32-low_bytes (length s) (s ++ rest) h in
    read_field-size (field_bytes s ++ rest) (s ++ rest) (length s) size
    ∙ rw (room, take-length s rest, drop-append s rest) refl

-- The fields of a record, as they are written.
abbrev all_fields : List Bytes → Bytes
all_fields [] = []
all_fields (s ∷ ss) = field_bytes s ++ all_fields ss

-- The fields of a record from the `j`th on can be read back.
IsFramed : ℕ → ℕ → List Bytes → Type 0
IsFramed tag j [] = Unit
IsFramed tag j (s ∷ ss) =
    (length s < 2 ^ 32) × ((nul_allowed tag j || no_nul s) ≡ true) × IsFramed tag (j + 1) ss

read_fields-step :
    (tag j n : ℕ) (t : Bytes) (s u : Bytes) (ss : List Bytes) (rest : Bytes)
    → read_field t ≡ some (s, u)
    → read_fields tag (j + 1) n u ≡ some (ss, rest)
    → (nul_allowed tag j || no_nul s) ≡ true
    → read_fields tag j (suc n) t ≡ some (s ∷ ss, rest)
unfolding read_fields
read_fields-step tag j n t s u ss rest h k plain = rw (h, k, plain, read_fields) refl

read_fields-IsFramed :
    (tag j : ℕ) (ss : List Bytes) (rest : Bytes)
    → IsFramed tag j ss
    → read_fields tag j (length ss) (all_fields ss ++ rest) ≡ some (ss, rest)
unfolding read_fields IsFramed
read_fields-IsFramed tag j [] rest h = refl
read_fields-IsFramed tag j (s ∷ ss) rest h =
    read_fields-step tag j (length ss) _ s (all_fields ss ++ rest) ss rest
      (ap read_field (append_assoc (field_bytes s) (all_fields ss) rest)
        ∙ read_field-bytes s (all_fields ss ++ rest) h.0)
      (read_fields-IsFramed tag (j + 1) ss rest h.2) h.1

-- The five fields of a dependency.
abbrev pub dependency_fields : Dependency → List Bytes
dependency_fields d =
    d.role
    ∷ d.path
    ∷ (if d.present then codes "1" else codes "0")
    ∷ (if d.present then take 32 d.digest else [])
    ∷ d.auxiliary
    ∷ []

dependency-writes :
    (b : Buffer) (d : Dependency) (b' : Buffer)
    → dependency b d ≡ some b'
    → All (λ s. length s < 2 ^ 32) (dependency_fields d)
      × (b'.content ≡ b.content ++ (b'D' ∷ low_bytes 4 5 ++ all_fields (dependency_fields d)))
unfolding dependency u32
dependency-writes b d b' h =
    let (b1, e1, h1) = bind-eq-some (bytes_add b (codes "D")) _ h in
    let (b2, e2, h2) = bind-eq-some (bytes_add b1 (low_bytes 4 5)) _ h1 in
    let (b3, e3, h3) = bind-eq-some (field b2 d.role) _ h2 in
    let (b4, e4, h4) = bind-eq-some (field b3 d.path) _ h3 in
    let (b5, e5, h5) = bind-eq-some (field b4 (if d.present then codes "1" else codes "0")) _ h4 in
    let (b6, e6, h6) = bind-eq-some (field b5 (if d.present then take 32 d.digest else [])) _ h5 in
    let w3 = field-writes b2 d.role b3 e3 in
    let w4 = field-writes b3 d.path b4 e4 in
    let w5 = field-writes b4 (if d.present then codes "1" else codes "0") b5 e5 in
    let w6 = field-writes b5 (if d.present then take 32 d.digest else []) b6 e6 in
    let w7 = field-writes b6 d.auxiliary b' h6 in
    let last = w7.1 ∙ ap (λ t. b6.content ++ t) (sym (append-nil (field_bytes d.auxiliary))) in
    let from5 = then_appends b5.content _ _ w6.1 last in
    let from4 = then_appends b4.content _ _ w5.1 from5 in
    let from3 = then_appends b3.content _ _ w4.1 from4 in
    let from2 = then_appends b2.content _ _ w3.1 from3 in
    let from1 = then_appends b1.content _ _ (bytes_add-content b1 (low_bytes 4 5) e2) from2 in
    (
      (w3.0, (w4.0, (w5.0, (w6.0, (w7.0, tt))))),
      then_appends b.content (codes "D") _ (bytes_add-content b (codes "D") e1) from1,
    )

dependency-IsFramed :
    (d : Dependency)
    → All (λ s. length s < 2 ^ 32) (dependency_fields d)
    → no_nul d.role ≡ true
    → no_nul d.path ≡ true
    → IsFramed b'D' 0 (dependency_fields d)
unfolding IsFramed nul_allowed no_nul
dependency-IsFramed d (a, (b, (c, (e, (f, u))))) role path =
    (a, role, (b, path, (c, ground arith, (e, refl, (f, refl, tt)))))

read_record-step :
    (t u : Bytes) (ss : List Bytes) (rest : Bytes)
    → read32 t ≡ some (5, u)
    → read_fields b'D' 0 5 u ≡ some (ss, rest)
    → read_record (b'D' ∷ t) ≡ some (b'D', ss, rest)
unfolding read_record field_count
read_record-step t u ss rest h k = rw (h, k, read_record) refl

-- Where `dependency` succeeds on a role and a path without NUL, it appends one record, and the reader
-- of records accepts it, gives back the tag and the five fields of the dependency, and stops where
-- the record ends, whatever follows.
pub read_record-dependency :
    (b : Buffer) (d : Dependency) (b' : Buffer)
    → no_nul d.role ≡ true
    → no_nul d.path ≡ true
    → dependency b d ≡ some b'
    → (w : Bytes) × (b'.content ≡ b.content ++ w)
      × ((rest : Bytes) → read_record (w ++ rest) ≡ some (b'D', dependency_fields d, rest))
read_record-dependency b d b' role path h =
    let (sizes, same) = dependency-writes b d b' h in
    let fields = all_fields (dependency_fields d) in
    let framed = dependency-IsFramed d sizes role path in
    (
      b'D' ∷ low_bytes 4 5 ++ fields,
      same,
      λ rest.
          read_record-step _ (fields ++ rest) (dependency_fields d) rest
            (ap read32 (append_assoc (low_bytes 4 5) fields rest)
              ∙ read32-low_bytes 5 (fields ++ rest) (omega arith))
            (read_fields-IsFramed b'D' 0 (dependency_fields d) rest framed),
    )
