-- ===== src/Cache/Dependencies.antt =====
-- src/filter/cache.c, jf_cache_dependencies, where the allocations succeed.
use jaro_mail.Base.{
  ltb, ◌==◌, if◌then◌else◌, length, drop, Bytes, codes, str_eq, ℕ, zero, suc, not, Option, none,
  some, List, [], ◌∷◌, ◌++◌,
}
use jaro_mail.Cache.Encode.{Dependency, dependency_max}
use jaro_mail.Cache.Fields.{read32, read_field}

-- The fields of a record, of any tag.
unfoldable pub read_views : ℕ → Bytes → Option (List Bytes × Bytes)
read_views zero s = some ([], s)
read_views (suc n) s = elim (read_field s) [
  | none ↦ none
  | some r ↦ elim (read_views n r.1) [ none ↦ none | some later ↦ some (r.0 ∷ later.0, later.1) ]
]

-- The digest is cleared before it is filled.
abbrev pad : ℕ → Bytes → Bytes
pad zero s = s
pad (suc n) [] = 0 ∷ pad n []
pad (suc n) (c ∷ s) = c ∷ pad n s

-- The dependency that a record with the tag `D` stands for.
unfoldable pub view_dependency : List Bytes → Option Dependency
view_dependency (role ∷ path ∷ flag ∷ digest ∷ auxiliary ∷ []) =
    if ltb 32 (length digest)
    then none
    else some (record {
      role = role;
      path = path;
      present = str_eq flag (codes "1");
      digest = pad 32 digest;
      auxiliary = auxiliary;
    })
view_dependency fields = none

-- One round of the loop: the dependencies with that of the record, if it is one.
unfoldable pub record_round : List Dependency → ℕ → List Bytes → Option (List Dependency)
record_round deps tag fields =
    if not (tag == b'D')
    then some deps
    else if length deps == dependency_max
    then none
    else elim (view_dependency fields) [ none ↦ none | some d ↦ some (deps ++ d ∷ []) ]

-- The loop over the records, and the test that nothing is left.
unfoldable pub records_loop : ℕ → List Dependency → Bytes → Option (List Dependency)
records_loop zero deps s = if str_eq s [] then some deps else none
records_loop (suc count) deps [] = none
records_loop (suc count) deps (tag ∷ s) = elim (read32 s) [
  | none ↦ none
  | some r ↦ if ltb 12 r.0 then none else elim (read_views r.0 r.1) [
    | none ↦ none
    | some f ↦ elim (record_round deps tag f.0) [
      | none ↦ none
      | some next ↦ records_loop count next f.1
    ]
  ]
]

-- `none` is the status 5.
unfoldable pub cache_dependencies : Bytes → Option (List Dependency)
cache_dependencies cache = elim (read32 (drop 88 cache)) [
  | none ↦ none
  | some r ↦ records_loop r.0 [] r.1
]
