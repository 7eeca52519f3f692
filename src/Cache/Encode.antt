-- ===== src/Cache/Encode.antt =====
-- src/filter/cache.c: what is written, up to the fingerprint of the dependencies.
use jaro_mail.Base.{
  ltb, if◌then◌else◌, length, take, Bytes, codes, str_eq, strcmp, ℕ, zero, suc, ◌-◌, ◌/◌, ◌%◌, ◌^◌,
  Ordering, Bool, true, false, ◌||◌, Option, none, some, List, [], ◌∷◌, ◌++◌,
}
use jaro_mail.Sorter.Defs.{Sorter}
use jaro_mail.Text.Decimal.{decimal}
use jaro_mail.Product.Buffer.{Buffer, ◌>>=◌, empty, bytes_add}

-- The `n` low bytes of a number, the lowest first.
unfoldable pub low_bytes : ℕ → ℕ → Bytes
low_bytes zero x = []
low_bytes (suc n) x = x % 256 ∷ low_bytes n (x / 256)

unfoldable pub u32 : Buffer → ℕ → Option Buffer
u32 b n = bytes_add b (low_bytes 4 n)

unfoldable pub u64 : Buffer → ℕ → Option Buffer
u64 b n = bytes_add b (low_bytes 8 n)

unfoldable pub field : Buffer → Bytes → Option Buffer
field b s = if ltb (2 ^ 32 - 1) (length s) then none else u32 b (length s) >>= λ b. bytes_add b s

unfoldable pub number : Buffer → ℕ → Option Buffer
number b n = field b (decimal n)

-- struct jf_dependency; the digest has 32 bytes.
pub record Dependency : Type 0 where
  pub role : Bytes
  pub path : Bytes
  pub present : Bool
  pub digest : Bytes
  pub auxiliary : Bytes

unfoldable pub dependency : Buffer → Dependency → Option Buffer
dependency b d = do
  b ← bytes_add b (codes "D")
  b ← u32 b 5
  b ← field b d.role
  b ← field b d.path
  b ← field b (if d.present then codes "1" else codes "0")
  b ← field b (if d.present then take 32 d.digest else [])
  field b d.auxiliary

unfoldable pub dep_compare : Dependency → Dependency → Ordering
dep_compare x y = elim (strcmp x.role y.role) [ Ordering.eq ↦ strcmp x.path y.path | other ↦ other ]

abbrev pub dependency_max : ℕ
dependency_max = 100000

-- What the loop over the sorted dependencies comes to: status 3, status 4, or the buffer.
pub data Inventory : Type 0 where
  exhausted duplicate : Inventory
  inventory : Buffer → Inventory

-- An empty role, or the key of the dependency before.
unfoldable pub bad_key : Option Dependency → Dependency → Bool
bad_key previous d = str_eq d.role [] || elim previous [
  | none ↦ false
  | some before ↦ elim (dep_compare before d) [ Ordering.eq ↦ true | _ ↦ false ]
]

unfoldable pub inventory_loop : Buffer → Option Dependency → List Dependency → Inventory
inventory_loop b previous [] = inventory b
inventory_loop b previous (d ∷ ds) =
    if bad_key previous d
    then duplicate
    else elim (dependency b d) [ none ↦ exhausted | some next ↦ inventory_loop next (some d) ds ]

-- `jf_dependencies_fingerprint` up to the digest. The prefix is written with its NUL.
unfoldable pub dependencies_inventory : Sorter → List Dependency → Inventory
dependencies_inventory sorter deps =
    if ltb dependency_max (length deps)
    then exhausted
    else elim (bytes_add empty (codes "JFFP1" ++ 0 ∷ [])) [
      | none ↦ exhausted
      | some b ↦ inventory_loop b none (sorter.sort Dependency dep_compare deps)
    ]
