-- ===== src/Cache/Tests.antt =====
-- src/filter/cache.c: the theorems at concrete inputs.
use jaro_mail.Base.{
  length, Bytes, codes, str_eq, ◌<◌, ◌≡◌, refl, true, false, some, [], ◌∷◌, ◌++◌, arith,
}
use jaro_mail.Policy.Rules.{Kind, Rule}
use jaro_mail.Policy.Resolve.{identify}
use jaro_mail.Cache.Ids.{valid_id-fits, valid_id-identify}
use jaro_mail.Product.Buffer.{
  Buffer, empty, bytes_fits, capacity_loop, new_capacity, bytes_add_limit, bytes_add,
}
use jaro_mail.Cache.Encode.{low_bytes, u32, field, Dependency, dependency}
use jaro_mail.Cache.Fields.{no_nul, read_record}
use jaro_mail.Text.Decimal.{decimal}
use jaro_mail.Cache.Fields.{valid_id, read_decimal}
use jaro_mail.Cache.Restore.{cached_number}
use jaro_mail.Cache.Numbers.{read_decimal-decimal}
use jaro_mail.Cache.Framing.{dependency_fields, read_record-dependency}

abbrev absent : Dependency
absent = record {
  role = codes "link.x";
  path = codes "p";
  present = false;
  digest = [];
  auxiliary = [];
}

abbrev written : Buffer
written = record {
  content =
      codes "D"
      ++ (5 ∷ 0 ∷ 0 ∷ 0 ∷ 6 ∷ 0 ∷ 0 ∷ 0 ∷ [])
      ++ codes "link.x"
      ++ (1 ∷ 0 ∷ 0 ∷ 0 ∷ [])
      ++ codes "p"
      ++ (1 ∷ 0 ∷ 0 ∷ 0 ∷ [])
      ++ codes "0"
      ++ (0 ∷ 0 ∷ 0 ∷ 0 ∷ 0 ∷ 0 ∷ 0 ∷ 0 ∷ []);
  capacity = 256;
}

dependency-absent : dependency empty absent ≡ some written
unfolding dependency field u32 low_bytes bytes_add bytes_add_limit bytes_fits new_capacity
    capacity_loop
dependency-absent = refl

read_record-dependency_example :
    (w : Bytes) × (written.content ≡ empty.content ++ w)
    × ((rest : Bytes) → read_record (w ++ rest) ≡ some (b'D', dependency_fields absent, rest))
unfolding no_nul
read_record-dependency_example =
    read_record-dependency empty absent written refl refl dependency-absent

read_decimal-decimal_example :
    (read_decimal (decimal 1048576) ≡ some 1048576) × (cached_number (decimal 1048576) ≡ 1048576)
read_decimal-decimal_example = read_decimal-decimal 1048576 (omega arith)

valid_id-fits_example : length (codes "builtin:unsorted") < 75
unfolding valid_id str_eq
valid_id-fits_example = valid_id-fits (codes "builtin:unsorted") refl

abbrev known_rule : Rule
known_rule = record {
  kind = Kind.address;
  stage = 5;
  fields = 1;
  selector = codes "known";
  predicate = codes "me@dyne.org";
  action = codes "move";
  logical = codes "known";
  local = codes "known";
  sieve = codes "INBOX";
  source = [];
  source_identity = [];
  line = 1;
  occurrence = 1;
  id = [];
}

valid_id-identify_example : valid_id (identify known_rule) ≡ true
valid_id-identify_example = valid_id-identify known_rule
