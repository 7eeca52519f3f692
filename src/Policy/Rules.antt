-- ===== src/Policy/Rules.antt =====
-- src/filter/policy.h and policy_internal.h: the rules of a policy and its entries.
use jaro_mail.Base.{ltb, Bytes, ℕ, suc, Bool, Option, none, some, List}

-- enum jf_kind.
pub data Kind : Type 0 where
  address domain_apex domain_subdomains ere sender_contains spam_is always : Kind

-- The enumerator's value.
abbrev pub kind_value : Kind → ℕ
kind_value address = 0
kind_value domain_apex = 1
kind_value domain_subdomains = 2
kind_value ere = 3
kind_value sender_contains = 4
kind_value spam_is = 5
kind_value always = 6

-- enum jf_field, the bits of a field mask.
abbrev pub from_field : ℕ
from_field = 1

abbrev pub sender_field : ℕ
sender_field = 2

abbrev pub to_field : ℕ
to_field = 4

abbrev pub cc_field : ℕ
cc_field = 8

abbrev pub spam_field : ℕ
spam_field = 16

-- struct jf_rule.
pub record Rule : Type 0 where
  pub kind : Kind
  pub stage : ℕ
  pub fields : ℕ
  pub selector : Bytes
  pub predicate : Bytes
  pub action : Bytes
  pub logical : Bytes
  pub local : Bytes
  pub sieve : Bytes
  pub source : Bytes
  pub source_identity : Bytes
  pub line : ℕ
  pub occurrence : ℕ
  pub id : Bytes

-- struct jf_entry, less the compiled regex, which is a function of the predicate.
pub record Entry : Type 0 where
  pub rule : Rule
  pub discard : Bool
  pub order : ℕ
  pub input_index : ℕ

-- `struct jf_entry *` into the array of entries, which no longer changes: the position and what
-- stands there. Pointers into an array compare by position.
pub record Ref : Type 0 where
  pub position : ℕ
  pub entry : Entry

-- The null pointer compares below every other.
abbrev pub address_of : Option Ref → ℕ
address_of none = 0
address_of (some r) = suc r.position

abbrev pub before : Option Ref → Option Ref → Bool
before a b = ltb (address_of a) (address_of b)

-- struct jf_policy, as far as classification reads it.
pub record Policy : Type 0 where
  pub entries : List Entry
  pub index : List Ref
  pub legacy : List Ref
  pub bounce : Option Ref
  pub spam : Option Ref
  pub fallback : Option Ref
