-- ===== src/Profile.antt =====
-- src/filter/profile.c: the export profile, and the mailbox that a rule files into. The digest that
-- `regex-qualification` must name comes from a file that the build generates, so it is a parameter.
pub mod Paths
mod Tests
pub mod Mailbox
use jaro_mail.Base.{
  ltb, leb, ◌==◌, if◌then◌else◌, ltb→lt, lt→ltb, leb→le, ==_iff, ==_refl, Bool-cases, Option-cases,
  &&-eq-true, within, length, get_elem?, take, drop, length-append, All, all, any, All-append,
  All-get_elem?, get_elem?-some, All-map, In, In-take-or-drop, In-drop, All-In, drop-length, Bytes,
  codes, str_eq, str_eq_iff, in_set, strcmp, strcmp_iff, strcmp_antisymm, strcmp_trans,
  strcmp_lt_le_trans, StrLe, ℕ, zero, suc, ◌+◌, ◌-◌, ◌*◌, ◌/◌, ◌%◌, ◌^◌, ◌≤◌, ◌<◌, min, max,
  compare, Ordering, String, ◌≡◌, refl, sym, ap, ap₂, ◌∙◌, subst, ◌≡⟨◌⟩◌, ◌∎, ◌≢◌, ◌↔◌, ◌⊎◌, inl,
  inr, Bool, true, false, not, ◌&&◌, ◌||◌, Option, none, some, List, [], ◌∷◌, ◌++◌, map, foldl,
  append-nil, append_assoc, reverse, reverse-append, reverse-reverse, arith,
}
use jaro_mail.Result.{
  Result, ok, err, ◌>>=◌, Code, input_limit, profile, capability, regex_qualification,
}
use jaro_mail.Text.Ascii.{control}
use jaro_mail.Policy.Rules.{Kind, kind_value, Rule}
use jaro_mail.Policy.Rules
use jaro_mail.Policy.Lex.{Place, policy_tokens}
use jaro_mail.Policy.Parse.{bad_component}
use jaro_mail.Policy.Resolve.{rule_max}
use jaro_mail.Policy.Build.{input_max, split_line, strip_return}
use jaro_mail.Product.Buffer.{product_error}

-- struct jf_profile, with its mappings of a logical destination to a mailbox.
pub record Profile : Type 0 where
  pub id : Bytes
  pub prefix : Bytes
  pub separator : Bytes
  pub create : Bool
  pub fileinto : Bool
  pub mailbox : Bool
  pub regex : Bool
  pub mappings : List (Bytes × Bytes)

abbrev core : Bytes
core = codes "core-v1"

abbrev pigeonhole : Bytes
pigeonhole = codes "pigeonhole-2.4.5-posix-ere-v1"

unfoldable pub text_loop : Bytes → Bool
text_loop [] = true
text_loop (c ∷ s) = let later = text_loop s in if control c then false else later

-- `text(s,empty)`.
unfoldable pub is_text : Bytes → Bool → Bool
is_text s may_be_empty = if not may_be_empty && str_eq s [] then false else text_loop s

-- The loop of `logical`; `word` holds the component's bytes so far.
unfoldable pub logical_loop : Bytes → Bytes → Bool
logical_loop word [] = not (bad_component word)
logical_loop word (c ∷ s) =
    let next = logical_loop [] s in
    let same = logical_loop (word ++ c ∷ []) s in
    if c == b'/' then if bad_component word then false else next else same

unfoldable pub is_logical : Bytes → Bool
is_logical s =
    if not (is_text s false) || str_eq (take 1 s) (codes "/") then false else logical_loop [] s

-- The state of the parser: the profile, and `seen`.
pub record State : Type 0 where
  pub profile : Profile
  pub seen : ℕ

unfoldable pub start : Bytes → State
start content =
    let is_empty = str_eq content [] in
    record {
      profile = record {
        id = if is_empty then pigeonhole else core;
        prefix = [];
        separator = codes "/";
        create = true;
        fileinto = is_empty;
        mailbox = is_empty;
        regex = is_empty;
        mappings = [];
      };
      seen = 0;
    }

-- `seen&bit`, for a power of two.
abbrev pub has_bit : ℕ → ℕ → Bool
has_bit seen bit = not (seen / bit % 2 == 0)

-- The bit of a setting; 0 for every other word.
unfoldable pub setting_bit : Bytes → ℕ
setting_bit t =
    if str_eq t (codes "version")
    then 1
    else if str_eq t (codes "profile")
    then 2
    else if str_eq t (codes "create-mailboxes")
    then 4
    else if str_eq t (codes "namespace-prefix")
    then 8
    else if str_eq t (codes "namespace-separator")
    then 16
    else if str_eq t (codes "regex-qualification")
    then 32
    else 0

unfoldable pub add_capability : ℕ → Profile → Bytes → Result Profile
add_capability line p v =
    if str_eq v (codes "fileinto")
    then if p.fileinto then product_error profile line else ok (record p { fileinto = true })
    else if str_eq v (codes "mailbox")
    then if p.mailbox then product_error profile line else ok (record p { mailbox = true })
    else if str_eq v (codes "regex")
    then if p.regex then product_error profile line else ok (record p { regex = true })
    else product_error capability line

unfoldable pub add_mapping : ℕ → Profile → Bytes → Bytes → Result Profile
add_mapping line p source target =
    if not (is_logical source)
      || not (is_text target false)
      || length p.mappings == rule_max
      || any (λ (m : Bytes × Bytes). str_eq source m.0) p.mappings
    then product_error profile line
    else ok (record p { mappings = p.mappings ++ (source, target) ∷ [] })

-- The checks behind the loop.
unfoldable pub check_profile : Bytes → State → Result Profile
check_profile content s =
    let p = s.profile in
    let given = not (str_eq content []) in
    let is_core = str_eq p.id core in
    if given && not (has_bit s.seen 1 && has_bit s.seen 2)
    then product_error profile 0
    else if not p.fileinto || p.create && not p.mailbox
    then product_error capability 0
    else if is_core && (p.regex || has_bit s.seen 32)
        || not is_core && (not p.regex || given && not (has_bit s.seen 32))
    then product_error regex_qualification 0
    else ok p

module _ (qualification : Bytes) where
  -- A setting with its value, which was not seen before.
  unfoldable pub set_value : ℕ → Profile → ℕ → Bytes → Result Profile
  set_value line p bit v =
      if bit == 1
      then if str_eq v (codes "1") then ok p else product_error profile line
      else if bit == 2
      then if str_eq v core || str_eq v pigeonhole
        then ok (record p { id = v })
        else product_error profile line
      else if bit == 32
      then if str_eq v qualification then ok p else product_error regex_qualification line
      else if bit == 4
      then if str_eq v (codes "yes")
        then ok (record p { create = true })
        else if str_eq v (codes "no")
        then ok (record p { create = false })
        else product_error profile line
      else if not (is_text v true)
      then product_error profile line
      else if bit == 8
      then ok (record p { prefix = v })
      else ok (record p { separator = v })

  -- The tokens of a line.
  unfoldable pub record_step : ℕ → State → List Bytes → Result State
  record_step line s [] = ok s
  record_step line s (t ∷ ts) =
      let bit = setting_bit t in
      let one : Result Profile = elim ts [
        | v ∷ [] ↦
            if not (bit == 0)
            then if has_bit s.seen bit
              then product_error profile line
              else set_value line s.profile bit v
            else if str_eq t (codes "capability")
            then add_capability line s.profile v
            else product_error profile line
        | v ∷ w ∷ [] ↦
            if bit == 0 && str_eq t (codes "mailbox")
            then add_mapping line s.profile v w
            else product_error profile line
        | _ ↦ product_error profile line
      ] in
      one >>= λ p. ok (record { profile = p; seen = s.seen + bit })

  -- `while (pos<size)`; each line takes a byte at least.
  unfoldable pub profile_loop : ℕ → ℕ → State → Bytes → Result State
  profile_loop fuel line s [] = ok s
  profile_loop zero line s (c ∷ rest) = product_error profile line
  profile_loop (suc fuel) line s (c ∷ rest) =
      let here : Place = record { source = some 0; line = line + 1 } in
      let split = split_line (c ∷ rest) in
      do
        ts ← policy_tokens here (strip_return split.0)
        next ← record_step (line + 1) s ts
        profile_loop fuel (line + 1) next split.1

  unfoldable pub profile_parse : Bytes → Result Profile
  profile_parse content =
      if ltb input_max (length content)
      then product_error input_limit 0
      else profile_loop (length content) 0 (start content) content >>= λ s. check_profile content s
