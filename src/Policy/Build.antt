-- ===== src/Policy/Build.antt =====
-- src/filter/policy.c, jf_policy_parse, where the allocations succeed.
pub mod Lines
use jaro_mail.Base.{
  ltb, ◌==◌, if◌then◌else◌, length, Bytes, codes, str_eq, ℕ, zero, suc, ◌+◌, ◌*◌, not, none, some,
  List, [], ◌∷◌,
}
use jaro_mail.Result.{Result, ok, ◌>>=◌, argument, input_limit, line_limit, utf8}
use jaro_mail.Text.Utf8.{valid_utf8}
use jaro_mail.Policy.Rules.{Kind, Entry, Policy, sender_field, spam_field}
use jaro_mail.Policy.Lex.{Place, fail}
use jaro_mail.Policy.Parse.{Source, append, parse_line}
use jaro_mail.Policy.Compare.{SourceRef, compare_sources}
use jaro_mail.Policy.Resolve.{Library, resolve}
use jaro_mail.Classify.Build.{build_index}

abbrev pub input_max : ℕ
input_max = 64 * 1024 * 1024

abbrev pub line_max : ℕ
line_max = 65536

-- The line up to a newline, and what follows it.
unfoldable pub split_line : Bytes → Bytes × Bytes
split_line [] = ([], [])
split_line (c ∷ s) =
    let later = split_line s in if c == b'\n' then ([], s) else (c ∷ later.0, later.1)

-- `if (n && data[start+n-1]=='\r') n--`.
unfoldable pub strip_return : Bytes → Bytes
strip_return [] = []
strip_return (c ∷ []) = if c == b'\r' then [] else c ∷ []
strip_return (c ∷ d ∷ s) = c ∷ strip_return (d ∷ s)

-- One line: its limits, and what it says.
unfoldable pub line_step : List Entry → Place → Source → Bytes → Result (List Entry)
line_step entries p s line =
    if ltb line_max (length line)
    then fail p line_limit
    else if not (valid_utf8 line)
    then fail p utf8
    else parse_line entries p s line

-- `while (pos<s->size)`; each line takes a byte at least.
unfoldable pub source_loop : ℕ → List Entry → Place → Source → Bytes → Result (List Entry)
source_loop fuel entries p s [] = ok entries
source_loop zero entries p s (c ∷ rest) = fail p line_limit
source_loop (suc fuel) entries p s (c ∷ rest) =
    let here = record p { line = p.line + 1 } in
    let split = split_line (c ∷ rest) in
    do next ← line_step entries here s (strip_return split.0); source_loop fuel next here s split.1

-- The loop over the sorted sources.
unfoldable pub sources_loop : List Entry → List SourceRef → Result (List Entry)
sources_loop entries [] = ok entries
sources_loop entries (r ∷ rs) = do
  next ←
      source_loop (length r.source.content) entries (record { source = some r.index; line = 0 })
        r.source r.source.content
  sources_loop next rs

-- The checks on the sources, in the order given.
unfoldable pub check_sources : ℕ → List Source → Result (List SourceRef)
check_sources i [] = ok []
check_sources i (s ∷ ss) =
    let p : Place = record { source = some i; line = 0 } in
    let later = (do
      rest ← check_sources (i + 1) ss
      ok (record { source = s; index = i } ∷ rest)) in
    if str_eq s.identity []
    then fail p argument
    else if ltb input_max (length s.content)
    then fail p input_limit
    else later

abbrev pub nowhere : Place
nowhere = record { source = none; line = 0 }

unfoldable pub append_builtins : List Entry → List Entry
append_builtins entries =
    let bounce =
      append entries nowhere none (codes "bounce") (codes "mailman-bounce") (codes "zz.bounces")
        Kind.sender_contains 2 sender_field in
    let spam =
      append bounce nowhere none (codes "spam") (codes "YES") (codes "spam") Kind.spam_is 6
        spam_field in
    append spam nowhere none (codes "unsorted") [] (codes "unsorted") Kind.always 8 0

unfoldable pub policy_parse : Library → List Source → Result Policy
policy_parse library sources = do
  checked ← check_sources 0 sources
  entries ← sources_loop [] (library.sorter.sort SourceRef compare_sources checked)
  resolved ← resolve library nowhere (append_builtins entries)
  ok (build_index library.sorter resolved)
