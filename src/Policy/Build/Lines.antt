-- ===== src/Policy/Build/Lines.antt =====
-- src/filter/policy.c, jf_policy_parse: how a source is split into lines.
use jaro_mail.Base.{
  ◌==◌, if◌then◌else◌, length, length-append, All, All-append, Bytes, ℕ, zero, suc, ◌+◌, ◌≤◌, ◌<◌,
  ◌≡◌, refl, ap, ◌∙◌, ◌≢◌, Bool, true, false, List, [], ◌∷◌, ◌++◌, arith,
}
use jaro_mail.Result.{Result, ok, err, ◌>>=◌}
use jaro_mail.Policy.Rules.{Entry}
use jaro_mail.Policy.Lex.{Place}
use jaro_mail.Policy.Parse.{Source}
use jaro_mail.Policy.Build.{split_line, strip_return, line_step, source_loop}

-- A line without a newline and without a carriage return at its end.
abbrev pub IsLine : Bytes → Type 0
IsLine l = All (λ c. c ≢ b'\n') l × (strip_return l ≡ l)

-- A line with its ending, CR LF where the flag is set.
abbrev pub ended : Bytes × Bool → Bytes
ended x = if x.1 then x.0 ++ b'\r' ∷ [] else x.0

abbrev pub lines_text : List (Bytes × Bool) → Bytes
lines_text [] = []
lines_text (x ∷ xs) = ended x ++ b'\n' ∷ lines_text xs

-- The lines one after the other, numbered from the one after `p`.
abbrev pub each_line : List Entry → Place → Source → List (Bytes × Bool) → Result (List Entry)
each_line entries p s [] = ok entries
each_line entries p s (x ∷ xs) =
    line_step entries (record p { line = p.line + 1 }) s x.0 >>= λ next.
    each_line next (record p { line = p.line + 1 }) s xs

bind-ext :
    {S : Type 0} {T : Type 0} (r : Result S) (f g : S → Result T)
    → ((s : S) → f s ≡ g s)
    → (r >>= f) ≡ (r >>= g)
bind-ext (ok s) f g h = h s
bind-ext (err why) f g h = refl

split_line-newline :
    (l rest : Bytes) → All (λ c. c ≢ b'\n') l → split_line (l ++ b'\n' ∷ rest) ≡ (l, rest)
unfolding split_line
split_line-newline [] rest h = refl
split_line-newline (c ∷ l) rest h =
    let other : (c == b'\n') ≡ false = ground arith in
    rw (other, split_line-newline l rest h.1) refl

strip_return-append : (l : Bytes) → strip_return (l ++ b'\r' ∷ []) ≡ l
unfolding strip_return
strip_return-append [] = refl
strip_return-append (c ∷ []) = refl
strip_return-append (c ∷ d ∷ l) = ap (λ t. c ∷ t) (strip_return-append (d ∷ l))

source_loop-step :
    (fuel : ℕ) (entries : List Entry) (p : Place) (s : Source) (content line rest : Bytes)
    → 0 < length content
    → split_line content ≡ (line, rest)
    → source_loop (suc fuel) entries p s content ≡ (
        line_step entries (record p { line = p.line + 1 }) s (strip_return line) >>= λ next.
        source_loop fuel next (record p { line = p.line + 1 }) s rest)
unfolding source_loop
source_loop-step fuel entries p s [] line rest h e = absurd (omega arith)
source_loop-step fuel entries p s (c ∷ content) line rest h e = rw e refl

ended-plain :
    (x : Bytes × Bool)
    → IsLine x.0
    → All (λ c. c ≢ b'\n') (ended x) × (strip_return (ended x) ≡ x.0)
ended-plain (l, true) h =
    (All-append (λ c. c ≢ b'\n') l (b'\r' ∷ []) h.0 (omega arith, tt), strip_return-append l)
ended-plain (l, false) h = h

-- On lines that end in LF or CR LF, the loop over a source reads each line without its ending and
-- with its number from 1 on (from the one after `p`), in order, up to the first that fails; fuel of
-- the length of the source is enough.
pub source_loop-each_line :
    (fuel : ℕ) (entries : List Entry) (p : Place) (s : Source) (xs : List (Bytes × Bool))
    → All (λ x. IsLine x.0) xs
    → length (lines_text xs) ≤ fuel
    → source_loop fuel entries p s (lines_text xs) ≡ each_line entries p s xs
unfolding source_loop
source_loop-each_line fuel entries p s [] h enough = refl
source_loop-each_line zero entries p s (x ∷ xs) h enough =
    absurd (omega (arith, length-append (ended x) (b'\n' ∷ lines_text xs)))
source_loop-each_line (suc fuel) entries p s (x ∷ xs) h enough =
    let size = length-append (ended x) (b'\n' ∷ lines_text xs) in
    let (plain, stripped) = ended-plain x h.0 in
    source_loop-step fuel entries p s _ (ended x) (lines_text xs) (omega (arith, size))
      (split_line-newline (ended x) (lines_text xs) plain)
    ∙ ap
        (λ l. line_step entries (record p { line = p.line + 1 }) s l >>= λ next.
          source_loop fuel next (record p { line = p.line + 1 }) s (lines_text xs))
        stripped
    ∙ bind-ext (line_step entries (record p { line = p.line + 1 }) s x.0) _ _ (λ next.
      source_loop-each_line fuel next (record p { line = p.line + 1 }) s xs h.1
        (omega (arith, size)))
