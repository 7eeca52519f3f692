-- ===== src/Classify/Tests.antt =====
-- src/filter/classify.c: runs on a small policy, and the theorems at concrete inputs.
use jaro_mail.Base.{
  In, codes, ℕ, String, ◌≡◌, refl, inl, inr, true, false, none, List, [], ◌∷◌, arith,
}
use jaro_mail.Result.{ok, ◌>>=◌}
use jaro_mail.Sorter.Insertion.{insertion}
use jaro_mail.Policy.Rules.{Kind, domain_apex, sender_contains, spam_is, always, Entry, Ref}
use jaro_mail.Classify.Best.{Improves}
use jaro_mail.Classify.Index.Defs.{lookup}
use jaro_mail.Classify.Index.Lookup.{KeyHit, lookup-Improves}
use jaro_mail.Classify.Build.{refs, build_index}
use jaro_mail.Classify.Build.Indexed.{HasBuiltins, build_index-IsIndexed}
use jaro_mail.Classify.Message.Defs.{Message, no_match, Engine, validate, classify}
use jaro_mail.Classify.Message.Spec.{IsIndexed, first_match}
use jaro_mail.Classify.Message.Legacy.{IsReliable}
use jaro_mail.Classify.Message.Winner.{classify-build_index}

abbrev rule : Kind → ℕ → ℕ → String → String → Entry
rule kind stage fields predicate logical = record {
  rule = record {
    kind = kind;
    stage = stage;
    fields = fields;
    selector = [];
    predicate = codes predicate;
    action = codes "move";
    logical = codes logical;
    local = codes logical;
    sieve = codes logical;
    source = [];
    source_identity = [];
    line = 0;
    occurrence = 1;
    id = [];
  };
  discard = false;
  order = 0;
  input_index = 0;
}

abbrev sample : List Entry
sample =
    rule sender_contains 2 2 "mailman-bounce" "zz.bounces"
    ∷ rule domain_apex 3 3 "dyne.org" "lists"
    ∷ rule spam_is 6 16 "YES" "spam"
    ∷ rule always 8 0 "" "unsorted"
    ∷ []

abbrev mail : Message
mail = record {
  addresses = record { field = 1; value = codes "jaromil@Dyne.org" } ∷ [];
  senders = [];
  spam_flags = codes " yes" ∷ [];
}

abbrev quiet : Engine
quiet = record { regexec = λ pattern text. no_match; uselocale = true }

quiet-IsReliable : IsReliable quiet
quiet-IsReliable = record { answers = λ p t h. cc h; locale = refl }

sample-HasBuiltins : HasBuiltins sample
sample-HasBuiltins = record {
  bounce_at = record {
    position = 0;
    entry = rule sender_contains 2 2 "mailman-bounce" "zz.bounces";
  };
  bounce_alone = record { inside = inl refl; of_kind = refl; unique = λ s i k. ground arith };
  spam_at = record { position = 2; entry = rule spam_is 6 16 "YES" "spam" };
  spam_alone = record {
    inside = inr (inr (inl refl));
    of_kind = refl;
    unique = λ s i k. ground arith;
  };
  fallback_at = record { position = 3; entry = rule always 8 0 "" "unsorted" };
  fallback_alone = record {
    inside = inr (inr (inr (inl refl)));
    of_kind = refl;
    unique = λ s i k. ground arith;
  };
  fallback_last = λ r i. ground arith;
}

classify-build_index_example :
    classify quiet (build_index insertion sample) mail
    ≡ (validate mail >>= λ total. ok (first_match quiet mail (refs sample)))
classify-build_index_example =
    classify-build_index quiet insertion sample mail quiet-IsReliable sample-HasBuiltins

build_index-IsIndexed_example : IsIndexed (build_index insertion sample)
build_index-IsIndexed_example = build_index-IsIndexed insertion sample sample-HasBuiltins

abbrev one_ref : Ref
one_ref = record { position = 1; entry = rule domain_apex 3 3 "dyne.org" "lists" }

lookup-Improves_example :
    Improves
      (λ s. In s (one_ref ∷ []) × KeyHit domain_apex (codes "dyne.org") 1 s)
      none
      (lookup (one_ref ∷ []) domain_apex (codes "dyne.org") 1 none)
lookup-Improves_example =
    lookup-Improves domain_apex (codes "dyne.org") 1 (one_ref ∷ []) none (tt, tt)
