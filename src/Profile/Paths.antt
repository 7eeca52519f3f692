-- ===== src/Profile/Paths.antt =====
-- src/filter/profile.c, logical, and src/filter/policy.c, destination: the two tests agree.
use jaro_mail.Base.{if◌then◌else◌, Bytes, str_eq, ◌≡◌, refl, false, [], ◌∷◌, ◌++◌, arith}
use jaro_mail.Policy.Parse.{destination_loop, valid_destination}
use jaro_mail.Profile.{text_loop, is_text, logical_loop, is_logical}

logical_loop-agrees :
    (word s : Bytes)
    → (if text_loop s then logical_loop word s else false) ≡ destination_loop word s
unfolding text_loop logical_loop destination_loop
logical_loop-agrees word [] = refl
logical_loop-agrees word (c ∷ s) =
    let same = logical_loop-agrees (word ++ c ∷ []) s in
    let next = logical_loop-agrees [] s in ground arith

-- The test that a profile makes on the logical destination of a mapping accepts the same strings
-- as the test that a policy makes on the destination of a rule.
pub is_logical-valid_destination : (s : Bytes) → is_logical s ≡ valid_destination s
unfolding is_logical is_text valid_destination str_eq
is_logical-valid_destination [] = refl
is_logical-valid_destination (c ∷ s) = let same = logical_loop-agrees [] (c ∷ s) in ground arith
