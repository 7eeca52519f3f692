-- ===== src/Profile/Tests.antt =====
-- src/filter/profile.c: the theorem on destinations at a concrete input.
use jaro_mail.Base.{codes, ◌≡◌}
use jaro_mail.Policy.Parse.{valid_destination}
use jaro_mail.Profile.{is_logical}
use jaro_mail.Profile.Paths.{is_logical-valid_destination}

is_logical-valid_destination_example :
    is_logical (codes "lists/dyne") ≡ valid_destination (codes "lists/dyne")
is_logical-valid_destination_example = is_logical-valid_destination (codes "lists/dyne")
