-- ===== src/Sha256/Tests.antt =====
-- src/filter/sha256.c: a known digest, and the theorem on updates at concrete inputs.
use jaro_mail.Base.{codes, ◌≡◌, refl, ◌++◌, arith}
use jaro_mail.Sha256.{
  rotate, rounds, round_step, load_words, extend, transform, init, flush, update_loop, update,
  pad_loop, hex, sha256,
}
use jaro_mail.Sha256.Stream.{HasRoom, update-append}

-- The digest of "abc" that FIPS 180-4 gives.
sha256_abc :
    sha256 (codes "abc") ≡ codes "ba7816bf8f01cfea414140de5dae2223b00361a396177a9cb410ff61f20015ad"
unfolding sha256 hex update update_loop flush transform init pad_loop rounds extend load_words
    round_step rotate
sha256_abc = refl

init-HasRoom : HasRoom init
unfolding init
init-HasRoom = omega arith

update-append_example :
    (update (update init (codes "rule:")) (codes "known")
      ≡ update init (codes "rule:" ++ codes "known"))
    × HasRoom (update init (codes "rule:"))
update-append_example = update-append init (codes "rule:") (codes "known") init-HasRoom
