-- ===== src/Sha256.antt =====
-- src/filter/sha256.c. A 32-bit word is a number below 2 ^ 32, and each sum is taken modulo it.
pub mod Stream
mod Tests
use jaro_mail.Base.{
  ltb, leb, ◌==◌, if◌then◌else◌, ltb→lt, lt→ltb, leb→le, ==_iff, ==_refl, Bool-cases, Option-cases,
  &&-eq-true, within, length, get_elem?, take, drop, length-append, All, all, any, All-append,
  All-get_elem?, get_elem?-some, All-map, In, In-take-or-drop, In-drop, All-In, drop-length, Bytes,
  codes, str_eq, str_eq_iff, in_set, strcmp, strcmp_iff, strcmp_antisymm, strcmp_trans,
  strcmp_lt_le_trans, StrLe, ℕ, zero, suc, ◌+◌, ◌-◌, ◌*◌, ◌/◌, ◌%◌, ◌^◌, ◌≤◌, ◌<◌, min, max,
  compare, Ordering, String, ◌≡◌, refl, sym, ap, ap₂, ◌∙◌, subst, ◌≡⟨◌⟩◌, ◌∎, ◌≢◌, ◌↔◌, ◌⊎◌, inl,
  inr, Bool, true, false, not, ◌&&◌, ◌||◌, Option, none, some, List, [], ◌∷◌, ◌++◌, map, foldl,
  append-nil, append_assoc, reverse, reverse-append, reverse-reverse, arith,
}
use Prim.Native.Nat.{bit_and, bit_or, bit_xor}

abbrev word : ℕ
word = 2 ^ 32

-- `rotate`: x>>n | x<<(32-n).
unfoldable pub rotate : ℕ → ℕ → ℕ
rotate x n = bit_or (x / 2 ^ n) (x * 2 ^ (32 - n) % word)

abbrev xor3 : ℕ → ℕ → ℕ → ℕ
xor3 a b c = bit_xor (bit_xor a b) c

abbrev complement : ℕ → ℕ
complement x = word - 1 - x

-- The array `k`.
abbrev round_constants : List ℕ
round_constants =
    0x428a2f98 ∷ 0x71374491 ∷ 0xb5c0fbcf ∷ 0xe9b5dba5 ∷ 0x3956c25b ∷ 0x59f111f1 ∷ 0x923f82a4
    ∷ 0xab1c5ed5 ∷ 0xd807aa98 ∷ 0x12835b01 ∷ 0x243185be ∷ 0x550c7dc3 ∷ 0x72be5d74 ∷ 0x80deb1fe
    ∷ 0x9bdc06a7 ∷ 0xc19bf174 ∷ 0xe49b69c1 ∷ 0xefbe4786 ∷ 0x0fc19dc6 ∷ 0x240ca1cc ∷ 0x2de92c6f
    ∷ 0x4a7484aa ∷ 0x5cb0a9dc ∷ 0x76f988da ∷ 0x983e5152 ∷ 0xa831c66d ∷ 0xb00327c8 ∷ 0xbf597fc7
    ∷ 0xc6e00bf3 ∷ 0xd5a79147 ∷ 0x06ca6351 ∷ 0x14292967 ∷ 0x27b70a85 ∷ 0x2e1b2138 ∷ 0x4d2c6dfc
    ∷ 0x53380d13 ∷ 0x650a7354 ∷ 0x766a0abb ∷ 0x81c2c92e ∷ 0x92722c85 ∷ 0xa2bfe8a1 ∷ 0xa81a664b
    ∷ 0xc24b8b70 ∷ 0xc76c51a3 ∷ 0xd192e819 ∷ 0xd6990624 ∷ 0xf40e3585 ∷ 0x106aa070 ∷ 0x19a4c116
    ∷ 0x1e376c08 ∷ 0x2748774c ∷ 0x34b0bcb5 ∷ 0x391c0cb3 ∷ 0x4ed8aa4a ∷ 0x5b9cca4f ∷ 0x682e6ff3
    ∷ 0x748f82ee ∷ 0x78a5636f ∷ 0x84c87814 ∷ 0x8cc70208 ∷ 0x90befffa ∷ 0xa4506ceb ∷ 0xbef9a3f7
    ∷ 0xc67178f2 ∷ []

-- The registers a to h, or the state's eight words.
pub record Words : Type 0 where
  pub a : ℕ
  pub b : ℕ
  pub c : ℕ
  pub d : ℕ
  pub e : ℕ
  pub f : ℕ
  pub g : ℕ
  pub h : ℕ

-- struct jf_sha256. `block` holds the bytes before `used`.
pub record Hash : Type 0 where
  pub state : Words
  pub bytes : ℕ
  pub block : Bytes

-- A read of the block or of the schedule, always in range.
abbrev at : List ℕ → ℕ → ℕ
at [] i = 0
at (x ∷ xs) zero = x
at (x ∷ xs) (suc i) = at xs i

-- The first loop of `transform`: sixteen big-endian words, the newest first.
unfoldable pub load_words : ℕ → Bytes → List ℕ → List ℕ
load_words (suc n) (b0 ∷ b1 ∷ b2 ∷ b3 ∷ rest) w =
    load_words n rest (((b0 * 2 ^ 24 + b1 * 2 ^ 16 + b2 * 2 ^ 8 + b3) % word) ∷ w)
load_words _ _ w = w

-- `for (; i < 64; i++)`: w[i-1] stands first.
unfoldable pub extend : ℕ → List ℕ → List ℕ
extend zero w = w
extend (suc n) w =
    let w15 = at w 14 in
    let w2 = at w 1 in
    let next =
      (at w 15
        + xor3 (rotate w15 7) (rotate w15 18) (w15 / 2 ^ 3)
        + at w 6
        + xor3 (rotate w2 17) (rotate w2 19) (w2 / 2 ^ 10))
      % word in
    extend n (next ∷ w)

-- One of the 64 rounds, with its constant and its word.
unfoldable pub round_step : ℕ → ℕ → Words → Words
round_step k w r =
    let t =
      (r.h
        + xor3 (rotate r.e 6) (rotate r.e 11) (rotate r.e 25)
        + bit_xor (bit_and r.e r.f) (bit_and (complement r.e) r.g)
        + k
        + w)
      % word in
    let u =
      (xor3 (rotate r.a 2) (rotate r.a 13) (rotate r.a 22)
        + xor3 (bit_and r.a r.b) (bit_and r.a r.c) (bit_and r.b r.c))
      % word in
    record {
      a = (t + u) % word;
      b = r.a;
      c = r.b;
      d = r.c;
      e = (r.d + t) % word;
      f = r.e;
      g = r.f;
      h = r.g;
    }

unfoldable pub rounds : List ℕ → List ℕ → Words → Words
rounds (k ∷ ks) (w ∷ ws) r = rounds ks ws (round_step k w r)
rounds _ _ r = r

unfoldable pub transform : Words → Bytes → Words
transform s block =
    let w = reverse (extend 48 (load_words 16 block [])) in
    let r = rounds round_constants w s in
    record {
      a = (s.a + r.a) % word;
      b = (s.b + r.b) % word;
      c = (s.c + r.c) % word;
      d = (s.d + r.d) % word;
      e = (s.e + r.e) % word;
      f = (s.f + r.f) % word;
      g = (s.g + r.g) % word;
      h = (s.h + r.h) % word;
    }

unfoldable pub init : Hash
init = record {
  state = record {
    a = 0x6a09e667;
    b = 0xbb67ae85;
    c = 0x3c6ef372;
    d = 0xa54ff53a;
    e = 0x510e527f;
    f = 0x9b05688c;
    g = 0x1f83d9ab;
    h = 0x5be0cd19;
  };
  bytes = 0;
  block = [];
}

-- `if (s->used == 64) { transform(s); s->used = 0; }`.
unfoldable pub flush : Words → ℕ → Bytes → Hash
flush state bytes block =
    if length block == 64
    then record { state = transform state block; bytes = bytes; block = [] }
    else record { state = state; bytes = bytes; block = block }

-- `while (n)`: each round takes as many bytes as the block has room for.
unfoldable pub update_loop : ℕ → Hash → Bytes → Hash
update_loop fuel s [] = s
update_loop zero s (c ∷ p) = s
update_loop (suc fuel) s (c ∷ p) =
    let n = min (64 - length s.block) (length (c ∷ p)) in
    update_loop fuel (flush s.state s.bytes (s.block ++ take n (c ∷ p))) (drop n (c ∷ p))

-- `s->bytes` is a uint64_t.
unfoldable pub update : Hash → Bytes → Hash
update s p = update_loop (length p) (record s { bytes = (s.bytes + length p) % 2 ^ 64 }) p

-- `while (s->used != 56)`.
unfoldable pub pad_loop : ℕ → Hash → Hash
pad_loop zero s = s
pad_loop (suc fuel) s = elim (length s.block == 56) [
  | true ↦ s
  | false ↦ pad_loop fuel (update s (0 ∷ []))
]

-- The eight bytes of the length, the most significant first.
abbrev pub length_bytes : ℕ → Bytes
length_bytes bits =
    (bits / 2 ^ 56 % 256)
    ∷ (bits / 2 ^ 48 % 256)
    ∷ (bits / 2 ^ 40 % 256)
    ∷ (bits / 2 ^ 32 % 256)
    ∷ (bits / 2 ^ 24 % 256)
    ∷ (bits / 2 ^ 16 % 256)
    ∷ (bits / 2 ^ 8 % 256)
    ∷ (bits % 256)
    ∷ []

abbrev pub hex_digit : ℕ → ℕ
hex_digit d = if ltb d 10 then b'0' + d else b'a' + d - 10

abbrev pub word_hex : ℕ → Bytes → Bytes
word_hex w rest =
    hex_digit (w / 2 ^ 28 % 16)
    ∷ hex_digit (w / 2 ^ 24 % 16)
    ∷ hex_digit (w / 2 ^ 20 % 16)
    ∷ hex_digit (w / 2 ^ 16 % 16)
    ∷ hex_digit (w / 2 ^ 12 % 16)
    ∷ hex_digit (w / 2 ^ 8 % 16)
    ∷ hex_digit (w / 2 ^ 4 % 16)
    ∷ hex_digit (w % 16)
    ∷ rest

-- jf_sha256_hex; 64 rounds of padding are enough for a block of 64 bytes.
unfoldable pub hex : Hash → Bytes
hex s =
    let bits = s.bytes * 8 % 2 ^ 64 in
    let padded = pad_loop 64 (update s (0x80 ∷ [])) in
    let w = (update padded (length_bytes bits)).state in
    word_hex w.a (
      word_hex w.b (
        word_hex w.c (word_hex w.d (word_hex w.e (word_hex w.f (word_hex w.g (word_hex w.h [])))))))

-- The digest of one buffer, as `identify` and `jf_digest` use it.
unfoldable pub sha256 : Bytes → Bytes
sha256 p = hex (update init p)
