-- ===== src/Sha256/Stream.antt =====
-- src/filter/sha256.c: the chunks in which the bytes arrive do not matter.
use jaro_mail.Base.{
  ◌==◌, Bool-cases, length, take, drop, length-append, Bytes, ℕ, zero, suc, ◌+◌, ◌-◌, ◌%◌, ◌^◌, ◌≤◌,
  ◌<◌, min, ◌≡◌, refl, sym, ap, ap₂, ◌∙◌, subst, inl, inr, [], ◌∷◌, ◌++◌, append_assoc, arith,
}
use jaro_mail.Sha256.{Words, Hash, flush, update_loop, update}

-- One byte at a time.
unfoldable pub absorb : Hash → ℕ → Hash
absorb s c = flush s.state s.bytes (s.block ++ c ∷ [])

unfoldable pub absorb_all : Hash → Bytes → Hash
absorb_all s [] = s
absorb_all s (c ∷ p) = absorb_all (absorb s c) p

absorb_all-append : (s : Hash) (p q : Bytes) → absorb_all s (p ++ q) ≡ absorb_all (absorb_all s p) q
unfolding absorb_all
absorb_all-append s [] q = refl
absorb_all-append s (c ∷ p) q = absorb_all-append (absorb s c) p q

-- The block has room for a byte.
abbrev pub HasRoom : Hash → Type 0
HasRoom s = length s.block < 64

flush-HasRoom : (w : Words) (n : ℕ) (block : Bytes) → length block ≤ 64 → HasRoom (flush w n block)
unfolding flush
flush-HasRoom w n block h = ground arith

absorb-HasRoom : (s : Hash) (c : ℕ) → HasRoom s → HasRoom (absorb s c)
unfolding absorb
absorb-HasRoom s c h =
    flush-HasRoom s.state s.bytes (s.block ++ c ∷ [])
      (omega (arith, length-append s.block (c ∷ [])))

absorb_all-HasRoom : (s : Hash) (p : Bytes) → HasRoom s → HasRoom (absorb_all s p)
unfolding absorb_all
absorb_all-HasRoom s [] h = h
absorb_all-HasRoom s (c ∷ p) h = absorb_all-HasRoom (absorb s c) p (absorb-HasRoom s c h)

flush_short :
    (w : Words) (n : ℕ) (block : Bytes)
    → length block < 64
    → flush w n block ≡ record { state = w; bytes = n; block = block }
unfolding flush
flush_short w n block h = ground arith

-- A run of bytes that the block has room for.
absorb_all-flush :
    (s : Hash) (c : ℕ) (p : Bytes)
    → length s.block + length (c ∷ p) ≤ 64
    → absorb_all s (c ∷ p) ≡ flush s.state s.bytes (s.block ++ c ∷ p)
unfolding absorb_all absorb
absorb_all-flush s c [] h = refl
absorb_all-flush s c (d ∷ p) h =
    let one : length (s.block ++ c ∷ []) < 64 = omega (arith, length-append s.block (c ∷ [])) in
    ap (λ t. absorb_all t (d ∷ p)) (flush_short s.state s.bytes (s.block ++ c ∷ []) one)
    ∙ absorb_all-flush (record s { block = s.block ++ c ∷ [] }) d p
        (omega (arith, length-append s.block (c ∷ [])))
    ∙ ap (flush s.state s.bytes) (append_assoc s.block (c ∷ []) (d ∷ p))

take-drop-eq : (n : ℕ) (p : Bytes) → take n p ++ drop n p ≡ p
take-drop-eq zero p = refl
take-drop-eq (suc n) [] = refl
take-drop-eq (suc n) (c ∷ p) = ap (◌∷◌ c) (take-drop-eq n p)

length-take : (n : ℕ) (p : Bytes) → length (take n p) ≤ n
length-take zero p = omega arith
length-take (suc n) [] = omega arith
length-take (suc n) (c ∷ p) = omega (arith, length-take n p)

length-drop : (n : ℕ) (p : Bytes) → length (drop n p) ≡ length p - n
length-drop zero p = omega arith
length-drop (suc n) [] = omega arith
length-drop (suc n) (c ∷ p) = omega (arith, length-drop n p)

-- One round of the loop takes a run that fits.
chunk :
    (s : Hash) (n c : ℕ) (p : Bytes)
    → length s.block + suc n ≤ 64
    → absorb_all (flush s.state s.bytes (s.block ++ take (suc n) (c ∷ p))) (drop (suc n) (c ∷ p))
      ≡ absorb_all s (c ∷ p)
chunk s n c p h =
    ap (λ t. absorb_all t (drop n p))
      (sym (absorb_all-flush s c (take n p) (omega (arith, length-take n p))))
    ∙ sym (absorb_all-append s (c ∷ take n p) (drop n p))
    ∙ ap (λ r. absorb_all s (c ∷ r)) (take-drop-eq n p)

update_loop-absorb_all :
    (fuel : ℕ) (s : Hash) (p : Bytes)
    → length p ≤ fuel
    → HasRoom s
    → update_loop fuel s p ≡ absorb_all s p
unfolding update_loop
update_loop-absorb_all fuel s [] h room = unfold absorb_all in refl
update_loop-absorb_all zero s (c ∷ p) h room = absurd (omega arith)
update_loop-absorb_all (suc fuel) s (c ∷ p) h room =
    let n = min (63 - length s.block) (length p) in
    let same : min (64 - length s.block) (length (c ∷ p)) ≡ suc n = omega arith in
    ap (λ m. update_loop fuel (flush s.state s.bytes (s.block ++ take m (c ∷ p))) (drop m (c ∷ p)))
      same
    ∙ update_loop-absorb_all fuel (flush s.state s.bytes (s.block ++ c ∷ take n p)) (drop n p)
        (omega (arith, length-drop n p))
        (flush-HasRoom s.state s.bytes (s.block ++ c ∷ take n p)
          (omega (arith, length-append s.block (c ∷ take n p), length-take n p)))
    ∙ chunk s n c p (omega arith)

flush-bytes :
    (w : Words) (m n : ℕ) (block : Bytes) → flush w n block ≡ record (flush w m block) { bytes = n }
unfolding flush
flush-bytes w m n block = elim (Bool-cases (length block == 64)) [
  | inl full ↦ rw (full, flush) refl
  | inr room ↦ rw (room, flush) refl
]

-- The count of bytes plays no part in the rest of the state.
absorb_all-bytes :
    (s : Hash) (n : ℕ) (p : Bytes)
    → absorb_all (record s { bytes = n }) p ≡ record (absorb_all s p) { bytes = n }
unfolding absorb_all absorb
absorb_all-bytes s n [] = refl
absorb_all-bytes s n (c ∷ p) =
    ap (λ t. absorb_all t p) (flush-bytes s.state s.bytes n (s.block ++ c ∷ []))
    ∙ absorb_all-bytes (absorb s c) n p

absorb_all-keeps_bytes : (s : Hash) (p : Bytes) → (absorb_all s p).bytes ≡ s.bytes
unfolding absorb_all absorb
absorb_all-keeps_bytes s [] = refl
absorb_all-keeps_bytes s (c ∷ p) =
    absorb_all-keeps_bytes (absorb s c) p
    ∙ ap (λ (t : Hash). t.bytes) (flush-bytes s.state s.bytes s.bytes (s.block ++ c ∷ []))

update-absorb_all :
    (s : Hash) (p : Bytes)
    → HasRoom s
    → update s p ≡ record (absorb_all s p) { bytes = (s.bytes + length p) % 2 ^ 64 }
unfolding update
update-absorb_all s p room =
    update_loop-absorb_all (length p) _ p (omega arith) room
    ∙ absorb_all-bytes s ((s.bytes + length p) % 2 ^ 64) p

-- jf_sha256_update on one buffer and then on another leaves the state that one update with both
-- together leaves, however the lengths stand to the blocks of 64 bytes; the state must have room
-- for a byte in its block, as it has after `init` and after every update.
pub update-append :
    (s : Hash) (p q : Bytes)
    → HasRoom s
    → (update (update s p) q ≡ update s (p ++ q)) × HasRoom (update s p)
update-append s p q room =
    let first = update-absorb_all s p room in
    let n = (s.bytes + length p) % 2 ^ 64 in
    let room' : HasRoom (record (absorb_all s p) { bytes = n }) = absorb_all-HasRoom s p room in
    (
      ap (λ t. update t q) first
          ∙ update-absorb_all (record (absorb_all s p) { bytes = n }) q room'
          ∙ ap₂ (λ (t : Hash) m. record t { bytes = m })
              (absorb_all-bytes (absorb_all s p) n q
                ∙ ap (λ (t : Hash). record t { bytes = n }) (sym (absorb_all-append s p q)))
              (omega (arith, length-append p q))
          ∙ sym (update-absorb_all s (p ++ q) room),
      subst HasRoom (sym first) room',
    )
