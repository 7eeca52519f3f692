-- ===== src/Product/Buffer/Growth.antt =====
-- src/filter/product_util.c, jf_bytes_add_limit: what a buffer holds, and its bounds.
use jaro_mail.Base.{
  ltb, leb, Bool-cases, length, length-append, Bytes, ℕ, zero, suc, ◌+◌, ◌-◌, ◌*◌, ◌/◌, ◌≤◌, ◌<◌,
  ◌≡◌, refl, ap, ◌∙◌, ◌⊎◌, inl, inr, true, Option, none, some, ◌++◌, append_assoc, arith,
}
use jaro_mail.Product.Buffer.{
  Buffer, ◌>>=◌, bytes_fits, capacity_loop, new_capacity, bytes_add_limit, bytes_add,
}

-- The contents fit the memory that was asked for, and that keeps the limit.
pub record IsBounded (limit : ℕ) (b : Buffer) : Type 0 where
  pub content_fits : length b.content ≤ b.capacity
  pub capacity_fits : b.capacity ≤ limit

capacity_loop-bounds :
    (fuel limit need cap : ℕ)
    → need ≤ limit
    → cap ≤ limit
    → 0 < cap
    → need ≤ fuel + cap
    → (need ≤ capacity_loop fuel limit need cap) × (capacity_loop fuel limit need cap ≤ limit)
unfolding capacity_loop
capacity_loop-bounds zero limit need cap a b c d = (omega arith, b)
capacity_loop-bounds (suc fuel) limit need cap a b c d = elim (Bool-cases (ltb (limit / 2) cap)) [
  | inl large ↦
      let ih =
        capacity_loop-bounds fuel limit need limit a (omega arith) (omega arith) (ground arith) in
      ground arith
  | inr small ↦
      let room : cap * 2 ≤ limit = ground arith in
      let ih = capacity_loop-bounds fuel limit need (cap * 2) a room (omega arith) (omega arith) in
      ground arith
]

new_capacity-bounds :
    (capacity limit need : ℕ)
    → need ≤ limit
    → capacity ≤ limit
    → capacity < need
    → (need ≤ new_capacity capacity limit need) × (new_capacity capacity limit need ≤ limit)
unfolding new_capacity
new_capacity-bounds capacity limit need a b c =
    capacity_loop-bounds need limit need _ a (ground arith) (ground arith) (ground arith)

-- jf_bytes_add_limit refuses exactly what would not keep the limit, with an untouched buffer; what
-- it accepts is written behind the old contents, and the buffer stays within its capacity and the
-- capacity within the limit, so that the doubling stops and nothing is copied out of bounds.
pub bytes_add_limit-cases :
    (b : Buffer) (s : Bytes) (limit : ℕ)
    → IsBounded limit b
    → (bytes_add_limit b s limit ≡ none) × (limit < length b.content + length s)
      ⊎ (b' : Buffer) × (bytes_add_limit b s limit ≡ some b')
        × (b'.content ≡ b.content ++ s)
        × IsBounded limit b'
unfolding bytes_add_limit bytes_fits
bytes_add_limit-cases b s limit w = elim (Bool-cases (leb (length s) (limit - length b.content))) [
  | inr big ↦ inl (ground arith)
  | inl fits ↦
      let held : leb (length b.content) limit ≡ true = ground arith in
      let sum = length-append b.content s in
      inr (
        rw (held, fits)
          (
            _,
            refl,
            refl,
            elim (Bool-cases (ltb b.capacity (length b.content + length s))) [
              | inl more ↦
                  let r =
                    new_capacity-bounds b.capacity limit (length b.content + length s)
                      (ground arith) w.capacity_fits (ground arith) in
                  record { content_fits = rw (more, sum) r.0; capacity_fits = rw more r.1 }
              | inr enough ↦ record {
                content_fits = rw (enough, sum) (ground arith);
                capacity_fits = rw enough w.capacity_fits;
              }
            ],
          ))
]

pub bytes_add-content :
    (b : Buffer) (s : Bytes) {b' : Buffer} → bytes_add b s ≡ some b' → b'.content ≡ b.content ++ s
unfolding bytes_add bytes_add_limit
bytes_add-content b s h = ground arith

-- Two writes succeed only if both do.
pub bind-eq-some :
    {S : Type 0} {T : Type 0} (first : Option S) (next : S → Option T) {t : T}
    → (first >>= next) ≡ some t
    → (s : S) × (first ≡ some s) × (next s ≡ some t)
bind-eq-some none next both = cc
bind-eq-some (some s) next both = (s, refl, both)

-- What two writes append.
pub then_appends :
    (x : Bytes) {y z : Bytes} (v w : Bytes) → y ≡ x ++ v → z ≡ y ++ w → z ≡ x ++ (v ++ w)
then_appends x {y} {z} v w h k = k ∙ ap (λ t. t ++ w) h ∙ append_assoc x v w
