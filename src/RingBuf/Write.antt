-- ===== src/RingBuf/Write.antt =====
-- What `rbuf_write_block` of src/ringbuf.c does to the bytes that the ring holds.
use syslib.Prelude.{
  ℕ, ◌+◌, ◌-◌, ◌≤◌, ◌<◌, ◌≡◌, refl, ap, ◌∙◌, true, false, List, [], ◌++◌, arith, leb, some, length,
  take, drop, length-append, length-take, length-drop, Bool-cases, ◌⊎◌, inl, inr, if◌then◌else◌,
}
use syslib.Dlist.{Code, succeed, fail}
use syslib.RingBuf.{Ring, copy_to, write_block, rbuf_write_block}
use syslib.RingBuf.Inv.{contents, IsValid, length-copy_to}
use syslib.RingBuf.Copies.{straight, behind, sizes, round}

pub order : (a b : ℕ) → (a < b) ⊎ (b ≤ a)
order a b = omega arith

-- What a successful write comes to.
pub record Wrote (rb rb' : Ring) (src : List ℕ) : Type 0 where
  pub valid : IsValid rb'
  pub bytes : contents rb' ≡ contents rb ++ src
  pub size : rb'.size ≡ rb.size
  pub read_pos : rb'.r_offset ≡ rb.r_offset

pub length-contents :
    (rb : Ring)
    → IsValid rb
    → length (contents rb) ≡ (
        if leb rb.r_offset rb.w_offset
        then rb.w_offset - rb.r_offset
        else rb.size - rb.r_offset + rb.w_offset)
length-contents rb v = elim (Bool-cases (leb rb.r_offset rb.w_offset)) [
  | inl le ↦ rw le (
      omega (
        arith,
        length-take (rb.w_offset - rb.r_offset) (drop rb.r_offset rb.bytes),
        length-drop rb.r_offset rb.bytes,
      ))
  | inr gt ↦ rw gt (
      omega (
        arith,
        length-append (take (rb.size - rb.r_offset) (drop rb.r_offset rb.bytes))
            (take rb.w_offset rb.bytes),
        length-take (rb.size - rb.r_offset) (drop rb.r_offset rb.bytes),
        length-drop rb.r_offset rb.bytes,
        length-take rb.w_offset rb.bytes,
      ))
]

module _ (rb : Ring) (src : List ℕ) (v : IsValid rb) where
  open rb use {size, r_offset, w_offset, bytes}

  w_le : w_offset ≤ length bytes
  w_le = omega arith

  write_behind :
      w_offset < r_offset
      → w_offset + length src < r_offset
      → (rb' : Ring) × (write_block rb src ≡ (succeed, rb')) × Wrote rb rb' src
  unfolding write_block
  write_behind lt room =
      let rb' : Ring = record rb {
        bytes = copy_to bytes w_offset src;
        w_offset = w_offset + length src;
      } in
      let e : leb r_offset w_offset ≡ false = ground arith in
      let e' : leb r_offset (w_offset + length src) ≡ false = ground arith in
      (
        rb',
        ground arith,
        record {
          valid = ground (arith, length-copy_to bytes src w_offset);
          bytes = rw (e, e') (behind bytes src r_offset w_offset w_le size (omega arith));
          size = refl;
          read_pos = refl;
        },
      )

  write_straight :
      r_offset ≤ w_offset
      → w_offset + length src < r_offset + size
      → w_offset + length src ≤ size
      → (rb' : Ring) × (write_block rb src ≡ (succeed, rb')) × Wrote rb rb' src
  unfolding write_block
  write_straight le room fits =
      let rb' : Ring = record rb {
        bytes = copy_to bytes w_offset src;
        w_offset = w_offset + length src;
      } in
      let e : leb r_offset w_offset ≡ true = ground arith in
      let e' : leb r_offset (w_offset + length src) ≡ true = ground arith in
      (
        rb',
        ground arith,
        record {
          valid = ground (arith, length-copy_to bytes src w_offset);
          bytes = rw (e, e') (straight bytes src r_offset w_offset w_le le);
          size = refl;
          read_pos = refl;
        },
      )

  write_round :
      r_offset ≤ w_offset
      → w_offset + length src < r_offset + size
      → size < w_offset + length src
      → (rb' : Ring) × (write_block rb src ≡ (succeed, rb')) × Wrote rb rb' src
  unfolding write_block
  write_round le room over =
      let remain = size - w_offset in
      let one = copy_to bytes w_offset (take remain src) in
      let (h₁, h₂) =
        sizes bytes src r_offset w_offset w_le size remain v.storage (omega arith) le (omega arith)
          (omega arith) in
      let len : length (copy_to one 0 (drop remain src)) ≡ size =
        length-copy_to one (drop remain src) 0 (
          omega
            (arith, h₁, h₂, length-copy_to bytes (take remain src) w_offset (omega (arith, h₁))))
        ∙ length-copy_to bytes (take remain src) w_offset (omega (arith, h₁))
        ∙ v.storage in
      let rb' : Ring = record rb {
        bytes = copy_to one 0 (drop remain src);
        w_offset = length src - remain;
      } in
      let e : leb r_offset w_offset ≡ true = ground arith in
      let e' : leb r_offset (length src - remain) ≡ false = ground arith in
      (
        rb',
        ground arith,
        record {
          valid = record { mapped = v.mapped; storage = len; r_in = v.r_in; w_in = omega arith };
          bytes =
              rw (e, e')
                (round bytes src r_offset w_offset w_le size remain v.storage (omega arith) le
                  (omega arith) (omega arith));
          size = refl;
          read_pos = refl;
        },
      )

  Accepted : Type 0
  Accepted =
      (rb' : Ring) × (rbuf_write_block (some rb) src ≡ (succeed, some rb')) × Wrote rb rb' src

  accepted : (rb' : Ring) × (write_block rb src ≡ (succeed, rb')) × Wrote rb rb' src → Accepted
  unfolding Accepted rbuf_write_block
  accepted (rb', run, wrote) = (rb', ap (λ (t : Code × Ring). (t.0, some t.1)) run, wrote)

  accept : length (contents rb) + length src < size → Accepted
  accept room = elim (order w_offset r_offset) [
    | inl lt ↦ accepted (write_behind lt (ground (arith, length-contents rb v)))
    | inr le ↦
        let room' : w_offset + length src < r_offset + size =
          ground (arith, length-contents rb v) in
        elim (order size (w_offset + length src)) [
          | inl over ↦ accepted (write_round le room' over)
          | inr fits ↦ accepted (write_straight le room' fits)
        ]
  ]

  -- On a valid ring whose stored bytes and the new block together stay below the size,
  -- `rbuf_write_block` succeeds, appends the block to the stored bytes, and keeps the ring valid,
  -- its size and its read offset.
  pub write_block_appends :
      length (contents rb) + length src < size
      → (rb' : Ring) × (rbuf_write_block (some rb) src ≡ (succeed, some rb')) × Wrote rb rb' src
  unfolding Accepted
  write_block_appends = accept

  -- On a valid ring `rbuf_write_block` refuses a block that would go beyond the size, and changes
  -- nothing.
  pub write_block_refuses :
      size < length (contents rb) + length src → rbuf_write_block (some rb) src ≡ (fail, some rb)
  unfolding rbuf_write_block write_block
  write_block_refuses over = ground (arith, length-contents rb v)

-- On a valid ring whose stored bytes go round the end of the memory, a block that exactly fills
-- the rest is accepted and the ring is left empty: every stored byte is lost, the new ones too.
pub write_block_fills :
    (rb : Ring) (src : List ℕ)
    → IsValid rb
    → rb.w_offset < rb.r_offset
    → length (contents rb) + length src ≡ rb.size
    → (rb' : Ring) × (rbuf_write_block (some rb) src ≡ (succeed, some rb')) × (contents rb' ≡ [])
unfolding rbuf_write_block write_block
write_block_fills rb src v lt full =
    let met : rb.w_offset + length src ≡ rb.r_offset = ground (arith, length-contents rb v) in
    let last : leb rb.r_offset (rb.w_offset + length src) ≡ true = ground arith in
    let none_left : rb.w_offset + length src - rb.r_offset ≡ 0 = omega arith in
    (
      record rb { bytes = copy_to rb.bytes rb.w_offset src; w_offset = rb.w_offset + length src },
      ground (arith, length-contents rb v),
      rw (last, none_left) refl,
    )
