-- ===== src/RingBuf/Read.antt =====
-- What `rbuf_read_block` of src/ringbuf.c takes out of the ring.
use syslib.Prelude.{
  ℕ, ◌+◌, ◌-◌, ◌≤◌, ◌<◌, ◌≡◌, refl, ap, sym, ◌∙◌, true, false, List, [], ◌++◌, arith, leb, some,
  length, take, drop, length-take, length-drop, take_append_le, take_append_add, drop_append_le,
  drop_append_add, take-take, drop-take, drop-drop, inl, inr,
}
use mathlib.Core.Path.{ap₂}
use syslib.Dlist.{Code, succeed, fail}
use syslib.RingBuf.{Ring, read_block, rbuf_read_block}
use syslib.RingBuf.Inv.{contents, IsValid}
use syslib.RingBuf.Write.{length-contents, order}

-- What a successful read of `n` bytes comes to.
pub record WasRead (rb rb' : Ring) (out : List ℕ) (n : ℕ) : Type 0 where
  pub valid : IsValid rb'
  pub taken : out ≡ take n (contents rb)
  pub rest : contents rb' ≡ drop n (contents rb)
  pub write_pos : rb'.w_offset ≡ rb.w_offset

module _ (rb : Ring) (n : ℕ) (v : IsValid rb) where
  open rb use {size, r_offset, w_offset, bytes}

  Result : Type 0
  Result =
      (rb' : Ring) × (out : List ℕ) × (read_block rb n ≡ (succeed, out, rb')) × WasRead rb rb' out n

  read_straight : r_offset ≤ w_offset → r_offset + n ≤ w_offset → Result
  unfolding Result read_block
  read_straight le fits =
      let e : leb r_offset w_offset ≡ true = ground arith in
      let e' : leb (r_offset + n) w_offset ≡ true = ground arith in
      (
        record rb { r_offset = r_offset + n },
        take n (drop r_offset bytes),
        ground arith,
        record {
          valid = ground arith;
          taken =
              rw e (sym (take-take n (w_offset - r_offset) (drop r_offset bytes) (omega arith)));
          rest =
              rw (e, e')
                (ap₂ take (omega arith) (sym (drop-drop n r_offset (r_offset + n) bytes refl))
                  ∙ sym (drop-take n (w_offset - r_offset) (drop r_offset bytes)));
          write_pos = refl;
        },
      )

  length-older : length (take (size - r_offset) (drop r_offset bytes)) ≡ size - r_offset
  length-older =
      omega (arith, length-take (size - r_offset) (drop r_offset bytes), length-drop r_offset bytes)

  read_older : w_offset < r_offset → r_offset + n < w_offset + size → r_offset + n ≤ size → Result
  unfolding Result read_block
  read_older lt room fits =
      let e : leb r_offset w_offset ≡ false = ground arith in
      let e' : leb (r_offset + n) w_offset ≡ false = ground arith in
      let older = take (size - r_offset) (drop r_offset bytes) in
      (
        record rb { r_offset = r_offset + n },
        take n (drop r_offset bytes),
        ground arith,
        record {
          valid = ground arith;
          taken = rw e (
              sym (
                take_append_le n older (take w_offset bytes) (omega (arith, length-older))
                ∙ take-take n (size - r_offset) (drop r_offset bytes) (omega arith)));
          rest =
              rw (e, e')
                (ap (λ t. t ++ take w_offset bytes)
                    (ap₂ take (omega arith) (sym (drop-drop n r_offset (r_offset + n) bytes refl))
                      ∙ sym (drop-take n (size - r_offset) (drop r_offset bytes)))
                  ∙ sym
                      (drop_append_le n older (take w_offset bytes) (omega (arith, length-older))));
          write_pos = refl;
        },
      )

  read_round : w_offset < r_offset → r_offset + n < w_offset + size → size < r_offset + n → Result
  unfolding Result read_block
  read_round lt room over =
      let e : leb r_offset w_offset ≡ false = ground arith in
      let remain = size - r_offset in
      let e' : leb (n - remain) w_offset ≡ true = ground arith in
      let older = take remain (drop r_offset bytes) in
      let len : length older ≡ remain = length-older in
      (
        record rb { r_offset = n - remain },
        older ++ take (n - remain) bytes,
        ground arith,
        record {
          valid = ground arith;
          taken = rw e (
              sym (
                take_append_add n (n - remain) older (take w_offset bytes) (omega (arith, len))
                ∙ ap (λ t. older ++ t) (take-take (n - remain) w_offset bytes (omega arith))));
          rest =
              rw (e, e')
                (sym (
                  drop_append_add n (n - remain) older (take w_offset bytes) (omega (arith, len))
                  ∙ drop-take (n - remain) w_offset bytes));
          write_pos = refl;
        },
      )

  lifted :
      Result
      → (rb' : Ring) × (out : List ℕ) × (rbuf_read_block (some rb) n ≡ (succeed, out, some rb'))
        × WasRead rb rb' out n
  unfolding Result rbuf_read_block
  lifted (rb', out, run, was) =
      (rb', out, ap (λ (t : Code × List ℕ × Ring). (t.0, t.1, some t.2)) run, was)

  read : n < length (contents rb) → Result
  read less = elim (order w_offset r_offset) [
    | inl lt ↦
        let room : r_offset + n < w_offset + size = ground (arith, length-contents rb v) in
        elim (order size (r_offset + n)) [
          | inl over ↦ read_round lt room over
          | inr fits ↦ read_older lt room fits
        ]
    | inr le ↦ read_straight le (ground (arith, length-contents rb v))
  ]

  -- On a valid ring, `rbuf_read_block` of fewer bytes than it holds succeeds, hands out the oldest
  -- ones in order, takes them off, and keeps the ring valid and its write offset.
  pub read_block_takes :
      n < length (contents rb)
      → (rb' : Ring) × (out : List ℕ) × (rbuf_read_block (some rb) n ≡ (succeed, out, some rb'))
        × WasRead rb rb' out n
  read_block_takes less = lifted (read less)

  -- On a valid ring `rbuf_read_block` of more bytes than it holds is refused, and nothing changes.
  pub read_block_refuses :
      length (contents rb) < n → rbuf_read_block (some rb) n ≡ (fail, [], some rb)
  unfolding rbuf_read_block read_block
  read_block_refuses more = ground (arith, length-contents rb v)

-- On a valid ring whose bytes do not go round the end of the memory, a read of all bytes succeeds,
-- hands them out in order and empties the ring.
pub read_block_all :
    (rb : Ring)
    → IsValid rb
    → rb.r_offset ≤ rb.w_offset
    → (rb' : Ring) × (out : List ℕ) × (rbuf_read_block (some rb) (length (contents rb))
        ≡ (succeed, out, some rb'))
      × WasRead rb rb' out (length (contents rb))
read_block_all rb v le =
    lifted rb _ v (read_straight rb _ v le (ground (arith, length-contents rb v)))

-- On a valid ring whose bytes go round the end of the memory, a read of all bytes is refused and
-- nothing changes, although the bytes are there.
pub read_block_stuck :
    (rb : Ring)
    → IsValid rb
    → rb.w_offset < rb.r_offset
    → rbuf_read_block (some rb) (length (contents rb)) ≡ (fail, [], some rb)
unfolding rbuf_read_block read_block
read_block_stuck rb v lt =
    let e : leb rb.r_offset rb.w_offset ≡ false = ground arith in
    let all : length (contents rb) ≡ rb.size - rb.r_offset + rb.w_offset =
      ground (arith, length-contents rb v) in
    ground arith
