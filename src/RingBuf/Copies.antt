-- ===== src/RingBuf/Copies.antt =====
-- What the copies of `rbuf_write_block` in src/ringbuf.c put into the memory.
use syslib.Prelude.{
  ℕ, ◌+◌, ◌-◌, ◌≤◌, ◌<◌, ◌≡◌, refl, ap, sym, ◌∙◌, List, ◌++◌, arith, length, take, drop,
  length-append, length-take, length-drop, take_all, take-append-drop, drop_all, take_append_add,
}
use mathlib.Core.Path.{ap₂}
use mathlib.Core.List.{append-nil, append_assoc}
use syslib.RingBuf.{copy_to}
use syslib.RingBuf.Inv.{length-copy_to, drop-copy_to, drop_behind-copy_to, take-copy_to}

module _ (mem src : List ℕ) (r w : ℕ) (w_in : w ≤ length mem) where
  -- The block fits between the write offset and the end of the memory.
  pub straight :
      r ≤ w
      → take (w + length src - r) (drop r (copy_to mem w src)) ≡ take (w - r) (drop r mem) ++ src
  straight le =
      ap (take (w + length src - r)) (drop-copy_to mem src r w le w_in)
      ∙ take_append_add _ (length src) (take (w - r) (drop r mem)) _
          (omega (arith, length-take (w - r) (drop r mem), length-drop r mem))
      ∙ ap (λ t. take (w - r) (drop r mem) ++ t)
          (take_append_add (length src) 0 src _ (omega arith) ∙ append-nil src)

  -- The write offset is before the read offset, and the block ends before it too.
  pub behind :
      (size : ℕ)
      → w + length src ≤ r
      → take (size - r) (drop r (copy_to mem w src)) ++ take (w + length src) (copy_to mem w src)
        ≡ (take (size - r) (drop r mem) ++ take w mem) ++ src
  behind size le =
      ap (λ t. take (size - r) t ++ take (w + length src) (copy_to mem w src))
        (drop_behind-copy_to mem src r w le w_in)
      ∙ ap (λ t. take (size - r) (drop r mem) ++ t) (take-copy_to mem src w _ w_in refl)
      ∙ sym (append_assoc (take (size - r) (drop r mem)) (take w mem) src)

  -- The block goes to the end of the memory and on from its start.
  module _ (size remain : ℕ) (es : length mem ≡ size) (e : size ≡ w + remain) (le : r ≤ w)
      (more : remain < length src) (room : length src - remain < r) where
    abbrev first_part : List ℕ
    first_part = take remain src

    abbrev second_part : List ℕ
    second_part = drop remain src

    abbrev once : List ℕ
    once = copy_to mem w first_part

    pub sizes : (length first_part ≡ remain) × (length second_part ≡ length src - remain)
    sizes = omega (arith, length-take remain src, length-drop remain src)

    length-once : length once ≡ length mem
    length-once = length-copy_to mem first_part w (omega (arith, sizes))

    old : List ℕ
    old = take (w - r) (drop r mem)

    to_end : drop r (copy_to once 0 second_part) ≡ old ++ first_part
    unfolding old
    to_end =
        drop_behind-copy_to once second_part r 0 (omega (arith, sizes)) (omega arith)
        ∙ drop-copy_to mem first_part r w le w_in
        ∙ ap (λ t. take (w - r) (drop r mem) ++ (first_part ++ t))
            (drop_all (w + length first_part) mem (omega (arith, sizes)))
        ∙ ap (λ t. take (w - r) (drop r mem) ++ t) (append-nil first_part)

    length-old : length (old ++ first_part) ≤ size - r
    unfolding old
    length-old = omega (
      arith,
      sizes,
      length-append (take (w - r) (drop r mem)) first_part,
      length-take (w - r) (drop r mem),
      length-drop r mem,
    )

    pub round :
        take (size - r) (drop r (copy_to once 0 second_part))
          ++ take (length src - remain) (copy_to once 0 second_part)
        ≡ take (w - r) (drop r mem) ++ src
    unfolding old
    round =
        ap₂ ◌++◌ (ap (take (size - r)) to_end ∙ take_all _ _ length-old)
          (take-copy_to once second_part 0 _ (omega arith) (omega (arith, sizes)))
        ∙ append_assoc (take (w - r) (drop r mem)) first_part second_part
        ∙ ap (λ t. take (w - r) (drop r mem) ++ t) (take-append-drop remain src)
