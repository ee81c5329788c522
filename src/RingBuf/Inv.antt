-- ===== src/RingBuf/Inv.antt =====
-- The bytes that a ring of src/ringbuf.c holds, its invariant, and the copies at list level.
use syslib.Prelude.{
  ℕ, ◌+◌, ◌-◌, ◌≤◌, ◌<◌, ◌≡◌, ◌≢◌, ap, ◌∙◌, Bool, List, [], ◌++◌, arith, leb, some, if◌then◌else◌,
  length, take, drop, length-append, length-take, length-drop, take_append_add, drop_append_le,
  drop_append_add, drop-take, drop-drop,
}
use mathlib.Core.List.{append-nil}
use syslib.RingBuf.{Ring, impl_size, copy_to, rbuf_create}

-- The bytes that are written and not yet read, oldest first.
abbrev pub contents : Ring → List ℕ
contents rb =
    if leb rb.r_offset rb.w_offset
    then take (rb.w_offset - rb.r_offset) (drop rb.r_offset rb.bytes)
    else take (rb.size - rb.r_offset) (drop rb.r_offset rb.bytes) ++ take rb.w_offset rb.bytes

pub record IsValid (rb : Ring) : Type 0 where
  pub mapped : rb.addr_begin ≢ 0
  pub storage : length rb.bytes ≡ rb.size
  pub r_in : rb.r_offset ≤ rb.size
  pub w_in : rb.w_offset ≤ rb.size

-- A ring that `rbuf_create` returns for memory of the given size is valid and empty, has that size,
-- and the size is above that of the control block.
pub create-IsValid :
    (zone slot : Bool) (addr size : ℕ) (mem : List ℕ) {rb : Ring}
    → length mem ≡ size
    → rbuf_create zone slot addr size mem ≡ some rb
    → IsValid rb × (contents rb ≡ []) × (rb.size ≡ size) × (impl_size < size)
unfolding rbuf_create
create-IsValid zone slot addr size mem h e = ground arith

pub length-copy_to :
    (mem src : List ℕ) (w : ℕ)
    → w + length src ≤ length mem
    → length (copy_to mem w src) ≡ length mem
length-copy_to mem src w fits = omega (
  arith,
  length-append (take w mem) (src ++ drop (w + length src) mem),
  length-append src (drop (w + length src) mem),
  length-take w mem,
  length-drop (w + length src) mem,
)

-- A copy behind `r` leaves the bytes before it, and puts the source behind them.
pub drop-copy_to :
    (mem src : List ℕ) (r w : ℕ)
    → r ≤ w
    → w ≤ length mem
    → drop r (copy_to mem w src) ≡ take (w - r) (drop r mem) ++ (src ++ drop (w + length src) mem)
drop-copy_to mem src r w le fits =
    drop_append_le r (take w mem) _ (omega (arith, length-take w mem))
    ∙ ap (λ t. t ++ (src ++ drop (w + length src) mem)) (drop-take r w mem)

-- A copy before `r` leaves the bytes from `r` on.
pub drop_behind-copy_to :
    (mem src : List ℕ) (r w : ℕ)
    → w + length src ≤ r
    → w ≤ length mem
    → drop r (copy_to mem w src) ≡ drop r mem
drop_behind-copy_to mem src r w le fits =
    drop_append_add r (r - w) (take w mem) _ (omega (arith, length-take w mem))
    ∙ drop_append_add (r - w) (r - w - length src) src _ (omega arith)
    ∙ drop-drop (r - w - length src) (w + length src) r mem (omega arith)

pub take-copy_to :
    (mem src : List ℕ) (w n : ℕ)
    → w ≤ length mem
    → n ≡ w + length src
    → take n (copy_to mem w src) ≡ take w mem ++ src
take-copy_to mem src w n fits e =
    take_append_add n (length src) (take w mem) _ (omega (arith, e, length-take w mem))
    ∙ ap (λ t. take w mem ++ t)
        (take_append_add (length src) 0 src _ (omega arith) ∙ append-nil src)
