-- ===== src/RingBuf/Fresh.antt =====
-- A new ring of src/ringbuf.c, and what is sent through it.
use syslib.Prelude.{
  ℕ, ◌+◌, ◌%◌, ◌<◌, ◌≡◌, ◌≢◌, ◌∙◌, true, List, ◌++◌, arith, some, length, take, drop,
  take_append_add,
}
use mathlib.Core.List.{append-nil}
use syslib.Dlist.{succeed}
use syslib.RingBuf.{
  Ring, impl_size, copy_to, rbuf_create, write_block, read_block, rbuf_write_block, rbuf_read_block,
}

-- The ring that `rbuf_create` makes.
pub create-run :
    (addr size : ℕ) (mem : List ℕ)
    → addr ≢ 0
    → impl_size < size
    → addr % 8 ≡ 0
    → size % 8 ≡ 0
    → rbuf_create true true addr size mem
      ≡ some (record { addr_begin = addr; size = size; r_offset = 0; w_offset = 0; bytes = mem })
unfolding rbuf_create
create-run addr size mem mapped room begins ends = ground arith

abbrev pub new : (addr size : ℕ) → List ℕ → Ring
new addr size mem = record {
  addr_begin = addr;
  size = size;
  r_offset = 0;
  w_offset = 0;
  bytes = mem;
}

-- The same after the first block.
abbrev pub full : (addr size : ℕ) → List ℕ → List ℕ → Ring
full addr size mem src = record (new addr size mem) {
  bytes = copy_to mem 0 src;
  w_offset = length src;
}

-- A block that is written to a new ring is read back.
module _ (addr size : ℕ) (mem src : List ℕ) (mapped : addr ≢ 0) (room : length src < size) where
  pub write_fresh :
      rbuf_write_block (some (new addr size mem)) src ≡ (succeed, some (full addr size mem src))
  unfolding rbuf_write_block write_block
  write_fresh = ground arith

  all : take (length src) (src ++ drop (0 + length src) mem) ≡ src
  all = take_append_add (length src) 0 src _ (omega arith) ∙ append-nil src

  pub read_fresh :
      rbuf_read_block (some (full addr size mem src)) (length src)
      ≡ (succeed, src, some (record (full addr size mem src) { r_offset = length src }))
  unfolding rbuf_read_block read_block
  read_fresh = let e = all in ground arith
