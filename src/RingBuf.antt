-- ===== src/RingBuf.antt =====
-- src/ringbuf.c: a ring of bytes in memory that the caller provides. The memory `[addr_begin,
-- addr_begin + size)` is the list of its bytes. Offsets and lengths are not negative, and their
-- sums stay below 2^63, so the `long` arithmetic of the source is that of ℕ.
pub mod Inv
pub mod Copies
pub mod Write
pub mod Read
pub mod Fresh
mod Tests
use syslib.Prelude.{
  ℕ, ◌+◌, ◌-◌, ◌%◌, Bool, true, false, not, ◌&&◌, ◌||◌, Option, none, some, List, [], ◌++◌, ◌==◌,
  ltb, leb, if◌then◌else◌, length, take, drop,
}
use syslib.Dlist.{Code, succeed, fail}

-- `struct _ring_buf_impl` with the memory that it describes.
pub record Ring : Type 0 where
  pub addr_begin : ℕ
  pub size : ℕ
  pub r_offset : ℕ
  pub w_offset : ℕ
  pub bytes : List ℕ

-- sizeof(struct _ring_buf_impl)
abbrev pub impl_size : ℕ
impl_size = 32

-- `memcpy(mem + offset, src, length src)`, inside the memory.
abbrev pub copy_to : List ℕ → ℕ → List ℕ → List ℕ
copy_to mem offset src = take offset mem ++ (src ++ drop (offset + length src) mem)

-- `memcpy(buf, mem + offset, count)`.
abbrev pub copy_from : List ℕ → ℕ → ℕ → List ℕ
copy_from mem offset count = take count (drop offset mem)

-- `zone` says whether `_rbuf_try_restore_zone` succeeds, `slot` whether `mm_cache_alloc` does.
pub rbuf_create : (zone slot : Bool) (addr size : ℕ) (mem : List ℕ) → Option Ring
rbuf_create zone slot addr size mem =
    if addr == 0 || leb size impl_size
    then none
    else if not (addr % 8 == 0)
    then none
    else if not (size % 8 == 0)
    then none
    else if not zone
    then none
    else if not slot
    then none
    else some (record { addr_begin = addr; size = size; r_offset = 0; w_offset = 0; bytes = mem })

-- The null pointer is `none`.
pub rbuf_reset : Option Ring → Code × Option Ring
rbuf_reset none = (fail, none)
rbuf_reset (some rb) = (succeed, some (record rb { r_offset = 0; w_offset = 0 }))

-- The argument is what `mm_cache_free` returns for the control block.
pub rbuf_destroy : Code → Option Ring → Code
rbuf_destroy freed none = fail
rbuf_destroy freed (some rb) = freed

write_block : Ring → List ℕ → Code × Ring
write_block rb data_in =
    if addr_begin == 0
    then (fail, rb)
    else if ltb w_offset r_offset
    then (let remain = r_offset - w_offset in
        if ltb remain (length data_in) then (fail, rb) else (
          succeed,
          record rb {
            bytes = copy_to bytes w_offset data_in;
            w_offset = w_offset + length data_in;
          },
        ))
    else if ltb (w_offset + length data_in) (r_offset + size)
    then (let remain = size - w_offset in
        if leb (length data_in) remain
        then (
          succeed,
          record rb {
            bytes = copy_to bytes w_offset data_in;
            w_offset = w_offset + length data_in;
          },
        )
        else (
          succeed,
          record rb {
            bytes = copy_to (copy_to bytes w_offset (take remain data_in)) 0 (drop remain data_in);
            w_offset = length data_in - remain;
          },
        ))
    else (fail, rb)
  where
    open rb use {addr_begin, size, r_offset, w_offset, bytes}

pub rbuf_write_block : Option Ring → List ℕ → Code × Option Ring
unfolding write_block
rbuf_write_block none data_in = (fail, none)
rbuf_write_block (some rb) data_in = let (code, rb') = write_block rb data_in in (code, some rb')

-- The bytes that go into the caller's buffer stand beside the code.
read_block : Ring → ℕ → Code × List ℕ × Ring
read_block rb readlen =
    if addr_begin == 0
    then (fail, [], rb)
    else if leb r_offset w_offset
    then (let remain = w_offset - r_offset in
        if ltb remain readlen then (fail, [], rb) else (
          succeed,
          copy_from bytes r_offset readlen,
          record rb { r_offset = r_offset + readlen },
        ))
    else if ltb (r_offset + readlen) (w_offset + size)
    then (let remain = size - r_offset in
        if leb readlen remain
        then (
          succeed,
          copy_from bytes r_offset readlen,
          record rb { r_offset = r_offset + readlen },
        )
        else (
          succeed,
          copy_from bytes r_offset remain ++ copy_from bytes 0 (readlen - remain),
          record rb { r_offset = readlen - remain },
        ))
    else (fail, [], rb)
  where
    open rb use {addr_begin, size, r_offset, w_offset, bytes}

pub rbuf_read_block : Option Ring → ℕ → Code × List ℕ × Option Ring
unfolding read_block
rbuf_read_block none readlen = (fail, [], none)
rbuf_read_block (some rb) readlen =
    let (code, out, rb') = read_block rb readlen in (code, out, some rb')
