-- ===== src/MmPool/Reload.antt =====
-- What `mmp_load` of src/mmpool.c finds.
use syslib.Prelude.{
  ◌+◌, ◌%◌, ◌<◌, ◌≡◌, ◌≢◌, refl, ◌∙◌, false, some, arith, ◌==◌, leb, word, Bool-cases, inl, inr,
  eq→==, ne→==, add64, sub64, upd, bit_and, bit_and_mask,
}
use syslib.Dlist.{Ptr, null}
use syslib.MmPool.{Impl, chunk_label, conv_mmp}
use syslib.MmPool.Calls.{mmp_load, mmp_load_chunk, mmp_destroy}

-- What a chunk at `addr` holds for `mmp_load`.
pub record IsChunk (addr : Ptr) (s : Impl) : Type 0 where
  pub label : s.chunck_label addr ≡ chunk_label
  pub begins : s.addr_begin addr ≡ addr
  pub ends : addr + 8 < s.addr_end addr

-- The pool of a chunk, 8 bytes into it, is found by its own address, and `mmp_load` changes nothing,
-- for a chunk at a multiple of 8 that is not null and below the last 8 bytes of memory.
pub mmp_load-IsChunk :
    (addr : Ptr) (s : Impl)
    → IsChunk addr s
    → addr ≢ null
    → addr % 8 ≡ 0
    → addr + 8 < word
    → mmp_load (addr + 8) s ≡ some (addr + 8, s)
unfolding mmp_load mmp_load_chunk
mmp_load-IsChunk addr s chunk ne aligned fits =
    let mask : bit_and (addr + 8) 7 ≡ 0 = bit_and_mask 3 (addr + 8) ∙ omega (arith, aligned) in
    let conv : sub64 (addr + 8) 8 ≡ addr = omega (arith, fits) in
    let inside : leb (s.addr_end addr) (addr + 8) ≡ false = ground (arith, chunk.ends) in
    let back : add64 addr 8 ≡ addr + 8 = omega (arith, fits) in
    rw
      (
        mask,
        conv,
        chunk.label,
        chunk.begins,
        eq→== addr addr refl,
        inside,
        ne→== addr null ne,
        back,
      )
      refl

refused :
    (addr : Ptr) (s : Impl)
    → (s.chunck_label (conv_mmp addr) == chunk_label) ≡ false
    → mmp_load addr s ≡ some (null, s)
unfolding mmp_load mmp_load_chunk
refused addr s no_label = elim (Bool-cases (bit_and addr 7 == 0)) [
  | inl aligned ↦ rw (aligned, no_label) refl
  | inr odd ↦ rw odd refl
]

-- `mmp_destroy` always ends. After it there is no pool at its address, and a chunk at another address,
-- a multiple of 8 that is not null and below the last 8 bytes of memory, is still found.
pub mmp_load-mmp_destroy :
    (mmp other : Ptr) (s : Impl)
    → other ≢ conv_mmp mmp
    → other ≢ null
    → other % 8 ≡ 0
    → other + 8 < word
    → IsChunk other s
    → (s' : Impl) × (mmp_destroy mmp s ≡ some (tt, s'))
      × (mmp_load mmp s' ≡ some (null, s'))
      × (mmp_load (other + 8) s' ≡ some (other + 8, s'))
unfolding mmp_destroy
mmp_load-mmp_destroy mmp addr s other ne aligned fits chunk =
    elim (Bool-cases (s.chunck_label (conv_mmp mmp) == chunk_label)) [
      | inl label ↦
          let mmpi = conv_mmp mmp in
          let cleared : Impl = record s {
            chunck_label = upd s.chunck_label mmpi 0;
            addr_begin = upd s.addr_begin mmpi 0;
            addr_end = upd s.addr_end mmpi 0;
          } in
          let gone : (upd s.chunck_label mmpi 0 mmpi == chunk_label) ≡ false =
            rw (eq→== mmpi mmpi refl) refl in
          (
            cleared,
            rw label refl,
            refused mmp cleared gone,
            mmp_load-IsChunk addr cleared
                (record {
                  label = rw (ne→== addr mmpi other) chunk.label;
                  begins = rw (ne→== addr mmpi other) chunk.begins;
                  ends = rw (ne→== addr mmpi other) chunk.ends;
                })
                ne aligned fits,
          )
      | inr no_label ↦ (
        s,
        rw no_label refl,
        refused mmp s no_label,
        mmp_load-IsChunk addr s chunk ne aligned fits,
      )
    ]
