-- ===== src/Shmem/Blocks.antt =====
-- What is known of a block that `shmm_create` of src/shmem.c has made.
use syslib.Prelude.{
  ℕ, ◌+◌, ◌*◌, ◌<◌, ◌≡◌, refl, ap, ◌∙◌, Bool, true, false, ◌||◌, some, arith, ◌==◌, if◌then◌else◌,
  eq→==, ne→==, word, add64, sub64, bit_and, bit_and_mask, upd,
}
use syslib.Misc.{round_up}
use syslib.Misc.Align.{IsCeil, round_up-IsCeil, align-eq-round_up}
use syslib.Dlist.{Ptr, null, succeed, fail}
use syslib.Shmem.{
  Segments, System, blk_impl_size, shmm_tag_value, shm_page_size, fill_segment, create_flag,
  shmm_create, shmm_open, shmm_open_raw, shmm_close, shmm_destroy, shmm_begin_addr, shmm_end_addr,
  shmdt,
}

-- The size of the segment that is asked for.
abbrev pub segment_size : ℕ → ℕ
segment_size size = round_up size 4096 + 4096

-- A call of `shmm_create` for which the system makes a segment `fd` and attaches it at `base`, the
-- start of a page.
pub record Made (sys : System) (s : Segments) (key at_addr size : ℕ) (huge : Bool) (fd base : ℕ)
    : Type 0 where
  pub some_key : 0 < key
  pub some_size : 0 < size
  pub even : bit_and at_addr 1 ≡ 0
  pub m : ℕ
  pub page : base ≡ m * 4096
  pub some_page : 0 < m
  pub short : base + size + 3 * 4096 < word
  pub get : sys.shmget key (segment_size size) (create_flag huge size) ≡ some fd
  pub attach : sys.shmat fd at_addr 8192 ≡ some base

upd_here : (f : ℕ → ℕ) (p : ℕ) {v : ℕ} → upd f p v p ≡ v
upd_here f p = rw (eq→== p p refl) refl

-- The first page boundary after the start of a page.
page_after : (m : ℕ) {base r : ℕ} → base ≡ m * 4096 → IsCeil 4096 (base + 80) r → r ≡ base + 4096
page_after m page c = omega (arith, c.multiple, c.above, c.least)

module _ (sys : System) (stale : Ptr) (s : Segments) (key at_addr size : ℕ) (huge : Bool)
    (fd base : ℕ) (made : Made sys s key at_addr size huge fd base) where
  abbrev pub after : Segments
  after = fill_segment base key (segment_size size) fd s

  pub ceil : IsCeil 4096 size (round_up size 4096)
  ceil = round_up-IsCeil 12 size (omega arith) (omega (arith, made.short))

  pub create-run : shmm_create sys stale key at_addr size huge s ≡ (base + 8, after)
  unfolding shmm_create
  create-run =
      let valid : ((key == 0) || (size == 0)) ≡ false =
        ground (arith, made.some_key, made.some_size) in
      let whole : add64 (round_up size 4096) 4096 ≡ segment_size size =
        omega (arith, ceil.least, made.short) in
      let blk : add64 base 8 ≡ base + 8 = omega (arith, made.short) in
      rw (valid, made.even, whole, made.get, made.attach, blk) refl

  conv : sub64 (base + 8) 8 ≡ base
  conv = omega (arith, made.short)

  begin_offset : after.addr_begin_offset base ≡ 4096
  unfolding fill_segment
  begin_offset =
      let (_, _, _, _, _, _, rounds) =
        align-eq-round_up 0 base blk_impl_size 4096 (omega arith) (omega arith) in
      let sum : add64 base blk_impl_size ≡ base + blk_impl_size = omega (arith, made.short) in
      let c : IsCeil 4096 (base + blk_impl_size) (round_up (base + blk_impl_size) 4096) =
        round_up-IsCeil 12 (base + blk_impl_size) (omega arith) (omega (arith, made.short)) in
      let next : round_up (base + blk_impl_size) 4096 ≡ base + 4096 =
        page_after made.m made.page c in
      upd_here s.addr_begin_offset base
      ∙ ap (λ t. sub64 t base) (rounds ∙ ap (λ t. round_up t 4096) sum ∙ next)
      ∙ omega (arith, made.short)

  end_offset : after.addr_end_offset base ≡ segment_size size
  unfolding fill_segment
  end_offset = upd_here s.addr_end_offset base

  tag_of : after.shmm_tag base ≡ shmm_tag_value
  unfolding fill_segment
  tag_of = upd_here s.shmm_tag base

  key_of : after.the_key base ≡ key
  unfolding fill_segment
  key_of = upd_here s.the_key base

  fd_of : after.fd base ≡ fd
  unfolding fill_segment
  fd_of = upd_here s.fd base

  pub not_null : ((base + 8) == null) ≡ false
  not_null = ne→== (base + 8) null (omega arith)

  pub begin_addr : shmm_begin_addr after (base + 8) ≡ base + 8 + 4096
  unfolding shmm_begin_addr
  begin_addr = rw (not_null, conv, begin_offset) (omega (arith, made.short))

  pub end_addr : shmm_end_addr after (base + 8) ≡ base + 8 + segment_size size
  unfolding shmm_end_addr
  end_addr = rw (not_null, conv, end_offset) (omega (arith, made.short, ceil.least))

  aligned : bit_and base 4095 ≡ 0
  aligned = bit_and_mask 12 base ∙ omega (arith, made.page)

  open_run :
      sys.shmget key 0 384 ≡ some fd
      → sys.shmat fd base 0 ≡ some base
      → shmm_open sys key (base + 8) after ≡ (base + 8, after)
  unfolding shmm_open shmm_open_raw
  open_run get attach =
      let valid : (key == 0) ≡ false = ground (arith, made.some_key) in
      let blk : add64 base 8 ≡ base + 8 = omega (arith, made.short) in
      rw
        (
          valid,
          conv,
          aligned,
          get,
          attach,
          tag_of,
          key_of,
          eq→== key key refl,
          blk,
          ne→== base null (omega (arith, made.page, made.some_page)),
        )
        refl

  close_run : shmm_close (base + 8) after ≡ (succeed, shmdt (base + 8) after)
  unfolding shmm_close
  close_run =
      rw (conv, begin_offset, end_offset, tag_of, ne→== (segment_size size) 0 (omega arith)) refl

  destroy_run :
      shmm_destroy sys (base + 8) after
      ≡ (if sys.shmctl fd then (succeed, shmdt (base + 8) after) else (fail, after))
  unfolding shmm_destroy
  destroy_run = rw (conv, fd_of, close_run) refl

  -- When the system makes the segment for a key that is not 0 and a size that is not 0 and attaches it
  -- at the start of a page, `shmm_create` returns the address 8 bytes into it. Its area is as large as
  -- the size, rounded up to whole pages. The area starts 8 bytes into the second page of the segment
  -- and ends 8 bytes after the last byte of the segment.
  pub shmm_create-Made :
      let (shm, s') = shmm_create sys stale key at_addr size huge s in
      (shm ≡ base + 8)
      × (shmm_begin_addr s' shm ≡ base + 4096 + 8)
      × (shmm_end_addr s' shm ≡ shmm_begin_addr s' shm + round_up size shm_page_size)
      × IsCeil shm_page_size size (round_up size shm_page_size)
      × (shmm_end_addr s' shm ≡ base + segment_size size + 8)
  shmm_create-Made =
      rw (create-run, begin_addr, end_addr) (refl, omega arith, omega arith, ceil, omega arith)

  -- Opening the block of a segment that `shmm_create` has made, with its key and the address that
  -- `shmm_create` has returned, returns the same block and changes nothing, when the system finds the
  -- segment and attaches it at the same address.
  pub shmm_open-shmm_create :
      sys.shmget key 0 384 ≡ some fd
      → sys.shmat fd base 0 ≡ some base
      → (let (shm, s') = shmm_create sys stale key at_addr size huge s in
          shmm_open sys key shm s' ≡ (shm, s'))
  shmm_open-shmm_create get attach = rw create-run (open_run get attach)

  -- Destroying the block that `shmm_create` has made succeeds exactly when the system removes the
  -- segment. The address that is then handed to `shmdt` is that of the block, 8 bytes after the address
  -- at which the segment is attached; without the removal nothing is detached.
  pub shmm_destroy-shmm_create :
      (let (shm, s') = shmm_create sys stale key at_addr size huge s in
        shmm_destroy sys shm s'
        ≡ (if sys.shmctl fd then (succeed, shmdt (base + 8) s') else (fail, s')))
  shmm_destroy-shmm_create = rw create-run destroy_run

either : {A : Type 0} {x : A} (b : Bool) → (if b then x else x) ≡ x
either true = refl
either false = refl

-- `shmm_open` without an address fails for every key and every system, and changes nothing: the
-- address that it derives from the null pointer is not that of a page.
pub shmm_open_unplaced :
    (sys : System) (key : ℕ) (s : Segments) → shmm_open sys key null s ≡ (null, s)
unfolding shmm_open shmm_open_raw
shmm_open_unplaced sys key s = either (key == 0)
