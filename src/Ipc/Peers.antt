-- ===== src/Ipc/Peers.antt =====
-- What the peers of src/ipc.c can do: who creates a channel can write and read, and nobody can link it.
use syslib.Prelude.{
  ℕ, suc, ◌+◌, ◌-◌, ◌^◌, ◌<◌, ◌≡◌, refl, ap, Bool, true, false, not, ◌&&◌, Option, none, some, List,
  ◌∷◌, arith, ◌==◌, if◌then◌else◌, sub64, length, length-append, drop, leb, Bool-cases, ◌⊎◌, inl,
  inr, ◌≤◌,
}
use syslib.Misc.{round_up}
use syslib.Misc.Align.{IsCeil}
use syslib.Dlist.{Ptr, null, succeed}
use syslib.ShmKey.{sub_key}
use syslib.ShmKey.Range.{channel_key-run}
use syslib.RingBuf.{Ring, copy_to}
use syslib.RingBuf.Fresh.{create-run, new, full, write_fresh, read_fresh}
use syslib.Shmem.{fill_segment, Segments, shm_page_size}
use syslib.Shmem.Blocks.{Made, segment_size, shmm_open_unplaced}
use syslib.Shmem.Blocks as Blocks
use syslib.Ipc.{
  Peer, Ipc, Env, channel_key, destroy_ring, ipc_create, ipc_link, ipc_write, ipc_read, reach,
}

abbrev pub key_of : ℕ → ℕ
key_of channel_id = 2 ^ 28 + sub_key (channel_key channel_id)

module _ (e : Env) (s : Ipc) (channel_id size : ℕ) (huge : Bool) (fd base : ℕ)
    (zone : e.zone ≡ true) (slot : e.slot ≡ true) (ring_zone : e.ring_zone ≡ true)
    (ring_slot : e.ring_slot ≡ true)
    (made : Made e.sys s.segs (key_of channel_id) null size huge fd base) where
  abbrev area : ℕ
  area = round_up size 4096

  abbrev start : Ptr
  start = base + 8 + 4096

  c : IsCeil 4096 size area
  c = Blocks.ceil e.sys e.stale_sbi s.segs (key_of channel_id) null size huge fd base made

  len : sub64 (base + 8 + segment_size size) start ≡ area
  len = omega (arith, made.short, c.least)

  abbrev peer : Peer
  peer = record {
    channel_id = channel_id;
    buffer_size = area;
    shb = base + 8;
    rb = some (new start area e.mem);
  }

  abbrev after : Segments
  after = fill_segment base (key_of channel_id) (segment_size size) fd s.segs

  created :
      ipc_create e channel_id size huge s
      ≡ (some peer, record s { segs = after; objs = suc s.objs })
  unfolding ipc_create
  created =
      let some_size : (size == 0) ≡ false = ground (arith, made.some_size) in
      let block =
        Blocks.create-run e.sys e.stale_sbi s.segs (key_of channel_id) null size huge fd base
          made in
      let not_null =
        Blocks.not_null e.sys e.stale_sbi s.segs (key_of channel_id) null size huge fd base made in
      let begins =
        Blocks.begin_addr e.sys e.stale_sbi s.segs (key_of channel_id) null size huge fd base
          made in
      let ends =
        Blocks.end_addr e.sys e.stale_sbi s.segs (key_of channel_id) null size huge fd base made in
      let ring =
        create-run start area e.mem (omega arith)
          (omega (arith, c.multiple, c.above, made.some_size)) (omega (arith, made.page))
          (omega (arith, c.multiple)) in
      rw
        (
          some_size,
          zone,
          slot,
          channel_key-run (channel_key channel_id),
          block,
          not_null,
          begins,
          ends,
          len,
          ring_zone,
          ring_slot,
          ring,
        )
        refl

  -- When the cache has objects and the system makes the segment of the channel and attaches it at the
  -- start of a page, with the memory of the ring reaching to the end of the segment, 8 bytes before
  -- the end of the area: what the creator of a channel writes is read back by it as it was, for a
  -- block of at most the size, rounded up to pages, less 8 bytes; and a longer block below that
  -- rounded size is accepted by the ring and copied over the end of the segment.
  pub ipc_read-ipc_write :
      (src : List ℕ)
      → length e.mem + 8 ≡ round_up size shm_page_size
      → length src < round_up size shm_page_size
      → (let (pr, s') = ipc_create e channel_id size huge s in
          ((length src + 8 ≤ round_up size shm_page_size)
            × ((pr' pr'' : Option Peer) × (ipc_write pr src ≡ some (succeed, pr'))
                × (ipc_read pr' (length src) ≡ some (succeed, src, pr''))))
          ⊎ ((round_up size shm_page_size < length src + 8) × (ipc_write pr src ≡ none)))
  unfolding ipc_write ipc_read reach
  ipc_read-ipc_write src mapped room =
      let written = write_fresh start area e.mem src (omega arith) room in
      let read = read_fresh start area e.mem src (omega arith) room in
      let not_null =
        Blocks.not_null e.sys e.stale_sbi s.segs (key_of channel_id) null size huge fd base made in
      elim (Bool-cases (leb (length src + 8) area)) [
        | inl short ↦
            let fits : leb (reach (new start area e.mem) 0 (length src)) (length e.mem) ≡ true =
              ground arith in
            let held : leb (reach (full start area e.mem src) 0 (length src))
                  (length (copy_to e.mem 0 src))
                ≡ true =
              ground (arith, length-append src (drop (0 + length src) e.mem)) in
            let wrote = full start area e.mem src in
            let wrote = full start area e.mem src in
            rw created (
              inl (
                ground arith,
                (
                  some (record peer { rb = some wrote }),
                  some (record peer { rb = some (record wrote { r_offset = length src }) }),
                  rw (not_null, written, fits) refl,
                  rw (not_null, read, held) refl,
                ),
              ))
        | inr long ↦
            let over : leb (reach (new start area e.mem) 0 (length src)) (length e.mem) ≡ false =
              ground arith in
            rw created (inr (ground arith, rw (not_null, written, over) refl))
      ]

-- The object that a failed call has taken goes back.
taken_back :
    (rb : Option Ring) (s : Ipc)
    → (let s' = destroy_ring rb (record s { objs = suc s.objs }) in
        record s' { objs = s'.objs - 1 })
      ≡ destroy_ring rb s
taken_back none s = ap (λ n. record s { objs = n }) (omega arith)
taken_back (some rb) s = ap (λ n. record s { objs = n; destroyed = rb ∷ s.destroyed }) (omega arith)

both :
    (zone slot : Bool) (s : Ipc) {t t' : Ipc}
    → t ≡ t'
    → ◌≡◌ {A = Option Peer × Ipc}
        (if not zone then (none, s) else if not slot then (none, s) else (none, t))
        (none, if zone && slot then t' else s)
both true true s e = ap (λ t. (none, t)) e
both true false s e = refl
both false slot s e = refl

-- `ipc_link` never makes a peer, for every system, channel and state. Where the zone is there and
-- gives an object, the object goes back, after whatever ring its field `_rb` held before it was
-- written has been handed to `rbuf_destroy`; nothing else changes.
pub ipc_link_fails :
    (e : Env) (channel_id : ℕ) (s : Ipc)
    → ipc_link e channel_id s ≡ (none, if e.zone && e.slot then destroy_ring e.stale_rb s else s)
unfolding ipc_link
ipc_link_fails e channel_id s =
    rw
      (
        channel_key-run (channel_key channel_id),
        shmm_open_unplaced e.sys (key_of channel_id) s.segs,
      )
      (both e.zone e.slot s (taken_back e.stale_rb s))
