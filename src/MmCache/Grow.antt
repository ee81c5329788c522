-- ===== src/MmCache/Grow.antt =====
-- A new slab of src/mmspace.c, the sizes that `mm_cache_create` gives to it, and the way from an
-- address back to its slab.
use syslib.Prelude.{
  ℕ, zero, suc, ◌+◌, ◌-◌, ◌*◌, ◌/◌, ◌%◌, ◌^◌, ◌≤◌, ◌<◌, ◌≡◌, ◌≢◌, refl, ap, sym, ◌∙◌, true, false,
  arith, ◌==◌, leb, if◌then◌else◌, eq→==, ne→==, word, sub64, two_pow_pos,
}
use mathlib.Core.Path.{ap₂}
use native.Mathlib.Nat.{
  div-mul-le_self, mul-le-mul_right, mul-le-mul_left, mod-eq_of_lt, le-div_iff_mul-le,
}
use syslib.Misc.{round_down}
use syslib.Dlist.{Ptr}
use syslib.MmCache.{Store, new_slab, scan_pages, cache_of_obj, label, u16, u32}
use syslib.MmCache.Bits.{ones, no_ones}
use syslib.MmCache.Counts.{IsSlab, size}

module _ (mzi mc : Ptr) (s : Store) (large : 8 ≤ s.obj_size mzi)
    (room : 32 * s.obj_size mzi + 48 ≤ s.cache_size mzi) (small : s.cache_size mzi < 2 ^ 19)
    (fits : mc + s.cache_size mzi < word) where
  abbrev sz : ℕ
  sz = s.obj_size mzi

  abbrev whole : ℕ
  whole = s.cache_size mzi

  abbrev count : ℕ
  count = (whole - 48) / sz

  abbrev kept : ℕ
  kept = if leb count 64 then count else 64

  abbrev new : Store
  new = new_slab mzi mc s

  fill : count * sz ≤ whole - 48
  fill = div-mul-le_self (whole - 48) sz

  short : count % 2 ^ 16 ≡ count
  short =
      let eight : count * 8 ≤ count * sz = mul-le-mul_left count large in
      mod-eq_of_lt (omega (arith, fill, eight))

  many : 32 ≤ count
  many = (le-div_iff_mul-le {k = sz} (omega arith)).1 (omega arith)

  kept_bounds : (32 ≤ kept) × (kept ≤ 64) × (kept ≤ count)
  kept_bounds = ground (arith, many)

  kept_fill : kept * sz ≤ whole - 48
  kept_fill = omega (arith, fill, mul-le-mul_right sz kept_bounds.2)

  stored : u16 (sub64 whole 48 / sz) ≡ count
  stored =
      let below : sub64 whole 48 ≡ whole - 48 = omega arith in
      ap (λ n. n / sz % 2 ^ 16) below ∙ short

  fields :
      (new.obj_count mc ≡ kept)
      × (new.free_count mc ≡ kept)
      × (new.alloc_bits mc ≡ 0)
      × (size new mc ≡ sz)
      × (new.obj_ptr mc + kept * sz ≡ mc + whole)
  unfolding new_slab
  fields =
      let self : (mc == mc) ≡ true = eq→== mc mc refl in
      let product : u32 (kept * sz) ≡ kept * sz = mod-eq_of_lt (omega (arith, kept_fill)) in
      (
        rw (self, stored) refl,
        rw (self, stored) refl,
        rw self refl,
        rw self refl,
        rw (self, stored, product) (omega (arith, kept_fill)),
      )

  new-IsSlab : 0 < mc → IsSlab new mc
  new-IsSlab pos =
      let (counts, frees, bits, sizes, ends) = fields in
      let total : new.obj_count mc * size new mc ≡ kept * sz =
        ap₂ (λ (a b : ℕ). a * b) counts sizes in
      record {
        small = omega (arith, counts, kept_bounds);
        bits = omega (arith, bits, two_pow_pos (new.obj_count mc));
        counted = omega (arith, ap (ones 64) bits, no_ones 64, frees, counts);
        sized = omega (arith, sizes);
        placed = omega (arith, ends, kept_fill);
        short = omega (arith, total, kept_fill);
        fits = omega (arith, total, ends);
      }

-- Whatever the memory held, a new slab of objects of eight bytes or more, which is less than 2^19
-- bytes long and has room for its head and 32 objects, is well-formed: all of its objects are free,
-- there are 32 of them at least, they start behind the head and end with the slab.
pub new_slab-IsSlab :
    (mzi mc : Ptr) (s : Store)
    → 0 < mc
    → 8 ≤ s.obj_size mzi
    → 32 * s.obj_size mzi + 48 ≤ s.cache_size mzi
    → s.cache_size mzi < 2 ^ 19
    → mc + s.cache_size mzi < word
    → (let t = new_slab mzi mc s in
        IsSlab t mc
        × (t.free_count mc ≡ t.obj_count mc)
        × (32 ≤ t.obj_count mc)
        × (mc + 48 ≤ t.obj_ptr mc)
        × (t.obj_ptr mc + t.obj_count mc * size t mc ≡ mc + s.cache_size mzi))
new_slab-IsSlab mzi mc s pos large room small fits =
    let (counts, frees, _, sizes, ends) = fields mzi mc s large room small fits in
    let bounds = kept_bounds mzi mc s large room small fits in
    let total = ap₂ (λ (a b : ℕ). a * b) counts sizes in
    (
      new-IsSlab mzi mc s large room small fits pos,
      frees ∙ sym counts,
      omega (arith, counts, bounds),
      omega (arith, ends, kept_fill mzi mc s large room small fits),
      omega (arith, total, ends),
    )

-- The scan ends at the first page down from `p` that holds the label, `k` pages below it.
module _ (s : Store) (page p k : ℕ) (small : k * page < 2 ^ 32) (above : k * page ≤ p)
    (fits : p < word) (here : s.slab_label (p - k * page) ≡ label) where
  page-at : (i : ℕ) → i ≤ k → sub64 p (u32 (i * page)) ≡ p - i * page
  page-at i le =
      let lower : i * page ≤ k * page = mul-le-mul_right page le in
      let whole : u32 (i * page) ≡ i * page = mod-eq_of_lt (omega (arith, lower)) in
      omega (arith, whole, lower)

  scan_pages-nearest :
      (j i n : ℕ)
      → k ≡ i + j
      → j < n
      → ((h : ℕ) → i ≤ h → h < k → s.slab_label (p - h * page) ≢ label)
      → scan_pages s page p i n ≡ p - k * page
  unfolding scan_pages
  scan_pages-nearest j i zero e lt others = absurd (omega arith)
  scan_pages-nearest zero i (suc n) e lt others =
      let i_is : i ≡ k = omega arith in
      let hit : (s.slab_label (p - i * page) == label) ≡ true =
        eq→== _ _ (ap (λ h. s.slab_label (p - h * page)) i_is ∙ here) in
      rw (page-at i (omega arith), hit) (ap (λ h. p - h * page) i_is)
  scan_pages-nearest (suc j) i (suc n) e lt others =
      let miss : (s.slab_label (p - i * page) == label) ≡ false =
        ne→== _ _ (others i (omega arith) (omega arith)) in
      rw (page-at i (omega arith), miss)
        (scan_pages-nearest j (suc i) n (omega arith) (omega arith)
          (λ h le less. others h (omega arith) less))

-- `_cache_of_obj` goes down from the page of an address, over as many pages as there are at most in
-- a slab, and returns the first of them that holds the label of a slab where a slab has it: this is
-- the slab of the object if no page between them holds the label by chance, and such a page if one
-- does.
pub cache_of_obj_nearest :
    (s : Store) (page_size maxpg_count obj k : ℕ)
    → k < maxpg_count
    → k * page_size < 2 ^ 32
    → obj < word
    → k * page_size ≤ round_down obj page_size
    → round_down obj page_size ≤ obj
    → s.slab_label (round_down obj page_size - k * page_size) ≡ label
    → ((h : ℕ) → h < k → s.slab_label (round_down obj page_size - h * page_size) ≢ label)
    → cache_of_obj s page_size maxpg_count obj ≡ round_down obj page_size - k * page_size
unfolding cache_of_obj
cache_of_obj_nearest s page_size maxpg_count obj k lt small fits above down here others =
    scan_pages-nearest s page_size (round_down obj page_size) k small above (omega arith) here k 0
      maxpg_count (omega arith) lt (λ h le less. others h less)
