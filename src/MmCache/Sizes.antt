-- ===== src/MmCache/Sizes.antt =====
-- The sizes that `mm_cache_create` of src/mmspace.c computes.
use syslib.Prelude.{
  ℕ, ◌+◌, ◌*◌, ◌/◌, ◌%◌, ◌^◌, ◌≤◌, ◌<◌, ◌≡◌, ◌⊎◌, inl, inr, refl, ap, sym, ◌∙◌, arith, leb, Option,
  false, if◌then◌else◌, some, none, add64,
}
use native.Mathlib.Nat.{
  mod-eq_of_lt, add-mul, div-add-mod', mul-le-mul_right, mul-le-mul_left, mod-lt, pow-le-pow_right,
}
use syslib.Misc.{round_up}
use syslib.Misc.Align.{IsCeil, round_up-IsCeil}
use syslib.MmCache.{cache_sizes, u32}

-- A multiple between a value and less than a step above it is the least one.
ceil_unique : (m v r q : ℕ) → IsCeil m v r → v ≤ q * m → q * m < v + m → r ≡ q * m
ceil_unique m v r q c le lt = elim (le_or_lt q (r / m)) [
  | inl above ↦ elim (le_or_lt (r / m) q) [
    | inl below ↦
        let e : r / m ≡ q = omega arith in
        omega (arith, ap (λ (t : ℕ). t * m) e, div-add-mod' r m, c.multiple)
    | inr more ↦ absurd (omega (arith, step q (r / m) more, div-add-mod' r m, c.multiple, c.least))
  ]
  | inr less ↦ absurd (omega (arith, step (r / m) q less, div-add-mod' r m, c.multiple, c.above))
]
  where
    le_or_lt : (a b : ℕ) → (a ≤ b) ⊎ (b < a)
    le_or_lt a b = omega arith

    step : (a b : ℕ) → a < b → a * m + m ≤ b * m
    step a b lt = omega (arith, mul-le-mul_right m lt, add-mul a 1 m)

-- Where nothing wraps: the size is that of the object, up to a multiple of eight, and a slab has
-- whole pages, with room for its head and 32 objects, and is shorter than the longest.
pub record Sizes (page_size maxpg_count obj_size size whole : ℕ) : Type 0 where
  pub aligned : size % 8 ≡ 0
  pub covers : obj_size ≤ size
  pub pages : whole % page_size ≡ 0
  pub room : 32 * size + 48 ≤ whole
  pub within : whole < page_size * maxpg_count

abbrev accepted : (limit size whole : ℕ) → Option (ℕ × ℕ)
accepted limit size whole = if leb limit whole then none else some (size, whole)

sizes-of :
    (limit size whole size' whole' : ℕ)
    → accepted limit size whole ≡ some (size', whole')
    → (size ≡ size') × (whole ≡ whole') × (whole < limit)
sizes-of limit size whole size' whole' e = ground arith

-- The sizes, where the size of an object is `sz` and 32 objects have `product` bytes in 32 bits.
sizes_from :
    (page maxpg_count obj_size sz product : ℕ)
    → u32 (round_up obj_size 8) ≡ sz
    → u32 (sz * 32) ≡ product
    → page * maxpg_count < 2 ^ 32
    → cache_sizes page maxpg_count obj_size
      ≡ accepted (page * maxpg_count) sz (round_up (product + 48) page)
unfolding cache_sizes
sizes_from page maxpg_count obj_size sz product e f limit =
    let sum : add64 product 48 ≡ product + 48 =
      omega (arith, mod-lt (sz * 32) {m = 2 ^ 32} (omega arith)) in
    rw (e, f, sum, mod-eq_of_lt limit) refl

-- For objects of at most 2^26 bytes and pages of 2^k bytes, the sizes that `mm_cache_create` accepts
-- fit the objects.
pub cache_sizes-Sizes :
    (k maxpg_count obj_size size whole : ℕ)
    → k < 32
    → 2 ^ k * maxpg_count < 2 ^ 32
    → obj_size ≤ 2 ^ 26
    → cache_sizes (2 ^ k) maxpg_count obj_size ≡ some (size, whole)
    → Sizes (2 ^ k) maxpg_count obj_size size whole
cache_sizes-Sizes k maxpg_count obj_size size whole small limit fits e =
    let page : 2 ^ k ≤ 2 ^ 31 = pow-le-pow_right (omega arith) {j = 31} (omega arith) in
    let sz = round_up obj_size 8 in
    let up : IsCeil 8 obj_size sz = round_up-IsCeil 3 obj_size (omega arith) (omega arith) in
    let short : u32 sz ≡ sz = omega (arith, up.least) in
    let product : u32 (sz * 32) ≡ sz * 32 = omega (arith, up.least) in
    let (size_is, whole_is, below) =
      sizes-of (2 ^ k * maxpg_count) sz (round_up (sz * 32 + 48) (2 ^ k)) size whole
        (sym (sizes_from (2 ^ k) maxpg_count obj_size sz (sz * 32) short product limit) ∙ e) in
    let pages : IsCeil (2 ^ k) (sz * 32 + 48) (round_up (sz * 32 + 48) (2 ^ k)) =
      round_up-IsCeil k (sz * 32 + 48) (omega arith) (omega (arith, up.least)) in
    record {
      aligned = ap (λ n. n % 8) (sym size_is) ∙ up.multiple;
      covers = omega (arith, up.above);
      pages = ap (λ n. n % 2 ^ k) (sym whole_is) ∙ pages.multiple;
      room = omega (arith, pages.above);
      within = omega arith;
    }

-- For objects of a multiple of 2^27 bytes the product wraps to 0: a slab of one page is accepted, if
-- the page has room for the head, although an object alone is longer than the page.
pub cache_sizes_wrapped :
    (k maxpg_count m : ℕ)
    → 6 ≤ k
    → k < 27
    → 2 ≤ maxpg_count
    → 2 ^ k * maxpg_count < 2 ^ 32
    → 1 ≤ m
    → m < 32
    → (cache_sizes (2 ^ k) maxpg_count (m * 2 ^ 27) ≡ some (m * 2 ^ 27, 2 ^ k))
      × (2 ^ k < m * 2 ^ 27)
cache_sizes_wrapped k maxpg_count m low high two limit one few =
    let page : 2 ^ 6 ≤ 2 ^ k = pow-le-pow_right {n = 2} (omega arith) {i = 6} {j = k} low in
    let page' : 2 ^ k ≤ 2 ^ 26 =
      pow-le-pow_right {n = 2} (omega arith) {i = k} {j = 26} (omega arith) in
    let sz : round_up (m * 2 ^ 27) 8 ≡ m * 2 ^ 24 * 8 =
      ceil_unique 8 (m * 2 ^ 27) (round_up (m * 2 ^ 27) 8) (m * 2 ^ 24)
        (round_up-IsCeil 3 (m * 2 ^ 27) (omega arith) (omega arith)) (omega arith) (omega arith) in
    let short : u32 (round_up (m * 2 ^ 27) 8) ≡ m * 2 ^ 27 = omega (arith, sz) in
    let product : u32 (m * 2 ^ 27 * 32) ≡ 0 = omega arith in
    let pages : round_up (0 + 48) (2 ^ k) ≡ 1 * 2 ^ k =
      ceil_unique (2 ^ k) 48 (round_up 48 (2 ^ k)) 1
        (round_up-IsCeil k 48 (omega arith) (omega arith)) (omega arith) (omega arith) in
    let whole : round_up (0 + 48) (2 ^ k) ≡ 2 ^ k = omega (arith, pages) in
    let twice : 2 ^ k * 2 ≤ 2 ^ k * maxpg_count = mul-le-mul_left (2 ^ k) two in
    let more : leb (2 ^ k * maxpg_count) (2 ^ k) ≡ false = ground arith in
    (
      sizes_from (2 ^ k) maxpg_count (m * 2 ^ 27) (m * 2 ^ 27) 0 short product limit
          ∙ rw (whole, more) refl,
      omega arith,
    )
