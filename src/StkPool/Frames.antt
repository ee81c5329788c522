-- ===== src/StkPool/Frames.antt =====
-- What holds of a pool of stack frames between two calls (src/stkpool.c): which frames are free,
-- and what the words of the nodes are.
use syslib.Prelude.{
  ℕ, zero, suc, ◌+◌, ◌-◌, ◌*◌, ◌^◌, ◌≤◌, ◌<◌, ◌≡◌, ◌≢◌, refl, ap, ◌∙◌, List, [], ◌∷◌, arith, word,
  if◌then◌else◌, bit_and, bit_or, not64, two_pow_add, bit_and_high, bit_and_mask, bit_or_bit,
  bit_or-zero,
}
use native.Mathlib.Nat.{mul-mod_left}
use syslib.Dlist.{Ptr}
use syslib.Dlist.Chain.{has, ◌∈◌, IsList}
use syslib.StkPool.{Pool, free_list_of, node_of}

-- The address that a client has of the frame `i`: the page behind the guard page.
abbrev pub frame : Pool → ℕ → Ptr
frame s i = s.payload_trunk_addr + i * s.stk_frm_size + s.sys_pg_size

abbrev pub node_list : Ptr → List ℕ → List Ptr
node_list stkpi [] = []
node_list stkpi (i ∷ is) = node_of stkpi i ∷ node_list stkpi is

-- `free` are the free frames, in the order of the free list; a page has 2^k bytes, the trunk starts
-- at the page `t`, and a frame has `f` pages.
pub record IsPool (stkpi : Ptr) (s : Pool) (free : List ℕ) : Type 0 where
  pub k : ℕ
  pub t : ℕ
  pub f : ℕ
  pub page_bits : 2 ≤ k
  pub page : s.sys_pg_size ≡ 2 ^ k
  pub trunk : s.payload_trunk_addr ≡ t * 2 ^ k
  pub size : s.stk_frm_size ≡ f * 2 ^ k
  pub guarded : 2 ≤ f
  pub fits : s.payload_trunk_addr + s.stk_frm_cnt * s.stk_frm_size < word
  pub list : IsList s.links (free_list_of stkpi) (node_list stkpi free)
  pub in_range : (i : ℕ) → i ∈ free → i < s.stk_frm_cnt
  pub words :
      (i : ℕ)
      → i < s.stk_frm_cnt
      → s.payload (node_of stkpi i) ≡ frame s i + (if has i free then 0 else 1)

pub node_of-injective : (stkpi i j : ℕ) → node_of stkpi i ≡ node_of stkpi j → i ≡ j
node_of-injective stkpi i j h = omega arith

pub has-node_list :
    (stkpi i : ℕ) (is : List ℕ) → has (node_of stkpi i) (node_list stkpi is) ≡ has i is
has-node_list stkpi i [] = refl
has-node_list stkpi i (j ∷ is) = ground (arith, has-node_list stkpi i is)

-- A node is none of the two sentinels.
pub node-not_sentinel :
    (stkpi i : ℕ) → (node_of stkpi i ≢ stkpi + 24) × (node_of stkpi i ≢ stkpi + 24 + 16)
node-not_sentinel stkpi i = (λ h. omega arith, λ h. omega arith)

-- The arithmetic of a page of at least four bytes.
module _ (k : ℕ) (bits : 2 ≤ k) where
  four : (m : ℕ) → m * 2 ^ k ≡ m * 2 ^ (k - 2) * 4
  four m = omega (
    arith,
    ap (λ (t : ℕ). m * t) (ap (λ e. 2 ^ e) whole ∙ two_pow_add (k - 2) 2),
    ap (λ (t : ℕ). m * t) ten,
  )
    where
      whole : k ≡ k - 2 + 2
      whole = omega arith

      ten : 2 ^ (k - 2) * 2 ^ 2 ≡ 4 * 2 ^ (k - 2)
      ten = omega arith

  pub payload_bits :
      (m u : ℕ)
      → u < 4
      → m * 2 ^ k + u < word
      → (bit_and (m * 2 ^ k + u) (not64 3) ≡ m * 2 ^ k) × (bit_and (m * 2 ^ k + u) 3 ≡ u)
  payload_bits m u small fits =
      let w : ℕ = m * 2 ^ k + u in
      (
        omega (arith, bit_and_high 64 2 w (omega arith) fits, four m),
        omega (arith, bit_and_mask 2 w, four m),
      )

  -- A store to `using` of a word at a page.
  pub using_bits :
      (m u v : ℕ)
      → u < 4
      → v < 2
      → m * 2 ^ k + u < word
      → bit_or (bit_and (m * 2 ^ k + u) (not64 3)) v ≡ m * 2 ^ k + v
  using_bits m u zero small lt fits =
      ap (λ a. bit_or a 0) (payload_bits m u small fits).0
      ∙ bit_or-zero (m * 2 ^ k) (m * 2 ^ k) (omega arith)
      ∙ omega arith
  using_bits m u (suc zero) small lt fits =
      ap (λ a. bit_or a 1) (payload_bits m u small fits).0
      ∙ bit_or_bit 0 (m * 2 ^ k) (omega (arith, four m))
  using_bits m u (suc (suc v)) small lt fits = absurd (omega arith)

pub page_aligned : (k m : ℕ) → bit_and (m * 2 ^ k) (2 ^ k - 1) ≡ 0
page_aligned k m = bit_and_mask k (m * 2 ^ k) ∙ mul-mod_left m (2 ^ k)
