-- ===== src/MmPool/Places.antt =====
-- What the creation of a pool of src/mmpool.c leaves of the fields that `mmp_load` reads.
use syslib.Prelude.{
  ℕ, zero, suc, ◌-◌, ◌/◌, ◌%◌, ◌^◌, ◌≡◌, refl, ap, ◌+◌, bit_and-le, ◌≤◌, ◌<◌, arith, word, Option,
  none, some, Bool, Bool-cases, inl, inr, true, false, not, ◌&&◌, ◌==◌, leb, ltb, if◌then◌else◌,
  pure, ◌>>◌, add64, sub64, bit_and, Run,
}
use native.Mathlib.Nat.{pow-le-pow_right}
use syslib.Misc.{log_2, shift_one, is_2power}
use syslib.Dlist.{
  Ptr, null, Links, Code, succeed, fail, lst_new, lst_clr, lst_push_front, lst_push_back,
  lst_pop_front,
}
use syslib.MmPool.{
  Impl, M, on_links, lifted, unless_out, free_fln_list_of, flh_of, fln_of, block_size_by_idx,
  fill_block, make_block, set_node_block, set_fln_idx, fetch_free_fln, count_op, enlist,
  return_free_node, return_free_node_to_head,
}
use syslib.MmPool.Calls.{
  mmp_init_block, init_nodes, init_lists, fill_size, fill_chunk, init_sections, on_success,
}
use syslib.MmPool.Fill.{Ended, fill_chunk-Ended}
use syslib.MmPool.Keeps.{
  Post, ends_bind, post_map, Kept, kept_bind, kept_lifted, kept_if, kept_links, kept_node_block,
  kept_fln_idx,
}

-- What stands where in the chunk at an address, and what `mmp_load` reads there.
pub record Place : Type 0 where
  pub label : ℕ
  pub begin : Ptr
  pub end : Ptr
  pub lists : Ptr
  pub list_count : ℕ
  pub nodes : Ptr
  pub node_count : ℕ
  pub chunk : Ptr
  pub size : ℕ

abbrev pub place_at : Ptr → Impl → Place
place_at addr s = record {
  label = s.chunck_label addr;
  begin = s.addr_begin addr;
  end = s.addr_end addr;
  lists = s.flh;
  list_count = s.free_list_count;
  nodes = s.fln_pool;
  node_count = s.fln_count;
  chunk = s.chunk_addr;
  size = s.chunk_size;
}

-- The code of a loop that has ended, where a success leaves `v`.
abbrev pub Fate : (v : Place) (addr : Ptr) → Code → Impl → Type 0
Fate v addr fail s = Unit {0}
Fate v addr succeed s = place_at addr s ≡ v

abbrev pub Outcome : (v : Place) (addr : Ptr) → Option Code → Impl → Type 0
Outcome v addr r s = (c : Code) × (r ≡ some c) × Fate v addr c s

outcome :
    (v : Place) (addr : Ptr) (o : Option (Option Code × Impl))
    → Kept (place_at addr) v o
    → Post Ended o
    → Post (Outcome v addr) o
outcome v addr none kept ends = tt
outcome v addr (some (r, s)) kept (fail, e) = (fail, e, tt)
outcome v addr (some (r, s)) kept (succeed, e) = (succeed, e, kept)

module _ (addr : Ptr) (v : Place) where
  abbrev place : Impl → Place
  place = place_at addr

  abbrev Keeps : {A : Type 0} → M A → Type 0
  Keeps m = (s : Impl) → place s ≡ v → Kept place v (m s)

  links : {A : Type 0} (m : Run Links A) → Keeps (on_links m)
  links m s e = kept_links place (λ _ _. refl) (λ _ _. refl) (λ _ _. refl) v s m e

  node_block : (fln p : Ptr) → Keeps (set_node_block fln p)
  node_block fln p s e = kept_node_block place (λ _ _. refl) (λ _ _. refl) (λ _ _. refl) v s fln p e

  its_idx : (bh : Ptr) (i : ℕ) → Keeps (set_fln_idx bh i)
  its_idx bh i s e = kept_fln_idx place (λ _ _. refl) (λ _ _. refl) (λ _ _. refl) v s bh i e

  either : {A : Type 0} (b : Bool) (m m' : M A) → Keeps m → Keeps m' → Keeps (if b then m else m')
  either true m m' k k' = k
  either false m m' k k' = k'

  block : (addr : Ptr) (size : ℕ) → Keeps (make_block addr size)
  unfolding make_block fill_block
  block addr size s e =
      kept_bind place v (lifted (is_2power size) s) _ (kept_lifted place v (is_2power size) e)
        λ ok t e1. either (not ok) (pure null) (fill_block addr size 0) (λ _ e. e) (λ _ e. e) t e1

  counted : (flh : Ptr) (code : Code) → Keeps (count_op flh code)
  counted flh fail s e = e
  counted flh succeed s e = e

  fetched : (mmpi : Ptr) → Keeps (fetch_free_fln mmpi)
  unfolding fetch_free_fln
  fetched mmpi s e =
      kept_bind place v (on_links (lst_pop_front (free_fln_list_of mmpi)) s) _
        (links (lst_pop_front (free_fln_list_of mmpi)) s e)
        λ fln t e1.
          kept_bind place v (set_node_block fln null t) _ (node_block fln null t e1) λ _ u e2.
            kept_bind place v (on_links (lst_clr fln) u) _ (links (lst_clr fln) u e2) λ _ w e3. e3

  listed :
      (push : Ptr → Ptr → Run Links Code) (hd : Ptr) (idx : ℕ) (fln : Ptr)
      → Keeps (enlist push hd idx fln)
  unfolding enlist
  listed push hd idx fln s e =
      kept_bind place v (set_node_block fln hd s) _ (node_block fln hd s e) λ _ t e1.
        kept_bind place v (set_fln_idx hd (s.node_idx fln) t) _ (its_idx hd (s.node_idx fln) t e1)
          λ _ u e2.
            kept_bind place v (on_links (push (flh_of s idx) fln) u) _
              (links (push (flh_of s idx) fln) u e2) λ code w e3. counted (flh_of s idx) code w e3

  returned : (mmpi hd : Ptr) → Keeps (return_free_node_to_head mmpi hd)
  unfolding return_free_node_to_head return_free_node
  returned mmpi hd s e = kept_if place v (hd == null) _ _ tt (
      kept_if place v (not (bit_and (s.flag hd) 1 == 0)) _ _ e (
        kept_bind place v (lifted (shift_one s.max_block_order) s) _
          (kept_lifted place v (shift_one s.max_block_order) e)
          λ max t e1.
            either (ltb max (s.block_size hd)) _ _ (λ _ e. e)
              (λ u e2.
                kept_bind place v (lifted (log_2 (s.block_size hd)) u) _
                  (kept_lifted place v (log_2 (s.block_size hd)) e2)
                  λ n w e3.
                    kept_bind place v (fetch_free_fln mmpi w) _ (fetched mmpi w e3)
                      λ fln x e4. listed lst_push_front hd (sub64 n s.min_block_order) fln x e4)
              t e1))

  its_size : (idx : ℕ) → Keeps (block_size_by_idx idx)
  unfolding block_size_by_idx
  its_size idx s e =
      kept_bind place v (lifted (shift_one s.min_block_order) s) _
        (kept_lifted place v (shift_one s.min_block_order) e)
        λ low t e1.
          kept_bind place v (lifted (shift_one idx) t) _ (kept_lifted place v (shift_one idx) e1)
            λ n u e2. e2

  first_block : (mmpi blk : Ptr) (idx : ℕ) → Keeps (mmp_init_block mmpi blk idx)
  unfolding mmp_init_block
  first_block mmpi blk idx s e =
      kept_bind place v (block_size_by_idx idx s) _ (its_size idx s e) λ size t e1.
        kept_bind place v (make_block blk (size % 2 ^ 32) t) _ (block blk (size % 2 ^ 32) t e1)
          λ hd u e2.
            either (hd == null) (pure fail) (return_free_node_to_head mmpi hd) (λ _ e. e)
              (returned mmpi hd) u e2

  nodes : (n : ℕ) (mmpi : Ptr) (i : ℕ) → Keeps (init_nodes n mmpi i)
  unfolding init_nodes
  nodes zero mmpi i s e = e
  nodes (suc n) mmpi i s e =
      kept_bind place v (on_links (lst_clr (fln_of s i)) s) _ (links (lst_clr (fln_of s i)) s e)
        λ _ t e1.
          kept_bind place v (on_links (lst_push_back (free_fln_list_of mmpi) (fln_of s i)) _) _
            (links (lst_push_back (free_fln_list_of mmpi) (fln_of s i)) _ e1)
            λ _ u e2. nodes n mmpi (suc i) u e2

  lists : (n i : ℕ) → Keeps (init_lists n i)
  unfolding init_lists
  lists zero i s e = e
  lists (suc n) i s e =
      kept_bind place v (on_links (lst_new (flh_of s i)) _) _ (links (lst_new (flh_of s i)) _ e)
        λ _ u e2. lists n (suc i) u e2

  going_on :
      {A : Type 0} (stop : A) (code : Code) (rest : M A)
      → Keeps rest
      → Keeps (on_success stop code rest)
  going_on stop fail rest k s e = e
  going_on stop succeed rest k s e = k s e

  unless :
      {A B : Type 0} (r : Option A) (k : A → M (Option B))
      → ((a : A) → Keeps (k a))
      → Keeps (unless_out r k)
  unless none k keeps s e = e
  unless (some a) k keeps s e = keeps a s e

  one_size :
      (fuel : ℕ) (mmpi : Ptr) (idx blk_size end : ℕ) (chk1 chk2 : Ptr)
      → Keeps (fill_size fuel mmpi idx blk_size end chk1 chk2)
  unfolding fill_size
  one_size zero mmpi idx blk_size end chk1 chk2 s e = e
  one_size (suc fuel) mmpi idx blk_size end chk1 chk2 s e = kept_if place v (ltb end chk2) _ _ e (
      kept_bind place v (mmp_init_block mmpi chk1 idx s) _ (first_block mmpi chk1 idx s e)
        λ code t e1.
          going_on _ code _ (one_size fuel mmpi idx blk_size end chk2 (add64 chk2 blk_size)) t e1)

  chunk :
      (rounds fuel : ℕ) (mmpi : Ptr) (idx end : ℕ) (chk1 chk2 : Ptr)
      → Keeps (fill_chunk rounds fuel mmpi idx end chk1 chk2)
  unfolding fill_chunk
  chunk rounds zero mmpi idx end chk1 chk2 s e = e
  chunk rounds (suc fuel) mmpi idx end chk1 chk2 s e =
      kept_if place v (not (ltb 0 idx && (ltb chk1 end && ltb chk2 end))) _ _ e (
        kept_bind place v (block_size_by_idx idx s) _ (its_size idx s e) λ blk_size t e1.
          kept_bind place v (fill_size rounds mmpi idx blk_size end chk1 (add64 chk1 blk_size) t) _
            (one_size rounds mmpi idx blk_size end chk1 (add64 chk1 blk_size) t e1)
            λ r u e2.
              unless r _
                (λ (code, c1, c2) w e3.
                  going_on _ code _ (chunk rounds fuel mmpi (idx / 2) end c1 c2) w e3)
                u e2)

kept_post :
    {A : Type 0} (addr : Ptr) (v : Place) (o : Option (A × Impl))
    → Kept (place_at addr) v o
    → Post (λ _ t. place_at addr t ≡ v) o
kept_post addr v none kept = tt
kept_post addr v (some (a, t)) kept = kept

-- The loops of `_mmp_init_chunk` end, and the chunk is where they started it.
module _ (g addr cur max : ℕ) (v : Place) (fits : v.end + 2 ^ 60 < word) (enough : v.end < g)
    (big : 5 ≤ g) (few : v.list_count ≤ 31) where
  abbrev pub its_size_of : ℕ
  its_size_of = bit_and (sub64 v.end cur) (sub64 0 max)

  abbrev pub laid : Place
  laid = record v { chunk = cur; size = its_size_of }

  pub below_end : cur < v.end → cur + its_size_of ≤ v.end
  below_end inside = omega (arith, bit_and-le (sub64 v.end cur) (sub64 0 max), inside, fits)

  filled :
      (s : Impl)
      → place_at addr s ≡ laid
      → cur < v.end
      → Post
          (Outcome laid addr)
          (fill_chunk (suc g) (suc g) addr (v.list_count - 1) (add64 cur its_size_of) cur null s)
  filled s e inside =
      let sum : add64 cur its_size_of ≡ cur + its_size_of = omega (arith, below_end inside, fits) in
      let power : 2 ^ 5 ≤ 2 ^ g = pow-le-pow_right {n = 2} (omega arith) {i = 5} {j = g} big in
      outcome laid addr _
        (chunk addr laid (suc g) (suc g) addr (v.list_count - 1) (add64 cur its_size_of) cur null s
          e)
        (rw sum (
          fill_chunk-Ended (suc g) g addr (v.list_count - 1) (cur + its_size_of) cur null s
            (omega (arith, below_end inside, fits)) (omega (arith, below_end inside, enough))
            (omega (arith, few, power))))

  -- Where the chunk starts behind its end, the creation fails.
  abbrev pub Fits : Code → Impl → Type 0
  Fits fail s = Unit {0}
  Fits succeed s = (place_at addr s ≡ laid) × (cur < v.end)

  abbrev pub Laid : Option Code → Impl → Type 0
  Laid r s = (c : Code) × (r ≡ some c) × Fits c s

  pub sections : (s : Impl) → place_at addr s ≡ v → Post Laid (init_sections (suc g) addr cur max s)
  unfolding init_sections
  sections s e =
      ends_bind _ Laid (on_links (lst_new (free_fln_list_of addr)) s) _
        (kept_post addr v (on_links (lst_new (free_fln_list_of addr)) s)
          (links addr v (lst_new (free_fln_list_of addr)) s e))
        λ _ t e1.
          ends_bind _ Laid (init_nodes s.fln_count addr 0 t) _
            (kept_post addr v (init_nodes s.fln_count addr 0 t)
              (nodes addr v s.fln_count addr 0 t e1))
            λ _ u e2.
              ends_bind _ Laid (init_lists s.free_list_count 0 u) _
                (kept_post addr v (init_lists s.free_list_count 0 u)
                  (lists addr v s.free_list_count 0 u e2))
                λ _ w e3.
                  let end_is : s.addr_end addr ≡ v.end = ap (λ p. p.end) e in
                  let count_is : s.free_list_count ≡ v.list_count = ap (λ p. p.list_count) e in
                  rw (end_is, count_is) (last w e3)
    where
      with_inside : cur < v.end → (r : Option Code) (t : Impl) → Outcome laid addr r t → Laid r t
      with_inside inside r t (fail, e, f) = (fail, e, tt)
      with_inside inside r t (succeed, e, f) = (succeed, e, (f, inside))

      last :
          (w : Impl)
          → place_at addr w ≡ v
          → Post Laid (
              (if leb v.end cur then pure (some fail) else do
                λ t. some (tt, record t { chunk_addr = cur; chunk_size = its_size_of })
                fill_chunk (suc g) (suc g) addr (v.list_count - 1) (add64 cur its_size_of) cur null)
                w)
      last w e3 = elim (Bool-cases (leb v.end cur)) [
        | inl behind ↦ rw behind (fail, refl, tt)
        | inr inside ↦ rw inside (
            post_map (Outcome laid addr) Laid _
              (filled (record w { chunk_addr = cur; chunk_size = its_size_of })
                (ap (λ (p : Place). record p { chunk = cur; size = its_size_of }) e3)
                (ground arith))
              λ r t o. with_inside (ground arith) r t o)
      ]
