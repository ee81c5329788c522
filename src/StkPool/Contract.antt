-- ===== src/StkPool/Contract.antt =====
-- What the calls of src/stkpool.c promise, over the set of the frames that are used.
use syslib.Prelude.{
  ℕ, ◌+◌, ◌<◌, ◌≡◌, inl, inr, refl, ap, ◌∙◌, Bool, true, false, not, ◌&&◌, ◌||◌, List, [], ◌∷◌,
  arith, ◌==◌, if◌then◌else◌, bit_and, some, Bool-cases,
}
use syslib.Dlist.{Ptr, null, Code, succeed, fail}
use syslib.Dlist.Chain.{has}
use syslib.StkPool.{Pool, node_of, stkp_alloc, stkp_free}
use syslib.StkPool.Frames.{frame, IsPool}
use syslib.StkPool.Alloc.{Same, stkp_alloc-takes, stkp_alloc-nil, head-not_free, is_using}
use syslib.StkPool.Release.{stkp_free-returns, stkp_free_twice}

-- The `using` field of the node of a frame.
abbrev pub used : Ptr → Pool → ℕ → Bool
used stkpi s i = not (bit_and (s.payload (node_of stkpi i)) 3 == 0)

-- The contract of an allocation: null if all frames are used, and otherwise an unused frame, which
-- is used from then on.
pub data Allocates (stkpi : Ptr) (s : Pool) : Ptr → Pool → Type 0 where
  all_used :
      {t : Pool}
      → t ≡ s
      → ((i : ℕ) → i < s.stk_frm_cnt → used stkpi s i ≡ true)
      → Allocates stkpi s null t
  one_taken :
      {t : Pool} (i : ℕ)
      → i < s.stk_frm_cnt
      → used stkpi s i ≡ false
      → ((j : ℕ) → j < s.stk_frm_cnt → used stkpi t j ≡ ((j == i) || used stkpi s j))
      → Same s t
      → Allocates stkpi s (frame s i) t

-- The contract of a release of the frame `i`: refused if it is unused, and otherwise it is unused
-- from then on.
pub data Releases (stkpi : Ptr) (s : Pool) (i : ℕ) : Code → Pool → Type 0 where
  twice : {t : Pool} → t ≡ s → used stkpi s i ≡ false → Releases stkpi s i fail t
  given_back :
      {t : Pool}
      → used stkpi s i ≡ true
      → ((j : ℕ) → j < s.stk_frm_cnt → used stkpi t j ≡ (not (j == i) && used stkpi s j))
      → Same s t
      → Releases stkpi s i succeed t

used-free :
    (stkpi : Ptr) (s : Pool) (free : List ℕ)
    → IsPool stkpi s free
    → (i : ℕ) → i < s.stk_frm_cnt
    → used stkpi s i ≡ not (has i free)
used-free stkpi s free is i lt =
    ap (λ n. not (n == 0)) (is_using stkpi s free is i lt) ∙ flip (has i free)
  where
    flip : (b : Bool) → not ((if b then 0 else 1) == 0) ≡ not b
    flip true = refl
    flip false = refl

-- In a well-formed pool `stkp_alloc` always returns, and what it does is an allocation of the
-- contract; the pool is well-formed again.
alloc-Allocates :
    (stkpi : Ptr) (s : Pool) (free : List ℕ)
    → IsPool stkpi s free
    → (p : Ptr) × ((t : Pool) × ((free' : List ℕ) × (stkp_alloc (stkpi + 8) s ≡ some (p, t))
          × Allocates stkpi s p t
          × IsPool stkpi t free'))
alloc-Allocates stkpi s [] is = (
  null,
  (
    s,
    (
      [],
      stkp_alloc-nil stkpi s is,
      Allocates.all_used refl (λ i lt. used-free stkpi s [] is i lt),
      is,
    ),
  ),
)
alloc-Allocates stkpi s (i ∷ free) is =
    let (t, run, is', same) = stkp_alloc-takes stkpi s i free is in
    let lt : i < s.stk_frm_cnt = is.in_range i (ground arith) in
    let fresh = head-not_free stkpi s i free is in
    (
      frame s i,
      (
        t,
        (
          free,
          run,
          Allocates.one_taken i lt (ground (arith, used-free stkpi s (i ∷ free) is i lt))
              (λ j l. ground (
                arith,
                used-free stkpi s (i ∷ free) is j l,
                used-free stkpi t free is' j (rw same.count l),
                fresh,
              ))
              same,
          is',
        ),
      ),
    )

free-Releases :
    (stkpi : Ptr) (s : Pool) (free : List ℕ)
    → IsPool stkpi s free
    → (i : ℕ) → i < s.stk_frm_cnt
    → (c : Code) × ((t : Pool) × ((free' : List ℕ) × (stkp_free (stkpi + 8) (frame s i) s
            ≡ some (c, t))
          × Releases stkpi s i c t
          × IsPool stkpi t free'))
free-Releases stkpi s free is i lt = elim (Bool-cases (has i free)) [
  | inl m ↦ (
    fail,
    (
      s,
      (
        free,
        stkp_free_twice stkpi s i free is lt m,
        Releases.twice refl (used-free stkpi s free is i lt ∙ ap not m),
        is,
      ),
    ),
  )
  | inr out ↦
      let (t, run, is', same) = stkp_free-returns stkpi s i free is lt out in
      (
        succeed,
        (
          t,
          (
            i ∷ free,
            run,
            Releases.given_back (used-free stkpi s free is i lt ∙ ap not out)
                (λ j l. ground (
                  arith,
                  used-free stkpi s free is j l,
                  used-free stkpi t (i ∷ free) is' j (rw same.count l),
                ))
                same,
            is',
          ),
        ),
      )
]

-- In a well-formed pool both calls return, for every frame, and do what the contract says, by
-- whatever list of the free frames the pool is kept; the pool is well-formed again.
pub stkp_refines :
    (stkpi : Ptr) (s : Pool) (free : List ℕ)
    → IsPool stkpi s free
    → ((p : Ptr) × ((t : Pool) × ((free' : List ℕ) × (stkp_alloc (stkpi + 8) s ≡ some (p, t))
            × Allocates stkpi s p t
            × IsPool stkpi t free')))
      × ((i : ℕ)
          → i < s.stk_frm_cnt
          → (c : Code) × ((t : Pool) × ((free' : List ℕ) × (stkp_free (stkpi + 8) (frame s i) s
                  ≡ some (c, t))
                × Releases stkpi s i c t
                × IsPool stkpi t free')))
stkp_refines stkpi s free is = (alloc-Allocates stkpi s free is, free-Releases stkpi s free is)
