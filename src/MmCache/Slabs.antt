-- ===== src/MmCache/Slabs.antt =====
-- The three lists of a cache of src/mmspace.c: in which of them a slab is.
use syslib.Prelude.{
  ℕ, ◌+◌, ◌-◌, ◌≤◌, ◌<◌, ◌≡◌, ◌≢◌, ◌⊎◌, inl, inr, refl, ap, sym, ◌∙◌, arith, List, [], ◌∷◌, some,
  upd, eq→==, ne→==,
}
use mathlib.Core.Path.{subst}
use syslib.Dlist.{Ptr, null, Links, succeed, tail_of, lst_remove, lst_push_front, get_next-ok}
use syslib.Dlist.Chain.{◌∈◌, IsList, IsList-inner}
use syslib.Dlist.Move.{Three}
use syslib.MmCache.{Store, full_list, empty_list, partial_list, zmove_cache, zfirst_cache}
use syslib.MmCache.Counts.{IsSlab, with_bits}

-- A slab of a cache, by its list node.
pub record Member (mzi : Ptr) (s : Store) (n : Ptr) : Type 0 where
  pub present : 8 < n
  pub slab : IsSlab s (n - 8)
  pub owner : s.cache (n - 8) ≡ mzi
  pub many : 2 ≤ s.obj_count (n - 8)

pub record IsCache (mzi : Ptr) (s : Store) (part full empty : List Ptr) : Type 0 where
  pub lists : Three s.links (partial_list mzi) (full_list mzi) (empty_list mzi) part full empty
  pub in_part :
      (n : Ptr)
      → n ∈ part
      → Member mzi s n × (0 < s.free_count (n - 8)) × (s.free_count (n - 8) < s.obj_count (n - 8))
  pub in_full : (n : Ptr) → n ∈ full → Member mzi s n × (s.free_count (n - 8) ≡ 0)
  pub in_empty :
      (n : Ptr) → n ∈ empty → Member mzi s n × (s.free_count (n - 8) ≡ s.obj_count (n - 8))

-- The store with the bits of one slab and the links changed.
abbrev pub after : Store → Ptr → ℕ → ℕ → Links → Store
after s mc b f l = record s {
  links = l;
  alloc_bits = upd s.alloc_bits mc b;
  free_count = upd s.free_count mc f;
}

module _ (s : Store) (mc b f : ℕ) (l : Links) where
  other-IsSlab : (q : Ptr) → q ≢ mc → IsSlab s q → IsSlab (after s mc b f l) q
  other-IsSlab q ne is = record {
    small = is.small;
    bits = ground (arith, is.bits);
    counted = ground (arith, is.counted);
    sized = is.sized;
    placed = is.placed;
    short = is.short;
    fits = is.fits;
  }

  linked-IsSlab : (q : Ptr) → IsSlab (with_bits s mc b f) q → IsSlab (after s mc b f l) q
  linked-IsSlab q is = record {
    small = is.small;
    bits = is.bits;
    counted = is.counted;
    sized = is.sized;
    placed = is.placed;
    short = is.short;
    fits = is.fits;
  }

module _ (mzi : Ptr) (s : Store) (n b f : ℕ) (l : Links) (big : 8 < n) where
  -- Another slab has not changed.
  pub other-Member :
      (m : Ptr)
      → m ≢ n
      → Member mzi s m
      → Member mzi (after s (n - 8) b f l) m
        × ((after s (n - 8) b f l).free_count (m - 8) ≡ s.free_count (m - 8))
  other-Member m ne is =
      let ne' : m - 8 ≢ n - 8 = λ e. ne (omega (arith, is.present)) in
      (
        record {
          present = is.present;
          slab = other-IsSlab s (n - 8) b f l (m - 8) ne' is.slab;
          owner = is.owner;
          many = is.many;
        },
        ground arith,
      )

  pub self-Member :
      Member mzi s n
      → IsSlab (with_bits s (n - 8) b f) (n - 8)
      → Member mzi (after s (n - 8) b f l) n × ((after s (n - 8) b f l).free_count (n - 8) ≡ f)
  self-Member is slab = (
    record {
      present = is.present;
      slab = linked-IsSlab s (n - 8) b f l (n - 8) slab;
      owner = is.owner;
      many = is.many;
    },
    ground (arith, eq→== (n - 8) (n - 8) refl),
  )

-- A move between two of the lists, as `_mm_zmove_cache` makes it.
zmove-run :
    (s : Store) (mc from_list to_list : Ptr) (t u : Links)
    → lst_remove from_list (mc + 8) s.links ≡ some (succeed, t)
    → lst_push_front to_list (mc + 8) t ≡ some (succeed, u)
    → zmove_cache mc from_list to_list s ≡ some (succeed, record s { links = u })
unfolding zmove_cache
zmove-run s mc from_list to_list t u remove push = rw remove (rw push refl)

pub zmove_node-run :
    (s : Store) (n from_list to_list : Ptr) (t u : Links)
    → 8 < n
    → lst_remove from_list n s.links ≡ some (succeed, t)
    → lst_push_front to_list n t ≡ some (succeed, u)
    → zmove_cache (n - 8) from_list to_list s ≡ some (succeed, record s { links = u })
zmove_node-run s n from_list to_list t u big remove push =
    let e : n - 8 + 8 ≡ n = omega arith in
    zmove-run s (n - 8) from_list to_list t u (ap (λ m. lst_remove from_list m s.links) e ∙ remove)
      (ap (λ m. lst_push_front to_list m t) e ∙ push)

-- The first slab of a list that is not empty.
pub zfirst-run :
    (s : Store) (list n : Ptr) (ns : List Ptr)
    → IsList s.links list (n ∷ ns)
    → zfirst_cache list s ≡ some (n - 8, s)
unfolding zfirst_cache
zfirst-run s list n ns is =
    let hl = (IsList-inner list (n ∷ ns) is).0 in
    let ne : n ≢ tail_of list = ground (arith, (IsList-inner list (n ∷ ns) is).2) in
    rw (get_next-ok hl, is.chain.0, ne→== n (tail_of list) ne) refl

pub zfirst-nil :
    (s : Store) (list : Ptr) → IsList s.links list [] → zfirst_cache list s ≡ some (null, s)
unfolding zfirst_cache
zfirst-nil s list is =
    let hl = (IsList-inner list [] is).0 in
    rw (get_next-ok hl, is.chain.0, eq→== (tail_of list) (tail_of list) refl) refl

-- The slab `n` has its bits changed and is in another list, or in the same.
module _ (mzi : Ptr) (s : Store) (n b f : ℕ) (u : Links) (part full empty : List Ptr) where
  pub rebuilt :
      (part' full' empty' : List Ptr)
      → IsCache mzi s part full empty
      → Member mzi s n
      → IsSlab (with_bits s (n - 8) b f) (n - 8)
      → Three u (partial_list mzi) (full_list mzi) (empty_list mzi) part' full' empty'
      → ((m : Ptr)
          → m ∈ part'
          → ((m ≡ n) × (0 < f) × (f < s.obj_count (n - 8))) ⊎ ((m ≢ n) × (m ∈ part)))
      → ((m : Ptr) → m ∈ full' → ((m ≡ n) × (f ≡ 0)) ⊎ ((m ≢ n) × (m ∈ full)))
      → ((m : Ptr) → m ∈ empty' → ((m ≡ n) × (f ≡ s.obj_count (n - 8))) ⊎ ((m ≢ n) × (m ∈ empty)))
      → IsCache mzi (after s (n - 8) b f u) part' full' empty'
  rebuilt part' full' empty' is mem slab th ps fs es =
      let t = after s (n - 8) b f u in
      let (self, free) = self-Member mzi s n b f u mem.present mem slab in
      record {
        lists = th;
        in_part = λ m h. elim (ps m h) [
          | inl (e, lo, hi) ↦
              subst
                (λ q.
                  Member mzi t q
                  × (0 < t.free_count (q - 8))
                  × (t.free_count (q - 8) < s.obj_count (q - 8)))
                (sym e) (self, rw free lo, rw free hi)
          | inr (ne, old) ↦
              let (keep, same) = other-Member mzi s n b f u mem.present m ne (is.in_part m old).0 in
              (keep, rw same (is.in_part m old).1, rw same (is.in_part m old).2)
        ];
        in_full = λ m h. elim (fs m h) [
          | inl (e, none) ↦
              subst (λ q. Member mzi t q × (t.free_count (q - 8) ≡ 0)) (sym e) (self, free ∙ none)
          | inr (ne, old) ↦
              let (keep, same) = other-Member mzi s n b f u mem.present m ne (is.in_full m old).0 in
              (keep, same ∙ (is.in_full m old).1)
        ];
        in_empty = λ m h. elim (es m h) [
          | inl (e, all) ↦
              subst (λ q. Member mzi t q × (t.free_count (q - 8) ≡ s.obj_count (q - 8))) (sym e)
                (self, free ∙ all)
          | inr (ne, old) ↦
              let (keep, same) =
                other-Member mzi s n b f u mem.present m ne (is.in_empty m old).0 in
              (keep, same ∙ (is.in_empty m old).1)
        ];
      }
