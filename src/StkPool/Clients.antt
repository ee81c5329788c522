-- ===== src/StkPool/Clients.antt =====
-- What clients of the pool of src/stkpool.c can rely on: the frames that are out at the same time.
use syslib.Prelude.{
  ℕ, ◌+◌, ◌-◌, ◌*◌, ◌≤◌, ◌<◌, ◌≡◌, ◌≢◌, ◌⊎◌, inl, inr, refl, ap, sym, ◌∙◌, not, ◌&&◌, List, [], ◌∷◌,
  arith, ◌==◌, if◌then◌else◌, some, Bool-cases, ◌/◌,
}
use mathlib.Core.Path.{subst}
use native.Mathlib.Nat.{mul-le-mul_right, add-mul}
use syslib.Dlist.{Ptr, null, succeed}
use syslib.Dlist.Chain.{has, ◌∈◌, ◌∉◌, Distinct, ne_of_mem}
use syslib.StkPool.{Pool, stkp_alloc, stkp_free}
use syslib.StkPool.Frames.{frame, IsPool}
use syslib.StkPool.Alloc.{
  Same, Same-frame, Same-trans, stkp_alloc-takes, stkp_alloc-nil, head-not_free, index-frame,
  four_le-page,
}
use syslib.StkPool.Release.{stkp_free-returns}

abbrev pub erase : Ptr → List Ptr → List Ptr
erase p [] = []
erase p (q ∷ live) = if p == q then live else q ∷ erase p live

-- What one client may do from the pool `s₀` on, with the frames that it holds: allocate, with or
-- without success, and free a frame that it holds.
pub data History (stkpi : Ptr) (s₀ : Pool) : Pool → List Ptr → Type 0 where
  start : History stkpi s₀ s₀ []
  allocated :
      {s t : Pool} {p : Ptr} {live : List Ptr}
      → History stkpi s₀ s live
      → stkp_alloc (stkpi + 8) s ≡ some (p, t)
      → p ≢ null
      → History stkpi s₀ t (p ∷ live)
  refused :
      {s t : Pool} {live : List Ptr}
      → History stkpi s₀ s live
      → stkp_alloc (stkpi + 8) s ≡ some (null, t)
      → History stkpi s₀ t live
  freed :
      {s t : Pool} (p : Ptr) {live : List Ptr}
      → History stkpi s₀ s live
      → p ∈ live
      → stkp_free (stkpi + 8) p s ≡ some (succeed, t)
      → History stkpi s₀ t (erase p live)

has-erase :
    (p q : Ptr) (live : List Ptr)
    → Distinct live
    → has q (erase p live) ≡ (not (q == p) && has q live)
has-erase p q [] d = ground arith
has-erase p q (x ∷ live) d = ground (arith, has-erase p q live d.1, ne_of_mem q x live)

Distinct-erase : (p : Ptr) (live : List Ptr) → Distinct live → Distinct (erase p live)
Distinct-erase p [] d = tt
Distinct-erase p (x ∷ live) d = ground (arith, Distinct-erase p live d.1, has-erase p x live d.1)

-- The frames that are out are those that are not free.
record Held (stkpi : Ptr) (s₀ s : Pool) (live : List Ptr) (free : List ℕ) : Type 0 where
  pool : IsPool stkpi s free
  same : Same s₀ s
  distinct : Distinct live
  out : (i : ℕ) → i < s.stk_frm_cnt → has (frame s i) live ≡ not (has i free)
  frames : (p : Ptr) → p ∈ live → (i : ℕ) × (i < s.stk_frm_cnt) × (p ≡ frame s i)

frame-injective :
    (stkpi : Ptr) (s : Pool) (free : List ℕ)
    → IsPool stkpi s free
    → (i j : ℕ) → frame s i ≡ frame s j
    → i ≡ j
frame-injective stkpi s free is i j e =
    sym (index-frame stkpi s free is i)
    ∙ ap (λ p. (p - s.sys_pg_size - s.payload_trunk_addr) / s.stk_frm_size) e
    ∙ index-frame stkpi s free is j

module _ (stkpi : Ptr) (s₀ s t : Pool) (live : List Ptr) where
  Held-alloc :
      (i : ℕ) (free : List ℕ)
      → Held stkpi s₀ s live (i ∷ free)
      → IsPool stkpi t free
      → Same s t
      → Held stkpi s₀ t (frame s i ∷ live) free
  Held-alloc i free h is same =
      let lt : i < s.stk_frm_cnt = h.pool.in_range i (ground arith) in
      let fresh = head-not_free stkpi s i free h.pool in
      record {
        pool = is;
        same = Same-trans s₀ s t h.same same;
        distinct = (ground (arith, h.out i lt), h.distinct);
        out = λ j l.
            ap (λ p. has p (frame s i ∷ live)) (Same-frame s t same j)
            ∙ (ground (
              arith,
              h.out j (rw (← same.count) l),
              frame-injective stkpi s (i ∷ free) h.pool j i,
              fresh,
            ));
        frames = λ p m. elim (Bool-cases (p == frame s i)) [
          | inl e ↦ (i, rw same.count lt, ground (arith, Same-frame s t same i))
          | inr ne ↦
              let (j, l, e) = h.frames p (ground arith) in
              (j, rw same.count l, e ∙ sym (Same-frame s t same j))
        ];
      }

  Held-free :
      (i : ℕ) (free : List ℕ)
      → Held stkpi s₀ s live free
      → i < s.stk_frm_cnt
      → IsPool stkpi t (i ∷ free)
      → Same s t
      → Held stkpi s₀ t (erase (frame s i) live) (i ∷ free)
  Held-free i free h lt is same = record {
    pool = is;
    same = Same-trans s₀ s t h.same same;
    distinct = Distinct-erase (frame s i) live h.distinct;
    out = λ j l.
        ap (λ p. has p (erase (frame s i) live)) (Same-frame s t same j)
        ∙ (ground (
          arith,
          h.out j (rw (← same.count) l),
          frame-injective stkpi s free h.pool j i,
          has-erase (frame s i) (frame s j) live h.distinct,
        ));
    frames = λ p m.
        let (j, l, e) = h.frames p (ground (arith, has-erase (frame s i) p live h.distinct)) in
        (j, rw same.count l, e ∙ sym (Same-frame s t same j));
  }

module _ (stkpi : Ptr) (s₀ : Pool) where
  abbrev Holds : Pool → List Ptr → Type 0
  Holds s live = (free : List ℕ) × Held stkpi s₀ s live free

  after_alloc :
      (s t : Pool) (p : Ptr) (live : List Ptr) (free : List ℕ)
      → Held stkpi s₀ s live free
      → stkp_alloc (stkpi + 8) s ≡ some (p, t)
      → ((p ≡ null) × (t ≡ s)) ⊎ Holds t (p ∷ live)
  after_alloc s t p live [] h run =
      inl (cc (stkp_alloc-nil stkpi s h.pool), cc (stkp_alloc-nil stkpi s h.pool))
  after_alloc s t p live (i ∷ free) h run =
      let (u, run', is, same) = stkp_alloc-takes stkpi s i free h.pool in
      let e : frame s i ≡ p = cc in
      let f : u ≡ t = cc in
      inr (
        free,
        subst (λ r. Held stkpi s₀ t (r ∷ live) free) e
            (subst (λ r. Held stkpi s₀ r (frame s i ∷ live) free) f
              (Held-alloc stkpi s₀ s u live i free h is same)),
      )

  after_free :
      (s t : Pool) (p : Ptr) (live : List Ptr) (free : List ℕ)
      → Held stkpi s₀ s live free
      → p ∈ live
      → stkp_free (stkpi + 8) p s ≡ some (succeed, t)
      → Holds t (erase p live)
  after_free s t p live free h m run =
      let (i, lt, e) = h.frames p m in
      let out : i ∉ free = ground (arith, h.out i lt) in
      let (u, run', is, same) = stkp_free-returns stkpi s i free h.pool lt out in
      let run'' : stkp_free (stkpi + 8) (frame s i) s ≡ some (succeed, t) = rw (← e) run in
      let f : u ≡ t = cc in
      (
        i ∷ free,
        subst (λ r. Held stkpi s₀ t (erase r live) (i ∷ free)) (sym e)
            (subst (λ r. Held stkpi s₀ r (erase (frame s i) live) (i ∷ free)) f
              (Held-free stkpi s₀ s u live i free h lt is same)),
      )

  History-Held : {s : Pool} {live : List Ptr} → Holds s₀ [] → History stkpi s₀ s live → Holds s live
  History-Held h History.start = h
  History-Held h (History.allocated {s} {t} {p} {live} past run ne) =
      let (free, held) = History-Held h past in
      elim (after_alloc s t p live free held run) [ inl (e, _) ↦ absurd (ne e) | inr after ↦ after ]
  History-Held h (History.refused {s} {t} {live} past run) =
      let (free, held) = History-Held h past in
      elim (after_alloc s t null live free held run) [
        | inl (_, e) ↦ (free, subst (λ r. Held stkpi s₀ r live free) (sym e) held)
        | inr (free', after) ↦
            let (j, _, e) = after.frames null (ground arith) in
            absurd (omega (arith, four_le-page stkpi t free' after.pool))
      ]
  History-Held h (History.freed {s} {t} p {live} past m run) =
      let (free, held) = History-Held h past in after_free s t p live free held m run

lt_of_mul : (i j n : ℕ) → i * n < j * n → i < j
lt_of_mul i j n h = elim (le_or_lt j i) [
  | inl le ↦ absurd (omega (arith, mul-le-mul_right n le))
  | inr lt ↦ lt
]
  where
    le_or_lt : (a b : ℕ) → (a ≤ b) ⊎ (b < a)
    le_or_lt a b = omega arith

-- After any history of a well-formed pool all of whose frames are free, the frames that are out are
-- distinct, each lies in the pool behind its guard page, and of any two the one ends, and the guard
-- page of the other follows, before the other starts.
pub live_apart :
    (stkpi : Ptr) (s₀ s : Pool) (live free : List ℕ)
    → IsPool stkpi s₀ free
    → ((i : ℕ) → i < s₀.stk_frm_cnt → i ∈ free)
    → History stkpi s₀ s live
    → Distinct live
      × ((p : Ptr)
          → p ∈ live
          → (s₀.payload_trunk_addr + s₀.sys_pg_size ≤ p)
            × (p + s₀.stk_frm_size
                ≤ s₀.payload_trunk_addr + s₀.stk_frm_cnt * s₀.stk_frm_size + s₀.sys_pg_size))
      × ((p q : Ptr) → p ∈ live → q ∈ live → p < q → p + s₀.stk_frm_size ≤ q)
live_apart stkpi s₀ s live free is all past =
    let none_out : Held stkpi s₀ s₀ [] free = record {
      pool = is;
      same = record { trunk = refl; size = refl; count = refl; page = refl };
      distinct = tt;
      out = λ i lt. ground (arith, all i lt);
      frames = λ p m. absurd (cc m);
    } in
    let (free', held) = History-Held stkpi s₀ (free, none_out) past in
    let in_frame : (p : Ptr) → p ∈ live → (i : ℕ) × (i < s₀.stk_frm_cnt) × (p ≡ frame s₀ i) = λ p m.
      (let (i, lt, e) = held.frames p m in
        (i, omega (arith, held.same.count), e ∙ Same-frame s₀ s held.same i)) in
    (
      held.distinct,
      λ p m.
          (let (i, lt, e) = in_frame p m in
            let next : (i + 1) * s₀.stk_frm_size ≤ s₀.stk_frm_cnt * s₀.stk_frm_size =
              mul-le-mul_right s₀.stk_frm_size (omega arith) in
            (omega arith, omega (arith, add-mul i 1 s₀.stk_frm_size))),
      λ p q m n lt.
          (let (i, _, e) = in_frame p m in
            let (j, _, f) = in_frame q n in
            let less : i < j = lt_of_mul i j s₀.stk_frm_size (omega arith) in
            let next : (i + 1) * s₀.stk_frm_size ≤ j * s₀.stk_frm_size =
              mul-le-mul_right s₀.stk_frm_size (omega arith) in
            omega (arith, add-mul i 1 s₀.stk_frm_size)),
    )
