-- ===== src/StkPool/Create.antt =====
-- The pool that `stkp_create` of src/stkpool.c leaves.
use syslib.Prelude.{
  ℕ, zero, suc, ◌+◌, ◌*◌, ◌%◌, ◌<◌, ◌≡◌, refl, ap, Bool, false, List, [], ◌∷◌, ◌++◌, arith, word,
  ltb, some, add64, upd,
}
use native.Mathlib.Nat.{mod-eq_of_lt}
use mathlib.Core.Path.{subst}
use syslib.Dlist.{Ptr, Links, succeed, tail_of, lst_push_back}
use syslib.Dlist.Chain.{has, ◌∉◌, IsList, has-append, nodes}
use syslib.Dlist.Fresh.{cleared, lst_clr-run, push_cleared-IsList}
use syslib.StkPool.{Pool, free_list_of, node_of, init_frame, init_frames}
use syslib.StkPool.Frames.{frame, node_list, node_of-injective, has-node_list, node-not_sentinel}
use syslib.StkPool.Alloc.{Same, Same-frame, Same-trans, node-ne}

abbrev pub upto : ℕ → List ℕ
upto zero = []
upto (suc n) = upto n ++ (n ∷ [])

pub has-upto : (i n : ℕ) → has i (upto n) ≡ ltb i n
has-upto i zero = ground arith
has-upto i (suc n) = ground (arith, has-append i (upto n) (n ∷ []), has-upto i n)

node_list-append :
    (stkpi : Ptr) (is js : List ℕ)
    → node_list stkpi (is ++ js) ≡ node_list stkpi is ++ node_list stkpi js
node_list-append stkpi [] js = refl
node_list-append stkpi (i ∷ is) js = ap (λ r. node_of stkpi i ∷ r) (node_list-append stkpi is js)

-- The first `i` frames are set up, and all of them are free.
pub record SetUp (stkpi : Ptr) (s : Pool) (i : ℕ) : Type 0 where
  pub list : IsList s.links (free_list_of stkpi) (node_list stkpi (upto i))
  pub words : (j : ℕ) → j < i → s.payload (node_of stkpi j) ≡ frame s j

module _ (stkpi : Ptr) (s : Pool) (i : ℕ) (up : SetUp stkpi s i) (fits : frame s i < word) where
  abbrev guard : Ptr
  guard = s.payload_trunk_addr + i * s.stk_frm_size

  abbrev framed : Links → Pool
  framed l = record s { payload = upd s.payload (node_of stkpi i) (frame s i); links = l }

  init_frame-run :
      (l : Links)
      → lst_push_back (free_list_of stkpi) (node_of stkpi i) (cleared s.links (node_of stkpi i))
        ≡ some (succeed, l)
      → init_frame stkpi i s ≡ some (guard, framed l)
  unfolding init_frame
  init_frame-run l run =
      let inner : i * s.stk_frm_size % word ≡ i * s.stk_frm_size = mod-eq_of_lt (omega arith) in
      let e : add64 s.payload_trunk_addr (i * s.stk_frm_size) ≡ guard = omega arith in
      let f : add64 guard s.sys_pg_size ≡ frame s i = omega arith in
      rw (lst_clr-run s.links (node_of stkpi i) (node-ne stkpi i), inner, e, f, run) refl

  init_frame-SetUp :
      (t : Pool) × (init_frame stkpi i s ≡ some (guard, t)) × SetUp stkpi t (suc i) × Same s t
  init_frame-SetUp =
      let n = node_of stkpi i in
      let head = free_list_of stkpi in
      let ns = node_list stkpi (upto i) in
      let away : n ∉ nodes head ns = ground (
        arith,
        node-not_sentinel stkpi i,
        has-append n ns (tail_of head ∷ []),
        has-node_list stkpi i (upto i),
        has-upto i i,
      ) in
      let (l, run, list, _) =
        push_cleared-IsList s.links head n ns up.list (node-ne stkpi i) away in
      (
        framed l,
        init_frame-run l run,
        record {
          list = rw (node_list-append stkpi (upto i) (i ∷ [])) list;
          words = λ j lt. ground (arith, up.words j, node_of-injective stkpi i j);
        },
        record { trunk = refl; size = refl; count = refl; page = refl },
      )

-- Where no page is refused, the loop sets up all of the frames.
pub init_frames-SetUp :
    (refuses : Ptr → Bool) (stkpi n i : ℕ) (s : Pool)
    → SetUp stkpi s i
    → ((j : ℕ) → j < i + n → frame s j < word)
    → ((j : ℕ) → j < i + n → refuses (s.payload_trunk_addr + j * s.stk_frm_size) ≡ false)
    → (t : Pool) × (init_frames refuses stkpi i n s ≡ some (succeed, t))
      × SetUp stkpi t (i + n)
      × Same s t
unfolding init_frames
init_frames-SetUp refuses stkpi zero i s up fits ok = (
  s,
  refl,
  subst (SetUp stkpi s) (omega arith) up,
  record { trunk = refl; size = refl; count = refl; page = refl },
)
init_frames-SetUp refuses stkpi (suc n) i s up fits ok =
    let (t, run, up', same) = init_frame-SetUp stkpi s i up (fits i (omega arith)) in
    let (u, run', up'', same') =
      init_frames-SetUp refuses stkpi n (suc i) t up'
        (λ j lt. rw (Same-frame s t same j) (fits j (omega arith)))
        (λ j lt. rw (same.trunk, same.size) (ok j (omega arith))) in
    (
      u,
      rw (run, ok i (omega arith)) run',
      subst (SetUp stkpi u) (omega arith) up'',
      Same-trans s t u same same',
    )
