-- ===== src/Dlist/Fresh.antt =====
-- A node that is cleared and then appended, as the clients of src/dlist.c do.
use syslib.Prelude.{◌≡◌, ◌≢◌, refl, List, [], ◌∷◌, ◌++◌, arith, some, ne→==, upd}
use syslib.Dlist.{Ptr, null, Links, succeed, lst_clr, lst_push_back, set_prev-ok, set_next-ok}
use syslib.Dlist.Chain.{◌∉◌, nodes, IsList, SameOutside, IsList-frame, ne_of_mem}
use syslib.Dlist.Insert.{push-IsList}

abbrev pub cleared : Links → Ptr → Links
cleared s n = record { prev = upd s.prev n null; next = upd s.next n null }

pub lst_clr-run : (s : Links) (n : Ptr) → n ≢ null → lst_clr n s ≡ some (succeed, cleared s n)
unfolding lst_clr
lst_clr-run s n hn = rw (ne→== n null hn, set_prev-ok hn, set_next-ok hn) refl

pub push_cleared-IsList :
    (s : Links) (lst n : Ptr) (xs : List Ptr)
    → IsList s lst xs
    → n ≢ null
    → n ∉ nodes lst xs
    → (t : Links) × (lst_push_back lst n (cleared s n) ≡ some (succeed, t))
      × IsList t lst (xs ++ (n ∷ []))
      × SameOutside (n ∷ nodes lst xs) s t
push_cleared-IsList s lst n xs is hn out =
    let same : SameOutside (n ∷ []) s (cleared s n) = λ p o. ground arith in
    let is' : IsList (cleared s n) lst xs =
      IsList-frame (n ∷ []) xs is same
        (λ p m. ground (arith, ne_of_mem p n (nodes lst xs) m out)) in
    let (t, run, i, same') = (push-IsList (cleared s n) lst n xs is' hn out).0 in
    (t, run, i, λ p o. ground (arith, same' p, same p))
