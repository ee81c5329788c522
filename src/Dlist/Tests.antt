-- ===== src/Dlist/Tests.antt =====
-- The operations of src/dlist.c on a list with the nodes 1 and 2 at address 100.
use syslib.Prelude.{
  ℕ, zero, suc, ◌≡◌, ◌≢◌, refl, [], ◌∷◌, arith, ◌==◌, some, if◌then◌else◌, ◌⊎◌, inl,
}
use syslib.Dlist.{
  null, Links, succeed, met, lst_push_back, lst_push_front, lst_remove, lst_remove_node, lst_check,
}
use syslib.Dlist.Chain.{nodes, IsList, SameOutside}
use syslib.Dlist.Insert.{push-IsList}
use syslib.Dlist.Remove.{Removed, remove-Removed}
use syslib.Dlist.Check.{iter, lst_check_met}

abbrev blank : Links
blank = record { prev = λ p. 7; next = λ p. 7 }

abbrev two : Links
two = record {
  prev = λ p. if p == 116 then 2 else if p == 2 then 1 else if p == 1 then 100 else 0;
  next = λ p. if p == 100 then 1 else if p == 1 then 2 else if p == 2 then 116 else 0;
}

two-IsList : IsList two 100 (1 ∷ 2 ∷ [])
two-IsList = ground arith

-- 1 → 2 → 3 → 2 round and round
abbrev looped : Links
looped = record {
  prev = λ p. 0;
  next = λ p.
      if p == 100 then 1 else if p == 1 then 2 else if p == 2 then 3 else if p == 3 then 2 else 0;
}

looped_inside :
    (n : ℕ) → (iter n looped.next 1 ≡ 1) ⊎ ((iter n looped.next 1 ≡ 2) ⊎ (iter n looped.next 1 ≡ 3))
looped_inside zero = inl refl
looped_inside (suc n) = ground (arith, looped_inside n)

looped_end : (n : ℕ) → (iter n looped.next 1 ≢ 116) × (iter n looped.next 1 ≢ null)
looped_end n = ground (arith, looped_inside n)

push-IsList_example :
    ((t : Links) × (lst_push_back 100 3 two ≡ some (succeed, t))
      × IsList t 100 (1 ∷ 2 ∷ 3 ∷ [])
      × SameOutside (3 ∷ nodes 100 (1 ∷ 2 ∷ [])) two t)
    × ((t : Links) × (lst_push_front 100 3 two ≡ some (succeed, t))
        × IsList t 100 (3 ∷ 1 ∷ 2 ∷ [])
        × SameOutside (3 ∷ nodes 100 (1 ∷ 2 ∷ [])) two t)
push-IsList_example = push-IsList two 100 3 (1 ∷ 2 ∷ []) two-IsList (omega arith) refl

remove-Removed_example :
    (t : Links) × (lst_remove 100 1 two ≡ some (succeed, t))
    × (lst_remove_node 1 two ≡ some (succeed, t))
    × Removed two t 100 1 [] (2 ∷ [])
remove-Removed_example = remove-Removed two 100 1 [] (2 ∷ []) two-IsList

lst_check_met_example : lst_check 4 100 looped ≡ met
lst_check_met_example =
    lst_check_met looped 100 1 2 4 (omega arith) looped_end refl (omega arith) (omega arith)
