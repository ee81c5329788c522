-- ===== src/Dlist.antt =====
-- src/dlist.c and inc/dlist.h: intrusive doubly linked lists. The store holds the `prev` and `next`
-- fields of every `struct dlnode`, by address. A `struct dlist` at address l has its head sentinel
-- at l and its tail sentinel at l + 16, the size of a node.
pub mod Chain
pub mod Insert
pub mod Fresh
pub mod Unlink
pub mod Remove
pub mod Pop
pub mod Check
pub mod Query
pub mod Move
mod Tests
use syslib.Prelude.{
  Run, pure, and_then, ◌>>=◌, ◌>>◌, upd, ℕ, zero, suc, ◌+◌, Bool, true, false, ◌||◌, Option, none,
  some, ◌==◌, if◌then◌else◌, ◌≡◌, ◌≢◌, arith,
}

abbrev pub Ptr : Type 0
Ptr = ℕ

abbrev pub null : Ptr
null = 0

pub record Links : Type 0 where
  pub prev : Ptr → Ptr
  pub next : Ptr → Ptr

-- The return codes 0 and -1.
pub data Code : Type 0 where
  succeed fail : Code

abbrev pub M : Type 0 → Type 0
M A = Run Links A

unfoldable pub get_prev : Ptr → M Ptr
get_prev p s = if p == null then none else some (s.prev p, s)

unfoldable pub get_next : Ptr → M Ptr
get_next p s = if p == null then none else some (s.next p, s)

unfoldable pub set_prev : Ptr → Ptr → M (Unit {0})
set_prev p q s = if p == null then none else some (tt, record s { prev = upd s.prev p q })

unfoldable pub set_next : Ptr → Ptr → M (Unit {0})
set_next p q s = if p == null then none else some (tt, record s { next = upd s.next p q })

module _ {p : Ptr} (ne : p ≢ null) (s : Links) where
  pub get_prev-ok : get_prev p s ≡ some (s.prev p, s)
  unfolding get_prev
  get_prev-ok = ground arith

  pub get_next-ok : get_next p s ≡ some (s.next p, s)
  unfolding get_next
  get_next-ok = ground arith

  pub set_prev-ok : (q : Ptr) → set_prev p q s ≡ some (tt, record s { prev = upd s.prev p q })
  unfolding set_prev
  set_prev-ok q = ground arith

  pub set_next-ok : (q : Ptr) → set_next p q s ≡ some (tt, record s { next = upd s.next p q })
  unfolding set_next
  set_next-ok q = ground arith

-- `&lst->tail`; `&lst->head` is `lst` itself.
abbrev pub tail_of : Ptr → Ptr
tail_of lst = lst + 16

unfoldable pub lst_new : Ptr → M Code
lst_new lst = if lst == null then pure fail else do
  set_prev lst null
  set_next lst (tail_of lst)
  set_prev (tail_of lst) lst
  set_next (tail_of lst) null
  pure succeed

unfoldable pub lst_clr : Ptr → M Code
lst_clr node =
    if node == null then pure fail else do set_prev node null; set_next node null; pure succeed

unfoldable pub lst_empty : Ptr → M Bool
lst_empty lst = do
  first ← get_next lst
  last ← get_prev (tail_of lst)
  pure (first == tail_of lst || last == lst)

unfoldable pub lst_insert_before : Ptr → Ptr → Ptr → M Code
lst_insert_before lst suc_node node =
    if (lst == null || suc_node == null) || node == null
    then pure fail
    else if suc_node == lst
    then pure fail
    else do
      p ← get_prev suc_node
      set_prev node p
      set_next node suc_node
      q ← get_prev suc_node
      set_next q node
      set_prev suc_node node
      pure succeed

unfoldable pub lst_insert_after : Ptr → Ptr → Ptr → M Code
lst_insert_after lst prv node =
    if (lst == null || prv == null) || node == null
    then pure fail
    else if prv == tail_of lst
    then pure fail
    else do
      set_prev node prv
      n ← get_next prv
      set_next node n
      q ← get_next prv
      set_prev q node
      set_next prv node
      pure succeed

-- The four writes that `lst_remove` and `lst_remove_node` end with.
abbrev unlink : Ptr → M Code
unlink node = do
  p ← get_prev node
  n ← get_next node
  set_next p n
  n' ← get_next node
  p' ← get_prev node
  set_prev n' p'
  set_prev node null
  set_next node null
  pure succeed

unfoldable pub lst_remove : Ptr → Ptr → M Code
lst_remove lst node = if lst == null || node == null then pure fail else do
  p ← get_prev node
  n ← get_next node
  first ← get_next lst
  last ← get_prev (tail_of lst)
  if p == null || n == null
      then pure fail
      else if last == lst || first == tail_of lst
      then pure fail
      else if node == lst || node == tail_of lst
      then pure fail
      else unlink node

unfoldable pub lst_remove_node : Ptr → M Code
lst_remove_node node = if node == null then pure fail else do
  p ← get_prev node
  n ← get_next node
  if p == null || n == null then pure fail else unlink node

unfoldable pub lst_push_back : Ptr → Ptr → M Code
unfolding lst_insert_before
lst_push_back lst node = lst_insert_before lst (tail_of lst) node

unfoldable pub lst_push_front : Ptr → Ptr → M Code
unfolding lst_insert_after
lst_push_front lst node = lst_insert_after lst lst node

-- The node, or null where the removal fails.
abbrev removed : Ptr → Code → M Ptr
removed node succeed = pure node
removed node fail = pure null

unfoldable pub lst_pop_back : Ptr → M Ptr
lst_pop_back lst =
    if lst == null
    then pure null
    else do node ← get_prev (tail_of lst); code ← lst_remove lst node; removed node code

unfoldable pub lst_pop_front : Ptr → M Ptr
lst_pop_front lst =
    if lst == null
    then pure null
    else do node ← get_next lst; code ← lst_remove lst node; removed node code

unfoldable pub lst_first : Ptr → M Ptr
lst_first lst = get_next lst

-- It returns the tail sentinel, the end of a walk that starts at `lst_first`.
unfoldable pub lst_last : Ptr → Ptr
lst_last lst = tail_of lst

-- How a walk of `_lst_check_loop` ends: at the sentinel, by a meeting of the two pointers, by a
-- null pointer, or not within the fuel.
pub data Walk : Type 0 where
  at_end met crashed out_of_fuel : Walk

-- One of the two loops: `step` is `next` or `prev`, `stop` the sentinel in that direction.
unfoldable pub walk : (Ptr → Ptr) → Ptr → ℕ → Ptr → Ptr → Walk
walk step stop zero pf ps = out_of_fuel
walk step stop (suc fuel) pf ps =
    let pf' = step (step pf) in
    let ps' = step ps in
    let rest = walk step stop fuel pf' ps' in
    if pf == stop
    then at_end
    else if pf == null
    then crashed
    else if step pf == stop
    then at_end
    else if ps == stop
    then at_end
    else if step pf == null || ps == null
    then crashed
    else if pf' == ps'
    then met
    else rest

-- The result of the second loop, if the first has come to its end.
abbrev then_walk : Walk → Walk → Walk
then_walk at_end back = back
then_walk forth back = forth

-- `at_end` is the return of 0, `met` that of -1.
unfoldable pub lst_check : ℕ → Ptr → Links → Walk
unfolding walk
lst_check fuel lst s =
    let back = walk s.prev lst fuel (s.prev (tail_of lst)) (s.prev (tail_of lst)) in
    if lst == null
    then crashed
    else then_walk (walk s.next (tail_of lst) fuel (s.next lst) (s.next lst)) back
