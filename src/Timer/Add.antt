-- ===== src/Timer/Add.antt =====
-- What `add_timer` of src/timer.c does to the lists.
use syslib.Prelude.{
  ℕ, ◌+◌, ◌^◌, ◌<◌, ◌≡◌, ◌≢◌, refl, ap, upd, arith, some, List, [], ◌∷◌, ◌++◌, ne→==, eq→==, sub64,
  add64, word,
}
use syslib.Dlist.{Ptr, null}
use syslib.Dlist.Chain.{◌∉◌, nodes, IsList, SameOutside}
use syslib.Dlist.Fresh.{lst_clr-run, push_cleared-IsList}
use syslib.Timer.{Wheel, type_magic, list_of, lln, add, add_timer, filled}
use syslib.Timer.Slots.{slot_for, place-slot_for}

-- What the new timer `node` comes to: the last of the list at `list`, with the fields that are given.
pub record Added (v w : Wheel) (node list : Ptr) (xs : List Ptr) (delay : ℕ) (callback : Ptr)
    (once : ℕ) (param : Ptr) : Type 0 where
  pub appended : IsList w.links list (xs ++ (lln node ∷ []))
  pub same : SameOutside (lln node ∷ nodes list xs) v.links w.links
  pub due : w.run_tick ≡ upd v.run_tick node (v.current_tick + delay)
  pub repeats : w.delay_tick ≡ upd v.delay_tick node delay
  pub calls : w.callback_func ≡ upd v.callback_func node callback
  pub passes : w.func_param ≡ upd v.func_param node param
  pub runs : w.run_once ≡ upd v.run_once node once
  pub marked : w.magic ≡ upd v.magic node type_magic
  pub tick : w.current_tick ≡ v.current_tick

-- For a callback and a node that are not null, a delay below 2^32 that does not take the tick over
-- 2^64, and a well-formed list of `slot_for` that does not have the node, `add_timer` returns the
-- node; it is appended to that list, its callback, parameter, delay, mark and whether it runs once
-- are stored, it is due in `delay` ticks from now, and no other node is touched.
pub add_timer-Added :
    (v : Wheel) (wheel node : Ptr) (delay : ℕ) (callback : Ptr) (once : ℕ) (param : Ptr)
    (xs : List Ptr)
    → callback ≢ null
    → node ≢ null
    → delay < 2 ^ 32
    → v.current_tick + delay < word
    → IsList v.links (list_of wheel (slot_for v.current_tick delay)) xs
    → lln node ∉ nodes (list_of wheel (slot_for v.current_tick delay)) xs
    → (w : Wheel) × (add_timer wheel node delay callback once param v ≡ some (node, w))
      × Added v w node (list_of wheel (slot_for v.current_tick delay)) xs delay callback once param
unfolding add_timer add
add_timer-Added v wheel node delay callback once param xs hc hn small fits is out =
    let n = lln node in
    let list = list_of wheel (slot_for v.current_tick delay) in
    let (t, run, i, same) = push_cleared-IsList v.links list n xs is (omega arith) out in
    let due : add64 v.current_tick delay ≡ v.current_tick + delay = omega arith in
    let diff : sub64 (v.current_tick + delay) v.current_tick ≡ delay = omega arith in
    (
      record (filled node delay callback once param v) { links = t },
      rw
          (
            ne→== callback null hc,
            ne→== node null hn,
            lst_clr-run v.links n (omega arith),
            eq→== node node refl,
            due,
            diff,
            place-slot_for v.current_tick delay small,
            run,
          )
          refl,
      record {
        appended = i;
        same = same;
        due = ap (upd v.run_tick node) due;
        repeats = refl;
        calls = refl;
        passes = refl;
        runs = refl;
        marked = refl;
        tick = refl;
      },
    )
