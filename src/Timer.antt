-- ===== src/Timer.antt =====
-- src/timer.c: the timer wheel. Its lists are lists of src/dlist.c; the wheel stands at an address,
-- with the tick at its start and the lists behind it. The fields of every `struct timer_node` are
-- kept by address.
pub mod Slots
pub mod Add
mod Tests
use syslib.Prelude.{
  ℕ, zero, suc, ◌+◌, ◌-◌, ◌*◌, ◌/◌, ◌%◌, ◌^◌, Bool, Option, none, some, ◌==◌, ltb, if◌then◌else◌,
  bit_and, sub64, add64, Run, zoomed, pure, and_then, ◌>>=◌, ◌>>◌, upd,
}
use syslib.Dlist.{Ptr, null, Links, Code, succeed, fail, lst_clr, lst_push_back, lst_remove_node}

pub record Wheel : Type 0 where
  pub current_tick : ℕ
  pub links : Links
  pub magic : Ptr → ℕ
  pub run_once : Ptr → ℕ
  pub run_tick : Ptr → ℕ
  pub delay_tick : Ptr → ℕ
  pub callback_func : Ptr → Ptr
  pub func_param : Ptr → Ptr

-- TIMER_NODE_TYPE_MAGIC
abbrev pub type_magic : ℕ
type_magic = 305402420

-- TV_SET_SHIFT_BITS, and the digit of a tick that TV_SET_MASK_IDX takes out.
abbrev pub shift_bits : ℕ → ℕ
shift_bits n = 8 + n * 6

unfoldable pub digit : ℕ → ℕ → ℕ
digit n tick = bit_and tick (63 * 2 ^ shift_bits n) / 2 ^ shift_bits n

-- A list of the wheel: one of the 256 of `_tv_set0`, or one of the 64 of a `_tv_set`.
pub data Slot : Type 0 where
  set0 : (i : ℕ) → Slot
  set : (n i : ℕ) → Slot

-- The address of the list.
abbrev pub list_of : Ptr → Slot → Ptr
list_of wheel (set0 i) = wheel + (8 + 32 * i)
list_of wheel (set n i) = wheel + (8 + 32 * 256 + 32 * 64 * n + 32 * i)

-- The loop of `_add_timer` from the set `n - 1` down; `none` is a timer that goes into no list.
unfoldable pub place_from : ℕ → (current diff : ℕ) → Option Slot
place_from zero current diff = none
place_from (suc n) current diff =
    let rest = place_from n current diff in
    if ltb 0 (digit n diff)
    then some (set n (bit_and (digit n diff + digit n current) 63))
    else rest

-- `diff_tick` is compared as an unsigned number.
unfoldable pub place : (current diff : ℕ) → Option Slot
place current diff =
    if ltb diff 256 then some (set0 (bit_and diff 255)) else place_from 4 current diff

abbrev pub M : Type 0 → Type 0
M A = Run Wheel A

-- An operation on the lists.
abbrev pub on_links : {A : Type 0} → Run Links A → M A
on_links m w = zoomed (m w.links) (λ l. record w { links = l })

-- `&tn->_lln`
abbrev pub lln : Ptr → Ptr
lln tn = tn + 40

abbrev pub put_in : Ptr → Ptr → Option Slot → M (Unit {0})
put_in wheel tn none = pure tt
put_in wheel tn (some slot) = do _ ← on_links (lst_push_back (list_of wheel slot) (lln tn)); pure tt

-- `_add_timer`
unfoldable pub add : Ptr → Ptr → M (Unit {0})
add wheel tn w = put_in wheel tn (place w.current_tick (sub64 (w.run_tick tn) w.current_tick)) w

-- The stores of `add_timer` to the new node.
abbrev pub filled :
    Ptr → (delay : ℕ) → (callback : Ptr) → (once : ℕ) → (param : Ptr) → Wheel → Wheel
filled tn delay callback once param w = record w {
  magic = upd w.magic tn type_magic;
  delay_tick = upd w.delay_tick tn delay;
  run_tick = upd w.run_tick tn (add64 w.current_tick delay);
  callback_func = upd w.callback_func tn callback;
  func_param = upd w.func_param tn param;
  run_once = upd w.run_once tn once;
}

-- `node` is what `mm_cache_alloc` returns.
unfoldable pub add_timer :
    Ptr → (node : Ptr) → (delay : ℕ) → (callback : Ptr) → (once : ℕ) → (param : Ptr) → M Ptr
add_timer wheel node delay callback once param =
    if callback == null then pure null else if node == null then pure null else do
      λ w. some (tt, filled node delay callback once param w)
      _ ← on_links (lst_clr (lln node))
      add wheel node
      pure node

-- The node that is given back to the cache.
unfoldable pub del_timer : Ptr → M (Option Ptr)
del_timer tn = if tn == null then pure none else λ w.
    (if w.magic tn == type_magic
        then (do _ ← on_links (lst_remove_node (lln tn)); pure (some tn))
        else pure none)
      w
