-- ===== src/Utask.antt =====
-- src/utask.c: tasks with a stack of their own. The switches between the stacks are assembly; what
-- is modelled is the state of a task, which the C code keeps, and what each call does to it. No call
-- and no assembly file sets the state to uts_finished.
pub mod Order
mod Tests
use syslib.Prelude.{
  ℕ, zero, ◌+◌, ◌-◌, ◌^◌, Bool, true, false, Option, none, some, List, [], ◌∷◌, ◌==◌, if◌then◌else◌,
  sub64, ◌%◌,
}
use syslib.Misc.{round_down}
use syslib.Dlist.{Ptr, null, Code, succeed, fail}

pub data TaskState : Type 0 where
  uts_invalid uts_inited uts_waiting uts_running uts_finished : TaskState

-- `struct _utask_impl`, less the saved registers.
pub record Task : Type 0 where
  pub stk : Ptr
  pub stk_size : ℕ
  pub tsk_func : Ptr
  pub task_state : TaskState
  pub magic_number : ℕ

-- UTASK_MAGIC_NUM
abbrev pub magic : ℕ
magic = 1311768467139281697

abbrev same_state : TaskState → TaskState → Bool
same_state uts_inited uts_inited = true
same_state uts_waiting uts_waiting = true
same_state uts_running uts_running = true
same_state a b = false

-- `_conv_task`; a null pointer is `none`.
pub conv_task : Option Task → Option Task
conv_task none = none
conv_task (some t) = if t.magic_number == magic then some t else none

-- The common part of the three calls: the state that each asks for, and the one that it sets.
switch : TaskState → TaskState → Option Task → Option Task → Code × Option Task
switch from to none tsk = (fail, tsk)
switch from to (some t) tsk =
    if same_state t.task_state from
    then (succeed, some (record t { task_state = to }))
    else (fail, tsk)

-- Up to the call of `asm_run_task`.
pub utsk_run : Option Task → Code × Option Task
unfolding conv_task switch
utsk_run tsk = switch uts_inited uts_running (conv_task tsk) tsk

pub utsk_yield : Option Task → Code × Option Task
unfolding conv_task switch
utsk_yield tsk = switch uts_running uts_waiting (conv_task tsk) tsk

pub utsk_resume : Option Task → Code × Option Task
unfolding conv_task switch
utsk_resume tsk = switch uts_waiting uts_running (conv_task tsk) tsk

-- What `utsk_create` returns, the block that it gives back to the cache, and the task.
pub record Created : Type 0 where
  pub task : Option Task
  pub freed : Option Ptr

-- The error return: the block is given back if its pointer is not null.
abbrev give_back : Ptr → Created
give_back tsk = record { task = none; freed = if tsk == null then none else some tsk }

-- `tsk` is what the variable holds before anything is written to it; `zone` says whether
-- `_utask_try_restore_zone` succeeds, `block` and `stack` are what the two allocations return.
pub utsk_create :
    (tsk : Ptr) (zone : Bool) (block stack : Ptr) (stk_frm_size : ℕ) (tfunc : Ptr) → Created
utsk_create tsk zone block stack stk_frm_size tfunc =
    if tsk == null
    then give_back tsk
    else if tfunc == null
    then give_back tsk
    else if zone
    then (if block == null
        then give_back block
        else if stack == null
        then give_back block
        else record {
          task = some (record {
            stk = stack;
            stk_size = round_down ((stk_frm_size + 2 ^ 32 - 16) % 2 ^ 32) 16;
            tsk_func = tfunc;
            task_state = uts_inited;
            magic_number = magic;
          });
          freed = none;
        })
    else give_back tsk

-- The blocks that `utsk_destroy` gives back: the stack to the memory area, the task to its cache.
pub utsk_destroy : Ptr → Option Task → List Ptr
unfolding conv_task
utsk_destroy p tsk = blocks (conv_task tsk)
  where
    blocks : Option Task → List Ptr
    blocks none = []
    blocks (some t) = if t.stk == null then p ∷ [] else t.stk ∷ p ∷ []
