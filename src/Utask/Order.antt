-- ===== src/Utask/Order.antt =====
-- In which order the calls of src/utask.c succeed.
use syslib.Prelude.{
  ℕ, ◌+◌, ◌-◌, ◌^◌, ◌%◌, ◌≡◌, refl, arith, Bool, true, false, ◌&&◌, Option, some, List, [], ◌∷◌,
}
use syslib.Misc.{round_down}
use syslib.Dlist.{Ptr, Code, succeed, fail}
use syslib.Utask.{
  TaskState, uts_invalid, uts_finished, uts_inited, uts_waiting, uts_running, Task, magic, utsk_run,
  utsk_yield, utsk_resume, utsk_create,
}

pub data Call : Type 0 where
  run yield resume : Call

abbrev pub call : Call → Option Task → Code × Option Task
call run tsk = utsk_run tsk
call yield tsk = utsk_yield tsk
call resume tsk = utsk_resume tsk

abbrev pub succeeded : Code → Bool
succeeded succeed = true
succeeded fail = false

-- Whether all of the calls succeed, made one after another.
abbrev pub all_succeed : List Call → Option Task → Bool
all_succeed [] tsk = true
all_succeed (c ∷ cs) tsk = let (code, tsk') = call c tsk in succeeded code && all_succeed cs tsk'

-- The calls that may be made from a state on: a new task is run, a running one yields, a waiting
-- one is resumed.
abbrev pub may : TaskState → List Call → Bool
may st [] = true
may uts_inited (run ∷ cs) = may uts_running cs
may uts_running (yield ∷ cs) = may uts_waiting cs
may uts_waiting (resume ∷ cs) = may uts_running cs
may st (c ∷ cs) = false

module _ (stk size func : ℕ) where
  abbrev task_in : TaskState → Task
  task_in st = record {
    stk = stk;
    stk_size = size;
    tsk_func = func;
    task_state = st;
    magic_number = magic;
  }

  all_succeed-in :
      (st : TaskState) (cs : List Call) → all_succeed cs (some (task_in st)) ≡ may st cs
  unfolding utsk_run utsk_yield utsk_resume
  all_succeed-in st [] = refl
  all_succeed-in uts_inited (run ∷ cs) = all_succeed-in uts_running cs
  all_succeed-in uts_running (yield ∷ cs) = all_succeed-in uts_waiting cs
  all_succeed-in uts_waiting (resume ∷ cs) = all_succeed-in uts_running cs
  all_succeed-in uts_inited (yield ∷ cs) = refl
  all_succeed-in uts_inited (resume ∷ cs) = refl
  all_succeed-in uts_running (run ∷ cs) = refl
  all_succeed-in uts_running (resume ∷ cs) = refl
  all_succeed-in uts_waiting (run ∷ cs) = refl
  all_succeed-in uts_waiting (yield ∷ cs) = refl
  all_succeed-in uts_invalid (run ∷ cs) = refl
  all_succeed-in uts_invalid (yield ∷ cs) = refl
  all_succeed-in uts_invalid (resume ∷ cs) = refl
  all_succeed-in uts_finished (run ∷ cs) = refl
  all_succeed-in uts_finished (yield ∷ cs) = refl
  all_succeed-in uts_finished (resume ∷ cs) = refl

-- For a task that `utsk_create` has returned, the calls that all succeed are those that run it once
-- and then let it yield and resume it by turns.
pub utsk_create_calls :
    (tsk : Ptr) (zone : Bool) (block stack : Ptr) (stk_frm_size : ℕ) (tfunc : Ptr) (t : Task)
    (cs : List Call)
    → (utsk_create tsk zone block stack stk_frm_size tfunc).task ≡ some t
    → all_succeed cs (some t) ≡ may uts_inited cs
unfolding utsk_create
utsk_create_calls tsk zone block stack stk_frm_size tfunc t cs e =
    let size = round_down ((stk_frm_size + 2 ^ 32 - 16) % 2 ^ 32) 16 in
    let new : t ≡ task_in stack size tfunc uts_inited = ground arith in
    rw new (all_succeed-in stack size tfunc uts_inited cs)
