-- ===== src/Utask/Tests.antt =====
-- A task of src/utask.c.
use syslib.Prelude.{◌≡◌, refl, true, some, [], ◌∷◌}
use syslib.Misc.{round_down}
use syslib.Utask.{Task, uts_inited, utsk_create, magic}
use syslib.Utask.Order.{run, yield, all_succeed, may, utsk_create_calls}

abbrev new : Task
new = record {
  stk = 64;
  stk_size = round_down 4080 16;
  tsk_func = 5;
  task_state = uts_inited;
  magic_number = magic;
}

made : (utsk_create 7 true 16 64 4096 5).task ≡ some new
unfolding utsk_create
made = refl

utsk_create_calls_example :
    all_succeed (run ∷ yield ∷ []) (some new) ≡ may uts_inited (run ∷ yield ∷ [])
utsk_create_calls_example = utsk_create_calls 7 true 16 64 4096 5 new (run ∷ yield ∷ []) made
