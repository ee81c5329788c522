-- ===== src/Timer/Tests.antt =====
-- Timers of src/timer.c in a wheel at address 1000 whose tick is 3, with an empty list for the
-- number 5 at address 1168.
use syslib.Prelude.{◌+◌, ◌%◌, ◌≡◌, ◌↔◌, refl, arith, some, [], ◌==◌, if◌then◌else◌, bit_and}
use syslib.Dlist.Chain.{IsList}
use syslib.Timer.{Wheel, set0, place, add_timer}
use syslib.Timer.Slots.{place_on_time}
use syslib.Timer.Add.{Added, add_timer-Added}

abbrev wheel : Wheel
wheel = record {
  current_tick = 3;
  links = record {
    prev = λ p. if p == 1184 then 1168 else 0;
    next = λ p. if p == 1168 then 1184 else 0;
  };
  magic = λ p. 0;
  run_once = λ p. 0;
  run_tick = λ p. 0;
  delay_tick = λ p. 0;
  callback_func = λ p. 0;
  func_param = λ p. 0;
}

slot_5-IsList : IsList wheel.links 1168 []
slot_5-IsList = ground arith

place_on_time_example : (place 3 5 ≡ some (set0 (bit_and (3 + 5) 255))) ↔ (3 % 256 ≡ 0)
place_on_time_example = place_on_time 3 5 (omega arith)

add_timer-Added_example :
    (w : Wheel) × (add_timer 1000 16 5 77 1 99 wheel ≡ some (16, w))
    × Added wheel w 16 1168 [] 5 77 1 99
add_timer-Added_example =
    add_timer-Added wheel 1000 16 5 77 1 99 [] (omega arith) (omega arith) (omega arith)
      (omega arith) slot_5-IsList refl
