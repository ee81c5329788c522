-- ===== src/Shmem/Tests.antt =====
-- The theorems about src/shmem.c at a segment of two pages for the size 100.
use syslib.Prelude.{◌+◌, ◌≡◌, refl, true, false, none, some, [], arith, ◌==◌, if◌then◌else◌}
use syslib.Misc.{round_up}
use syslib.Misc.Align.{IsCeil}
use syslib.Dlist.{null}
use syslib.Shmem.{Segments, System, shmm_create, shmm_open, shmm_begin_addr, shmm_end_addr}
use syslib.Shmem.Blocks.{Made, shmm_create-Made, shmm_open-shmm_create, shmm_open_unplaced}

abbrev one_segment : System
one_segment = record {
  shmget = λ key size flag. if key == 7 then some 3 else none;
  shmat = λ fd at_addr flag. some 40960;
  shmctl = λ fd. true;
}

abbrev no_segments : Segments
no_segments = record {
  shmm_tag = λ p. 0;
  addr_begin_offset = λ p. 0;
  addr_end_offset = λ p. 0;
  the_key = λ p. 0;
  fd = λ p. 0;
  detached = [];
}

made : Made one_segment no_segments 7 0 100 false 3 40960
unfolding round_up
made = record {
  some_key = omega arith;
  some_size = omega arith;
  even = refl;
  m = 10;
  page = refl;
  some_page = omega arith;
  short = omega arith;
  get = refl;
  attach = refl;
}

shmm_create-Made_example :
    let (shm, s') = shmm_create one_segment 0 7 0 100 false no_segments in
    (shm ≡ 40968)
    × (shmm_begin_addr s' shm ≡ 45064)
    × (shmm_end_addr s' shm ≡ shmm_begin_addr s' shm + round_up 100 4096)
    × IsCeil 4096 100 (round_up 100 4096)
    × (shmm_end_addr s' shm ≡ 40960 + (round_up 100 4096 + 4096) + 8)
shmm_create-Made_example = shmm_create-Made one_segment 0 no_segments 7 0 100 false 3 40960 made

shmm_open-shmm_create_example :
    let (shm, s') = shmm_create one_segment 0 7 0 100 false no_segments in
    shmm_open one_segment 7 shm s' ≡ (shm, s')
shmm_open-shmm_create_example =
    shmm_open-shmm_create one_segment 0 no_segments 7 0 100 false 3 40960 made refl refl

shmm_open_unplaced_example : shmm_open one_segment 7 null no_segments ≡ (null, no_segments)
shmm_open_unplaced_example = shmm_open_unplaced one_segment 7 no_segments
