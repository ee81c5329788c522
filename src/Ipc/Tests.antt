-- ===== src/Ipc/Tests.antt =====
-- The theorems about src/ipc.c for the channel 5 and a segment of two pages.
use syslib.Prelude.{
  ◌+◌, ◌^◌, ◌<◌, ◌≤◌, ◌≡◌, ◌⊎◌, ◌∙◌, ap, sym, ℕ, zero, suc, List, Option, length, refl, true, false,
  none, some, [], ◌∷◌, arith, ◌==◌, if◌then◌else◌,
}
use syslib.Misc.{round_up}
use syslib.Dlist.{succeed}
use syslib.Shmem.{Segments, System}
use syslib.Shmem.Blocks.{Made}
use syslib.Ipc.{Ipc, Peer, Env, ipc_create, ipc_link, ipc_write, ipc_read}
use syslib.Ipc.Peers.{ipc_read-ipc_write, ipc_link_fails}

abbrev segments : System
segments = record {
  shmget = λ key size flag. if key == 2 ^ 28 + 5 then some 3 else none;
  shmat = λ fd at_addr flag. some 40960;
  shmctl = λ fd. true;
}

abbrev nothing : Segments
nothing = record {
  shmm_tag = λ p. 0;
  addr_begin_offset = λ p. 0;
  addr_end_offset = λ p. 0;
  the_key = λ p. 0;
  fd = λ p. 0;
  detached = [];
}

abbrev memory : ℕ → List ℕ
memory zero = []
memory (suc n) = 0 ∷ memory n

length-memory : (n : ℕ) → length (memory n) ≡ n
length-memory zero = refl
length-memory (suc n) = ap suc (length-memory n)

abbrev env : Env
env = record {
  sys = segments;
  zone = true;
  slot = true;
  ring_zone = true;
  ring_slot = true;
  stale_rb = none;
  stale_shb = 0;
  stale_sbi = 0;
  mem = memory 4088;
}

abbrev start : Ipc
start = record { segs = nothing; objs = 0; destroyed = [] }

made : Made segments nothing (2 ^ 28 + 5) 0 100 false 3 40960
unfolding round_up
made = record {
  some_key = omega arith;
  some_size = omega arith;
  even = refl;
  m = 10;
  page = refl;
  some_page = omega arith;
  short = omega arith;
  get = refl;
  attach = refl;
}

pages : round_up 100 4096 ≡ 4096
unfolding round_up
pages = refl

ipc_read-ipc_write_example :
    let (pr, s') = ipc_create env 5 100 false start in
    let src : List ℕ = 7 ∷ 8 ∷ 9 ∷ [] in
    ((length src + 8 ≤ round_up 100 4096)
      × ((pr' pr'' : Option Peer) × (ipc_write pr src ≡ some (succeed, pr'))
          × (ipc_read pr' (length src) ≡ some (succeed, src, pr''))))
    ⊎ ((round_up 100 4096 < length src + 8) × (ipc_write pr src ≡ none))
ipc_read-ipc_write_example =
    ipc_read-ipc_write env start 5 100 false 3 40960 refl refl refl refl made (7 ∷ 8 ∷ 9 ∷ [])
      (ap (λ n. n + 8) (length-memory 4088) ∙ sym pages) (omega (arith, pages))

ipc_link_fails_example : ipc_link env 5 start ≡ (none, start)
ipc_link_fails_example = ipc_link_fails env 5 start
