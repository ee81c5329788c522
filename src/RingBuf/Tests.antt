-- ===== src/RingBuf/Tests.antt =====
-- The operations of src/ringbuf.c on rings of four bytes, and of 40 for `rbuf_create`.
use syslib.Prelude.{ℕ, ◌≡◌, refl, List, [], ◌∷◌, arith, some, zero, suc}
use syslib.Dlist.{succeed}
use syslib.RingBuf.{Ring, rbuf_write_block, rbuf_read_block}
use syslib.RingBuf.Inv.{contents, IsValid}
use syslib.RingBuf.Write.{Wrote, write_block_appends, write_block_fills}
use syslib.RingBuf.Read.{WasRead, read_block_takes}

abbrev bytes : List ℕ
bytes = 5 ∷ 6 ∷ 7 ∷ 8 ∷ []

-- 6, then 7
abbrev straight : Ring
straight = record { addr_begin = 8; size = 4; r_offset = 1; w_offset = 3; bytes = bytes }

-- 8, then 5
abbrev wrapped : Ring
wrapped = record { addr_begin = 8; size = 4; r_offset = 3; w_offset = 1; bytes = bytes }

straight-IsValid : IsValid straight
straight-IsValid = omega arith

wrapped-IsValid : IsValid wrapped
wrapped-IsValid = omega arith

abbrev memory : ℕ → List ℕ
memory zero = []
memory (suc n) = 0 ∷ memory n

abbrev fresh : Ring
fresh = record { addr_begin = 8; size = 40; r_offset = 0; w_offset = 0; bytes = memory 40 }

write_block_appends_example :
    (rb' : Ring) × (rbuf_write_block (some straight) (9 ∷ []) ≡ (succeed, some rb'))
    × Wrote straight rb' (9 ∷ [])
write_block_appends_example = write_block_appends straight (9 ∷ []) straight-IsValid (omega arith)

write_block_fills_example :
    (rb' : Ring) × (rbuf_write_block (some wrapped) (1 ∷ 2 ∷ []) ≡ (succeed, some rb'))
    × (contents rb' ≡ [])
write_block_fills_example =
    write_block_fills wrapped (1 ∷ 2 ∷ []) wrapped-IsValid (omega arith) refl

read_block_takes_example :
    (rb' : Ring) × (out : List ℕ) × (rbuf_read_block (some wrapped) 1 ≡ (succeed, out, some rb'))
    × WasRead wrapped rb' out 1
read_block_takes_example = read_block_takes wrapped 1 wrapped-IsValid (omega arith)
