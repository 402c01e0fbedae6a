-- ===== src/StateBuffer/Examples.antt =====
-- Tests of the state buffers, and the theorems of StateBuffer/Lookup at inputs.
use qemu_3dfx.Common.{◌≡◌, refl, List, [], ◌∷◌, ◌==◌, ◌&&◌, if◌then◌else◌, length, some}
use qemu_3dfx.StateBuffer.{
  StBuf, Buffers, lookup_st_buf, free_st_buf, lookup_gr_state, free_gr_state,
}
use qemu_3dfx.StateBuffer.Lookup.{view, or_fresh, addresses, lookup-view, free-all}

abbrev two : List StBuf
two = record { id = 7; sz = 300; st = 4096 } ∷ record { id = 7; sz = 200; st = 8192 } ∷ []

by_size : (lookup_st_buf two 200 7 100).0 ≡ 8192
unfolding lookup_st_buf
by_size = refl

abbrev buffers : Buffers
buffers = record { gr_state = two; vtx_layout = [] }

all_freed : free_st_buf two 0 ≡ (2, addresses two)
all_freed = free-all two 0

freed : (free_gr_state buffers).0 ≡ 2
unfolding free_gr_state free_st_buf
freed = refl

added : length (lookup_gr_state buffers 8 300 100).1.gr_state ≡ 3
unfolding lookup_gr_state lookup_st_buf
added = refl

lookup-view_example :
    ((lookup_st_buf two 300 8 100).0 ≡ or_fresh (view two 300 8) 100)
    × (view (lookup_st_buf two 300 8 100).1 200 7 ≡ (
        if (8 == 7) && (300 == 200) then some (lookup_st_buf two 300 8 100).0 else view two 200 7))
lookup-view_example = lookup-view two 300 8 100 200 7
