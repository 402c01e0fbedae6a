-- ===== src/VertexStream/Examples.antt =====
-- Tests of the data stream of a draw call, and the theorems of its modules at inputs.
use qemu_3dfx.Common.{◌+◌, ◌/◌, ◌<◌, ◌≡◌, ◌≤◌, refl, true, false, some, none, [], arith}
use qemu_3dfx.Common.Int.{pos, negsuc, ◌*ℤ◌}
use qemu_3dfx.Sizes.{szgldata}
use qemu_3dfx.VertexCache.{Slice, lookup_vert_arry}
use qemu_3dfx.VertexStream.{Host, Guest, vtxarry_push, host_push, guest_push}
use qemu_3dfx.VertexStream.Samples.{arrays, positions}
use qemu_3dfx.VertexStream.Prepare.{
  count_bytes, max_data, prep_vertex_array, check_arrays, push-count, prep_fits,
}
use qemu_3dfx.VertexStream.Window.{Pushed, copied_end, vtxarry_push-Pushed, push_in_block}
use qemu_3dfx.VertexStream.Agreement.{forget_all, Meet, push_agree}

abbrev host : Host
host = record { varry_ptr = 8; datacb = 0; received = [] }

abbrev guest : Guest
guest = record { next = 2; sent = [] }

clipped : vtxarry_push 20 (pos 8) (pos 2) (pos 12) ≡ (1, some (16, 4))
unfolding vtxarry_push
clipped = refl

below : vtxarry_push 20 (pos 8) (negsuc 0) (pos 12) ≡ (1, none)
unfolding vtxarry_push
below = refl

vtxarry_push-Pushed_example :
    Pushed 20 (pos 8 *ℤ pos 2) (pos 12) (vtxarry_push 20 (pos 8) (pos 2) (pos 12))
vtxarry_push-Pushed_example = vtxarry_push-Pushed 20 (pos 8) (pos 2) (pos 12)

push_in_block_example :
    (s : Slice) × ((lookup_vert_arry 0x50000 0x10000 []).0 ≡ some s)
    × (s.offset + copied_end (vtxarry_push s.room (pos 0x4000) (pos 3) (pos 0x8000))
        ≤ s.block.bytes)
push_in_block_example =
    push_in_block 0x50000 0x10000 [] (pos 0x4000) (pos 3) (pos 0x8000) tt (omega arith)

push_agree_example :
    Meet 2 (host_push 4 9 arrays host).1 (guest_push 4 9 (forget_all arrays) guest).1
    × ((guest_push 4 9 (forget_all arrays) guest).0 ≡ forget_all (host_push 4 9 arrays host).0)
push_agree_example =
    push_agree 2 4 9 arrays host guest
      (record { here = refl; even = refl; length = refl; pieces = refl })

-- Twelve bytes at the distance sixteen, from the vertex 4 to the vertex 9.
counted : count_bytes 4 9 arrays 8 ≡ 8 + 96
unfolding count_bytes szgldata
counted = refl

-- A memory test that nothing passes disables only colors and texture coordinates.
kept : (check_arrays (λ _ _. true) 4 9 (record arrays { color = positions })).color.enable ≡ false
unfolding check_arrays
kept = refl

push-count_example :
    (guest_push 4 9 arrays guest).1.next + 8 / 4 ≡ guest.next + count_bytes 4 9 arrays 8 / 4
push-count_example = push-count 4 9 8 arrays guest refl refl

not_flushed : (prep_vertex_array (λ _ _. false) 4 9 8 arrays 2).1 ≡ false
unfolding prep_vertex_array szgldata
not_flushed = refl

prep_fits_example :
    (guest_push 4 9
      (prep_vertex_array (λ _ _. false) 4 9 8 arrays 2).0
      (record { next = 4; sent = [] })).1.next
    < max_data
prep_fits_example = prep_fits (λ _ _. false) 4 9 8 arrays guest refl refl not_flushed
