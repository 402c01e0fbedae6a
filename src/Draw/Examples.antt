-- ===== src/Draw/Examples.antt =====
-- Tests of the draw calls with indices, and the theorems of Draw at inputs.
use qemu_3dfx.Common.{ℕ, ◌<◌, ◌≤◌, ◌≡◌, refl, List, [], ◌∷◌, zero, suc, arith}
use qemu_3dfx.VertexStream.{
  Guest, in_order, interleaved_cb, interleaved_bytes, cb_elem, slice_bytes,
}
use qemu_3dfx.VertexStream.Samples.{arrays}
use qemu_3dfx.Sizes.{szgldata}
use qemu_3dfx.Draw.{
  Fits, elements, host_draw, guest_draw, DrawElements, HostDraw, index_at, index_range,
}
use qemu_3dfx.Draw.Range.{index_range_bounds}
use qemu_3dfx.Draw.Agreement.{copy_of, Together, draw_agree}

-- The indices 7, 0x102 and 9 of 16 bits.
abbrev shorts : List ℕ
shorts = 7 ∷ 0 ∷ 2 ∷ 1 ∷ 9 ∷ 0 ∷ []

found : index_range 2 shorts 3 ≡ (7, 0x102)
unfolding index_range
found = refl

-- GL_DOUBLE is no type of indices: nothing is found.
unread : index_range 8 shorts 3 ≡ (0, 0)
unfolding index_range
unread = refl

-- GL_UNSIGNED_SHORT.
abbrev draw : DrawElements
draw = record { count = 3; type = 0x1403; base = 0xfffffffe; indices = shorts }

abbrev host : HostDraw
host = record {
  elem_arry_buf = 0;
  vao = 0;
  elem_max = 0;
  arrays = arrays;
  stream = record { varry_ptr = 8; datacb = 0; received = [] };
}

abbrev guest : Guest
guest = record { next = 2; sent = [] }

shorts-small : (k : ℕ) → k < 3 → index_at 2 shorts k < 0x80000000
unfolding index_at
shorts-small zero h = omega arith
shorts-small (suc zero) h = omega arith
shorts-small (suc (suc zero)) h = omega arith
shorts-small (suc (suc (suc k))) h = absurd (omega arith)

-- Primitive restart: the end is -1 as an int.
restart : index_range 4 (0 ∷ 0 ∷ 0 ∷ 0 ∷ 255 ∷ 255 ∷ 255 ∷ 255 ∷ []) 2 ≡ (0, 0xffffffff)
unfolding index_range
restart = refl

index_range_bounds_example :
    ((index_range 2 shorts 3).0 ≤ (index_range 2 shorts 3).1)
    × ((index_range 2 shorts 3).1 < 0x80000000)
    × ((k : ℕ)
        → k < 3
        → ((index_range 2 shorts 3).0 ≤ index_at 2 shorts k)
          × (index_at 2 shorts k ≤ (index_range 2 shorts 3).1))
index_range_bounds_example = index_range_bounds 2 shorts 3 refl shorts-small

-- The vertices 9 to 0x100, by a base vertex of -2.
draw-Fits : Fits (elements draw) host.arrays
unfolding szgldata index_range in_order interleaved_cb interleaved_bytes cb_elem slice_bytes
draw-Fits = omega arith

draw_agree_example :
    Together 2 (host_draw (elements draw) host) (guest_draw (elements draw) (copy_of host guest))
draw_agree_example =
    draw_agree 2 (elements draw) host guest
      (record { here = refl; even = refl; length = refl; pieces = refl }) refl draw-Fits
