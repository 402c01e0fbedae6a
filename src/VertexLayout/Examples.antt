-- ===== src/VertexLayout/Examples.antt =====
-- Layouts at concrete inputs.
use qemu_3dfx.Common.{ℕ, ◌+◌, ◌≤◌, ◌<◌, ◌≡◌, ◌≢◌, ◌⊎◌, refl, List, [], ◌∷◌, arith, get_or, length}
use qemu_3dfx.VertexLayout.{
  slen, no_layout, gr_param_idx, vlut_vvars, vlut_writes, size_vertex3x, Call, vertex_layout, reset,
  draw, Side, guest_layout_calls, host_layout_calls,
}
use qemu_3dfx.VertexLayout.Size.{size_vertex3x_least}
use qemu_3dfx.VertexLayout.Agreement.{calls_meet}
use qemu_3dfx.VertexLayout.Outside.{param_outside, IsBehind}

-- The coordinates, a packed colour at 8 and the texture coordinates at 12.
abbrev layout : List ℕ
layout = vlut_vvars 0x40 12 1 (vlut_vvars 0x30 8 1 (vlut_vvars 1 0 1 no_layout))

twenty : size_vertex3x layout ≡ 20
unfolding size_vertex3x vlut_vvars
twenty = refl

-- A colour in three values takes the place of the packed one.
replaced : vlut_vvars 0x20 8 1 layout ≡ 0 ∷ 0 ∷ 0 ∷ 0 ∷ 0 ∷ 0 ∷ 8 ∷ 0 ∷ 12 ∷ 0 ∷ 0 ∷ 0 ∷ []
unfolding vlut_vvars
replaced = refl

layout-length : length layout ≡ 12
unfolding vlut_vvars
layout-length = refl

size_vertex3x_least_example :
    (8 ≤ size_vertex3x layout)
    × ((i : ℕ)
        → i < 12
        → get_or layout i 0 ≢ 0
        → get_or layout i 0 + get_or slen i 0 ≤ size_vertex3x layout)
    × ((size_vertex3x layout ≡ 8)
        ⊎ ((i : ℕ) × (get_or layout i 0 ≢ 0)
            × (size_vertex3x layout ≡ get_or layout i 0 + get_or slen i 0)))
size_vertex3x_least_example = size_vertex3x_least layout layout-length

abbrev calls : List Call
calls = vertex_layout 0x30 8 1 ∷ vertex_layout 0x40 12 1 ∷ draw 3 ∷ reset 0x29 ∷ draw 1 ∷ []

abbrev side : Side
side = record { vlut = no_layout; j = 2 }

-- Three vertices of 20 bytes, and one of 8.
twenty_words : (host_layout_calls calls side).j ≡ 22
unfolding host_layout_calls vlut_vvars size_vertex3x
twenty_words = refl

calls_meet_example : guest_layout_calls calls side ≡ host_layout_calls calls side
calls_meet_example = calls_meet calls side refl

-- A negative parameter has a negative index.
negative : gr_param_idx 0x80000010 ≡ 0xf8000005
unfolding gr_param_idx
negative = refl

param_outside_example :
    (vlut_writes 0xf0 8 1 ≡ (gr_param_idx 0xf0, 8) ∷ []) × IsBehind (gr_param_idx 0xf0)
param_outside_example =
    param_outside 0xf0 8 1 (omega arith) (omega arith) (omega arith) (omega arith)
