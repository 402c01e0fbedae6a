-- ===== src/VertexLayout.antt =====
-- The layout of a Glide 3 vertex: qemu-0/hw/3dfx/vertex3x.h, which the wrapper
-- wrappers/3dfx/src/gl301dll.c and the device qemu-0/hw/3dfx/glidept_mm.c both include, and the calls that
-- send vertices of that layout. A parameter is the 32 bits of an int; offsets are numbers below 2^31.
pub mod Size
pub mod Agreement
pub mod Outside
mod Examples
use qemu_3dfx.Common.{
  ℕ, zero, suc, ◌+◌, ◌-◌, ◌*◌, ◌/◌, ◌%◌, Bool, true, false, ◌&&◌, not, List, [], ◌∷◌, ltb, ◌==◌,
  if◌then◌else◌, set, replicate,
}
use qemu_3dfx.Fifo.{num_data}
use qemu_3dfx.VertexStream.{aligned, even_up}

-- `slen`: the bytes of the parameters.
abbrev pub slen : List ℕ
slen = 8 ∷ 4 ∷ 4 ∷ 4 ∷ 4 ∷ 4 ∷ 12 ∷ 4 ∷ 8 ∷ 4 ∷ 8 ∷ 4 ∷ []

-- `vlut` in the beginning.
abbrev pub no_layout : List ℕ
no_layout = replicate 12 0

abbrev pub gr_param_rgb : ℕ
gr_param_rgb = 0x20

abbrev pub gr_param_pargb : ℕ
gr_param_pargb = 0x30

abbrev pub gr_vertex_parameter : ℕ
gr_vertex_parameter = 0x29

abbrev pub gr_param_a : ℕ
gr_param_a = 0x10

-- `p >> 4` of an int.
abbrev pub shifted : ℕ → ℕ
shifted p = p / 0x10 + (if ltb p 0x80000000 then 0 else 0xf0000000)

-- `GR_PARAM_IDX`, for the 32 bits of a parameter: the bits of an int, so that -1 is 2^32 - 1.
unfoldable pub gr_param_idx : ℕ → ℕ
gr_param_idx p =
    if p / 0x10 % 0x10 == 0
    then (p + 0xffffffff) % 0x100000000
    else if p % 2 == 0
    then (shifted p + 4) % 0x100000000
    else (shifted p + 6) % 0x100000000

-- The assignments `vlut[index] = value` that `vlut_vvars` makes, in their order.
unfoldable pub vlut_writes : ℕ → ℕ → ℕ → List (ℕ × ℕ)
unfolding gr_param_idx
vlut_writes param offs mode =
    (gr_param_idx param, if mode == 0 then 0 else offs)
    ∷ (if param == gr_param_pargb
        then (gr_param_idx gr_param_a, 0) ∷ (gr_param_idx gr_param_rgb, 0) ∷ []
        else if param == gr_param_rgb
        then (gr_param_idx gr_param_pargb, 0) ∷ []
        else [])

-- What the assignments make of the array. Those to an index outside of it change other memory.
pub write_all : List (ℕ × ℕ) → List ℕ → List ℕ
write_all [] vlut = vlut
write_all ((i, v) ∷ rest) vlut = write_all rest (set vlut i v)

-- `vlut_vvars`
unfoldable pub vlut_vvars : ℕ → ℕ → ℕ → List ℕ → List ℕ
unfolding vlut_writes write_all
vlut_vvars param offs mode vlut = write_all (vlut_writes param offs mode) vlut

-- The loop of `size_vertex3x`, over both arrays.
pub size_from : ℕ → List ℕ → List ℕ → ℕ
size_from ret (v ∷ vs) (l ∷ ls) =
    size_from (if not (v == 0) && ltb ret (v + l) then v + l else ret) vs ls
size_from ret vs ls = ret

unfoldable pub size_vertex3x : List ℕ → ℕ
unfolding size_from
size_vertex3x vlut = size_from 8 vlut slen

-- The calls that matter for the layout: grVertexLayout, grReset, and one that draws so many
-- vertices (grDrawPoint, grDrawLine, grDrawTriangle and grDrawVertexArray).
pub data Call : Type 0 where
  vertex_layout : ℕ → ℕ → ℕ → Call
  reset : ℕ → Call
  draw : ℕ → Call

-- `vlut`, and the place in the data stream: `mdata[0]` in the guest, `j` on the host.
pub record Side : Type 0 where
  pub vlut : List ℕ
  pub j : ℕ

-- fifoAddData of so many vertices.
pub add_vertices : ℕ → ℕ → ℕ → ℕ
add_vertices size zero j = j
add_vertices size (suc n) j = add_vertices size n (even_up (j + num_data size))

abbrev pub lay_out : Call → List ℕ → List ℕ
lay_out (vertex_layout param offs mode) vlut = vlut_vvars param offs mode vlut
lay_out (reset what) vlut = if what == gr_vertex_parameter then no_layout else vlut
lay_out (draw n) vlut = vlut

-- The wrapper of a call.
unfoldable pub guest_layout_call : Call → Side → Side
unfolding add_vertices
guest_layout_call (draw n) s = record s { j = add_vertices (size_vertex3x s.vlut) n s.j }
guest_layout_call c s = record s { vlut = lay_out c s.vlut }

-- processArgs and processFRet of a call, and the step behind its data in processFifo.
unfoldable pub host_layout_call : Call → Side → Side
host_layout_call (draw n) s = record s { j = s.j + num_data (n * aligned (size_vertex3x s.vlut)) }
host_layout_call c s = record s { vlut = lay_out c s.vlut }

unfoldable pub guest_layout_calls : List Call → Side → Side
unfolding guest_layout_call
guest_layout_calls [] s = s
guest_layout_calls (c ∷ cs) s = guest_layout_calls cs (guest_layout_call c s)

unfoldable pub host_layout_calls : List Call → Side → Side
unfolding host_layout_call
host_layout_calls [] s = s
host_layout_calls (c ∷ cs) s = host_layout_calls cs (host_layout_call c s)
