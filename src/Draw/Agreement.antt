-- ===== src/Draw/Agreement.antt =====
-- The guest and the host agree on a draw call with indices.
use qemu_3dfx.Common.{
  ℕ, ◌+◌, ◌-◌, ◌*◌, ◌≡◌, refl, Bool, true, false, ◌&&◌, not, ◌==◌, if◌then◌else◌, arith, Bool-cases,
  inl, inr,
}
use qemu_3dfx.Sizes.{szgldata}
use qemu_3dfx.VertexStream.{Arrays, Host, Guest}
use qemu_3dfx.VertexStream.Agreement.{Meet, forget_all, push_agree}
use qemu_3dfx.Draw.{
  DrawElements, HostDraw, GuestDraw, index_range, index_bytes, add_indices, host_draw_elements,
  guest_draw_elements, host_draw_range, guest_draw_range, host_draw_arrays, guest_draw_arrays,
  array_element, host_array_element, guest_array_element, host_ranged, guest_ranged, Draw, elements,
  range_elements, arrays, Fits, int_sum, host_draw, guest_draw, host_vertices, guest_vertices,
  host_indexed, guest_indexed,
}

-- What the guest remembers if it remembers what the host does.
abbrev pub copy_of : HostDraw → Guest → GuestDraw
copy_of h g = record {
  elem_arry_buf = h.elem_arry_buf;
  vao = h.vao;
  arrays = forget_all h.arrays;
  stream = g;
}

-- Both stand at one word, and the guest's arrays are a copy of the host's.
abbrev pub Together : ℕ → HostDraw → GuestDraw → Type 0
Together j h g = Meet j h.stream g.stream × (g.arrays ≡ forget_all h.arrays)

either-Together :
    (j : ℕ) (test : Bool) (h k : HostDraw) (g i : GuestDraw)
    → Together j h g
    → Together j k i
    → Together j (if test then h else k) (if test then g else i)
either-Together j true h k g i s t = s
either-Together j false h k g i s t = t

-- Behind the indices.
indices-Meet :
    (j : ℕ) (d : DrawElements) (h : Host) (g : Guest)
    → Meet j h g
    → h.datacb ≡ 0
    → Meet j
        (record h { varry_ptr = h.varry_ptr + index_bytes d; datacb = index_bytes d })
        (add_indices d g)
indices-Meet j d h g m f =
    let n = d.count * szgldata 0 d.type in
    record {
      here = ground (arith, m.here, m.even);
      even = ground arith;
      length = ground (arith, m.length, m.here, m.even, f);
      pieces = m.pieces;
    }

vertices_agree :
    (j vao start end : ℕ) (v : Arrays) (h : Host) (g : Guest)
    → Meet j h g
    → Meet j (host_vertices vao start end v h).1 (guest_vertices vao start end (forget_all v) g).1
      × ((guest_vertices vao start end (forget_all v) g).0
          ≡ forget_all (host_vertices vao start end v h).0)
unfolding host_vertices guest_vertices
vertices_agree j vao start end v h g m = elim (Bool-cases (vao == 0)) [
  | inl e ↦ rw e (push_agree j start end v h g m)
  | inr e ↦ rw e (m, refl)
]

-- A range of vertices behind the indices.
ranged-Together :
    (j start end : ℕ) (d : DrawElements) (h : HostDraw) (g : Guest)
    → Meet j h.stream g
    → h.stream.datacb ≡ 0
    → Together j (host_ranged start end d h) (guest_ranged start end d (copy_of h g))
unfolding host_ranged guest_ranged
ranged-Together j start end d h g m f =
    vertices_agree j h.vao (int_sum start d.base) (int_sum end d.base) h.arrays _ _
      (indices-Meet j d h.stream g m f)

-- If both sides stand at the same even word of the data stream, and the guest remembers the arrays,
-- the element array buffer and the vertex array object that the host does, then after a draw call
-- with or without indices they stand at the same word again: the host took the indices and the
-- pieces of the arrays that the guest sent, `datacb` is what the stream grew by, and the guest's copy
-- of the arrays is still one. The bytes of the indices are below 2^31, and the range of the vertices,
-- with the base vertex added as an int, is in order, not negative, and has no offset from 2^31 on.
pub draw_agree :
    (j : ℕ) (d : Draw) (h : HostDraw) (g : Guest)
    → Meet j h.stream g
    → h.stream.datacb ≡ 0
    → Fits d h.arrays
    → Together j (host_draw d h) (guest_draw d (copy_of h g))
unfolding host_draw guest_draw host_draw_elements guest_draw_elements host_indexed guest_indexed
    host_draw_range guest_draw_range host_draw_arrays guest_draw_arrays host_array_element
    guest_array_element
draw_agree j (elements d) h g m f _ =
    let range = index_range (szgldata 0 d.type) d.indices d.count in
    either-Together j (h.elem_arry_buf == 0) (host_indexed d h) h (guest_indexed d (copy_of h g))
      (copy_of h g) (ranged-Together j range.0 range.1 d h g m f) (m, refl)
draw_agree j (range_elements start end d) h g m f _ =
    either-Together j (h.elem_arry_buf == 0) (host_ranged start end d h) h
      (guest_ranged start end d (copy_of h g)) (copy_of h g) (ranged-Together j start end d h g m f)
      (m, refl)
draw_agree j (arrays first count) h g m f _ =
    either-Together j (not (count == 0) && h.vao == 0) _ h _ (copy_of h g)
      (push_agree j first (first + count - 1) h.arrays h.stream g m) (m, refl)
draw_agree j (array_element i) h g m f _ = push_agree j i i h.arrays h.stream g m
