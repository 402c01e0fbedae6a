-- ===== src/Draw.antt =====
-- The draw calls: glDrawElements*, glDrawRangeElements*, glDrawArrays and glArrayElement of
-- wrappers/mesa/src/wrapgl32.c in the guest, and their cases of processArgs of
-- qemu-1/hw/mesa/mesapt_mm.c on the host. An int, such as `start`, `end` or a base vertex, is
-- its 32 bits, a number: negative from 2^31 on. PushVertexArray is modelled for ranges in order
-- and without overflow, so that theorems on it have `Fits` as a hypothesis.
pub mod Range
pub mod Agreement
mod Examples
use qemu_3dfx.Common.{
  ℕ, zero, suc, ◌+◌, ◌-◌, ◌*◌, ◌/◌, ◌%◌, ◌<◌, ◌≤◌, ◌≡◌, ◌⊎◌, All, Bool, true, false, ◌&&◌, not,
  List, [], ◌∷◌, ltb, ◌==◌, if◌then◌else◌, get_or,
}
use qemu_3dfx.Sizes.{szgldata}
use qemu_3dfx.VertexStream.{
  Arrays, Host, Guest, aligned, even_up, words, host_push, guest_push, interleaved_cb,
  interleaved_bytes, cb_elem, slice_bytes, in_order,
}

-- `p[i]`, little endian, for a `p` to 8, 16 or 32 bits.
pub index_at : ℕ → List ℕ → ℕ → ℕ
index_at size bytes i =
    if size == 1
    then get_or bytes i 0
    else if size == 2
    then get_or bytes (2 * i) 0 + 0x100 * get_or bytes (2 * i + 1) 0
    else get_or bytes (4 * i) 0
      + 0x100 * get_or bytes (4 * i + 1) 0
      + 0x10000 * get_or bytes (4 * i + 2) 0
      + 0x1000000 * get_or bytes (4 * i + 3) 0

-- The sizes of an index that the loops read.
abbrev pub is_read : ℕ → Bool
is_read size = if size == 1 then true else if size == 2 then true else size == 4

-- A round of the first loop, and of the second one. Next to a `uint32_t` the int `end` counts as
-- unsigned, so that its bits are compared; a shorter index is compared as an int, and so is `end`,
-- which is no longer than one.
pub raise : ℕ → List ℕ → ℕ → ℕ → ℕ
unfolding index_at
raise size bytes i end =
    if is_read size
    then (if ltb end (index_at size bytes i) then index_at size bytes i else end)
    else end

pub lower : ℕ → List ℕ → ℕ → ℕ → ℕ
unfolding index_at
lower size bytes i start =
    if is_read size
    then (if ltb (index_at size bytes i) start then index_at size bytes i else start)
    else start

-- The loops, with the rounds that are left and `i`.
pub find_end : ℕ → List ℕ → ℕ → ℕ → ℕ → ℕ
unfolding raise
find_end size bytes zero i end = end
find_end size bytes (suc n) i end = find_end size bytes n (i + 1) (raise size bytes i end)

pub find_start : ℕ → List ℕ → ℕ → ℕ → ℕ → ℕ
unfolding lower
find_start size bytes zero i start = start
find_start size bytes (suc n) i start = find_start size bytes n (i + 1) (lower size bytes i start)

-- The sum of two ints.
abbrev pub int_sum : ℕ → ℕ → ℕ
int_sum a b = (a + b) % 0x100000000

-- `start` and `end` behind both loops.
pub index_range : ℕ → List ℕ → ℕ → ℕ × ℕ
unfolding find_end find_start
index_range size bytes count =
    let end = find_end size bytes count 0 0 in (find_start size bytes count 0 end, end)

-- A draw call: its count, its type, its base vertex, and the memory behind its pointer.
pub record DrawElements : Type 0 where
  pub count : ℕ
  pub type : ℕ
  pub base : ℕ
  pub indices : List ℕ

-- The bytes of the indices in the data stream.
abbrev pub index_bytes : DrawElements → ℕ
index_bytes d = aligned (d.count * szgldata 0 d.type)

-- What the cases of processArgs read and change.
pub record HostDraw : Type 0 where
  pub elem_arry_buf : ℕ
  pub vao : ℕ
  pub elem_max : ℕ
  pub arrays : Arrays
  pub stream : Host

-- PushVertexArray behind the indices, unless a vertex array object is bound.
pub host_vertices : ℕ → ℕ → ℕ → Arrays → Host → Arrays × Host
host_vertices vao start end v h = if vao == 0 then host_push start end v h else (v, h)

-- The branch for indices in memory, with the range of the vertices.
pub host_ranged : ℕ → ℕ → DrawElements → HostDraw → HostDraw
unfolding host_vertices
host_ranged start end d s =
    let behind = record (s.stream) {
      varry_ptr = s.stream.varry_ptr + index_bytes d;
      datacb = index_bytes d;
    } in
    let (arrays', stream') =
      host_vertices s.vao (int_sum start d.base) (int_sum end d.base) s.arrays behind in
    record s {
      elem_max = if ltb s.elem_max (int_sum end d.base) then int_sum end d.base else s.elem_max;
      arrays = arrays';
      stream = stream';
    }

pub host_indexed : DrawElements → HostDraw → HostDraw
unfolding index_range host_ranged
host_indexed d s =
    let (start, end) = index_range (szgldata 0 d.type) d.indices d.count in
    host_ranged start end d s

pub host_draw_elements : DrawElements → HostDraw → HostDraw
unfolding host_indexed
host_draw_elements d s = if s.elem_arry_buf == 0 then host_indexed d s else s

-- glDrawRangeElements*, for which the application gives the range.
pub host_draw_range : ℕ → ℕ → DrawElements → HostDraw → HostDraw
unfolding host_ranged
host_draw_range start end d s = if s.elem_arry_buf == 0 then host_ranged start end d s else s

-- glDrawArrays: `first` and `count`.
pub host_draw_arrays : ℕ → ℕ → HostDraw → HostDraw
host_draw_arrays first count s =
    let end = first + count - 1 in
    let (arrays', stream') = host_push first end s.arrays s.stream in
    if not (count == 0) && s.vao == 0
    then record s {
      elem_max = if ltb s.elem_max end then end else s.elem_max;
      arrays = arrays';
      stream = stream';
    }
    else s

-- glArrayElement, which sends one vertex.
pub host_array_element : ℕ → HostDraw → HostDraw
host_array_element i s =
    let (arrays', stream') = host_push i i s.arrays s.stream in
    record s {
      elem_max = if ltb s.elem_max i then i else s.elem_max;
      arrays = arrays';
      stream = stream';
    }

-- The guest's part, for the arrays that PrepVertexArray leaves.
pub record GuestDraw : Type 0 where
  pub elem_arry_buf : ℕ
  pub vao : ℕ
  pub arrays : Arrays
  pub stream : Guest

-- fifoAddData of the indices, which are no piece of an array.
abbrev pub add_indices : DrawElements → Guest → Guest
add_indices d g = record g { next = even_up (g.next + words (index_bytes d)) }

pub guest_vertices : ℕ → ℕ → ℕ → Arrays → Guest → Arrays × Guest
guest_vertices vao start end v g = if vao == 0 then guest_push start end v g else (v, g)

pub guest_ranged : ℕ → ℕ → DrawElements → GuestDraw → GuestDraw
unfolding guest_vertices
guest_ranged start end d s =
    let (arrays', stream') =
      guest_vertices s.vao (int_sum start d.base) (int_sum end d.base) s.arrays
        (add_indices d s.stream) in
    record s { arrays = arrays'; stream = stream' }

pub guest_indexed : DrawElements → GuestDraw → GuestDraw
unfolding index_range guest_ranged
guest_indexed d s =
    let (start, end) = index_range (szgldata 0 d.type) d.indices d.count in
    guest_ranged start end d s

pub guest_draw_elements : DrawElements → GuestDraw → GuestDraw
unfolding guest_indexed
guest_draw_elements d s = if s.elem_arry_buf == 0 then guest_indexed d s else s

pub guest_draw_range : ℕ → ℕ → DrawElements → GuestDraw → GuestDraw
unfolding guest_ranged
guest_draw_range start end d s = if s.elem_arry_buf == 0 then guest_ranged start end d s else s

pub guest_draw_arrays : ℕ → ℕ → GuestDraw → GuestDraw
guest_draw_arrays first count s =
    let (arrays', stream') = guest_push first (first + count - 1) s.arrays s.stream in
    if not (count == 0) && s.vao == 0 then record s { arrays = arrays'; stream = stream' } else s

pub guest_array_element : ℕ → GuestDraw → GuestDraw
guest_array_element i s =
    let (arrays', stream') = guest_push i i s.arrays s.stream in
    record s { arrays = arrays'; stream = stream' }

-- No int of PushVertexArray is negative or overflows for the elements from `start` to `end`.
abbrev pub IsRange : ℕ → ℕ → Arrays → Type 0
IsRange start end v =
    (start ≤ end)
    × (end < 0x80000000)
    × (start * interleaved_cb v.interleaved + interleaved_bytes v.interleaved start end
        < 0x80000000)
    × All (λ a. start * cb_elem a + slice_bytes a start end < 0x80000000) (in_order v)

-- The draw calls.
pub data Draw : Type 0 where
  elements : DrawElements → Draw
  range_elements : ℕ → ℕ → DrawElements → Draw
  arrays : ℕ → ℕ → Draw
  array_element : ℕ → Draw

-- The calls that PushVertexArray is modelled for; one with `count` 0 does not reach it.
abbrev pub Fits : Draw → Arrays → Type 0
Fits (elements d) v =
    let range = index_range (szgldata 0 d.type) d.indices d.count in
    (d.count * szgldata 0 d.type < 0x80000000)
    × IsRange (int_sum range.0 d.base) (int_sum range.1 d.base) v
Fits (range_elements start end d) v =
    (d.count * szgldata 0 d.type < 0x80000000)
    × IsRange (int_sum start d.base) (int_sum end d.base) v
Fits (arrays first count) v =
    (first + count < 0x80000000) × ((count ≡ 0) ⊎ IsRange first (first + count - 1) v)
Fits (array_element i) v = IsRange i i v

unfoldable pub host_draw : Draw → HostDraw → HostDraw
unfolding host_draw_elements host_draw_range host_draw_arrays host_array_element
host_draw (elements d) s = host_draw_elements d s
host_draw (range_elements start end d) s = host_draw_range start end d s
host_draw (arrays first count) s = host_draw_arrays first count s
host_draw (array_element i) s = host_array_element i s

unfoldable pub guest_draw : Draw → GuestDraw → GuestDraw
unfolding guest_draw_elements guest_draw_range guest_draw_arrays guest_array_element
guest_draw (elements d) s = guest_draw_elements d s
guest_draw (range_elements start end d) s = guest_draw_range start end d s
guest_draw (arrays first count) s = guest_draw_arrays first count s
guest_draw (array_element i) s = guest_array_element i s
