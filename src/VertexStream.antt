-- ===== src/VertexStream.antt =====
-- The vertex arrays that a draw call sends through the shared memory: `vtxarry_push` and
-- PushVertexArray of qemu-1/hw/mesa/mesapt_mm.c on the host, fifoAddData and PushVertexArray of
-- wrappers/mesa/src/wrapgl32.c in the guest. Sizes, strides and positions of a draw are numbers:
-- the guest's arrays have no negative stride here, and no `int` overflows.
pub mod Prepare
pub mod Samples
pub mod Window
pub mod Agreement
mod Examples
use qemu_3dfx.Common.{
  ℕ, ◌+◌, ◌-◌, ◌*◌, ◌/◌, ◌%◌, Bool, true, false, ◌&&◌, Option, none, some, List, [], ◌∷◌, ◌++◌, ltb,
  leb, ◌==◌, if◌then◌else◌,
}
use qemu_3dfx.Common.Int.{ℤ, pos, negsuc, ◌*ℤ◌}
use qemu_3dfx.Sizes.{szgldata}

-- `vtxarry_t`; of the pointer only whether it is null, and the room behind it, which only the host
-- keeps.
pub record VtxArray : Type 0 where
  pub enable : Bool
  pub size : ℕ
  pub type : ℕ
  pub stride : ℕ
  pub ptr : Bool
  pub room : ℕ
  pub client : Bool

-- What `memcpy` copies to: an offset from the array's pointer, and a length.
abbrev pub Copied : Type 0
Copied = Option (ℕ × ℕ)

-- `vtxarry_push`: 1 when the slice did not fit, and what was copied.
pub push_at : ℕ → ℤ → ℤ → ℕ × Copied
push_at room (negsuc d) len = (1, none)
push_at room (pos d) (negsuc l) = (1, none)
push_at room (pos d) (pos len) =
    if leb room d
    then (1, none)
    else if ltb (room - d) len
    then (1, some (d, room - d))
    else (0, some (d, len))

pub vtxarry_push : ℕ → ℤ → ℤ → ℤ → ℕ × Copied
unfolding push_at
vtxarry_push room cb_elem start len = push_at room (cb_elem *ℤ start) len

-- `n = (n & 0x03)? ((n >> 2) + 1):(n >> 2)`, and the step to an even number of words.
abbrev pub words : ℕ → ℕ
words n = if n % 4 == 0 then n / 4 else n / 4 + 1

abbrev pub even_up : ℕ → ℕ
even_up n = if n % 2 == 0 then n else n + 1

-- `ALIGNED`
abbrev pub aligned : ℕ → ℕ
aligned x = if x % 8 == 0 then x else (x / 8 + 1) * 8

-- The distance of two elements, and the bytes of the elements from `start` to an `end` that is not
-- below it.
unfoldable pub cb_elem : VtxArray → ℕ
cb_elem a = if a.stride == 0 then szgldata a.size a.type else a.stride

unfoldable pub slice_bytes : VtxArray → ℕ → ℕ → ℕ
unfolding cb_elem
slice_bytes a start end = cb_elem a * (end - start) + szgldata a.size a.type

-- An interleaved array has its element's bytes in `size`.
unfoldable pub interleaved_cb : VtxArray → ℕ
interleaved_cb a = if a.stride == 0 then a.size else a.stride

unfoldable pub interleaved_bytes : VtxArray → ℕ → ℕ → ℕ
unfolding interleaved_cb
interleaved_bytes a start end = interleaved_cb a * (end - start) + a.size

-- `enable && ptr && client`, and `enable && ptr`.
abbrev pub is_sent : VtxArray → Bool
is_sent a = a.enable && a.ptr && a.client

abbrev pub is_interleaved : VtxArray → Bool
is_interleaved a = a.enable && a.ptr

-- The client arrays of a context.
pub record Arrays : Type 0 where
  pub interleaved : VtxArray
  pub color : VtxArray
  pub edge_flag : VtxArray
  pub index : VtxArray
  pub normal : VtxArray
  pub tex_coord : List VtxArray
  pub vertex : VtxArray
  pub secondary_color : VtxArray
  pub fog_coord : VtxArray
  pub weight : VtxArray
  pub gen_attrib : List VtxArray

-- The arrays in the order in which both sides go through them.
unfoldable pub in_order : Arrays → List VtxArray
in_order v =
    v.color
    ∷ v.edge_flag
    ∷ v.index
    ∷ v.normal
    ∷ (v.tex_coord ++ (v.vertex ∷ v.secondary_color ∷ v.fog_coord ∷ v.weight ∷ v.gen_attrib))

-- A piece of an array in the data stream: its first byte in the array, the word of the stream where
-- it begins, and its words.
pub record Piece : Type 0 where
  pub from : ℕ
  pub position : ℕ
  pub count : ℕ

-- What the host did with a piece.
pub record Received : Type 0 where
  pub piece : Piece
  pub overflow : ℕ
  pub copied : Copied

-- The host: `varry_ptr` as a byte offset in the data stream, `datacb`, and the pieces so far.
pub record Host : Type 0 where
  pub varry_ptr : ℕ
  pub datacb : ℕ
  pub received : List Received

-- One array on the host, with the distance `cb` of its elements and `bytes` to read.
pub host_take : VtxArray → ℕ → ℕ → ℕ → Host → Host
unfolding vtxarry_push
host_take a cb start bytes h =
    let n = words bytes in
    let (ovfl, copied) = vtxarry_push a.room (pos cb) (pos start) (pos (n * 4)) in
    record {
      varry_ptr = h.varry_ptr + even_up n * 4;
      datacb = h.datacb + even_up n * 4;
      received =
          h.received
          ++ (record {
            piece = record { from = cb * start; position = h.varry_ptr / 4; count = n };
            overflow = ovfl;
            copied = copied;
          }
              ∷ []);
    }

pub host_take_all : ℕ → ℕ → List VtxArray → Host → Host
unfolding host_take cb_elem slice_bytes
host_take_all start end [] h = h
host_take_all start end (a ∷ rest) h =
    host_take_all start end rest
      (if is_sent a then host_take a (cb_elem a) start (slice_bytes a start end) h else h)

-- PushVertexArray of the host. `Interleaved` is disabled once it was sent.
pub host_push : ℕ → ℕ → Arrays → Host → Arrays × Host
unfolding host_take host_take_all in_order interleaved_cb interleaved_bytes
host_push start end v h =
    if is_interleaved v.interleaved
    then (
      record v { interleaved = record (v.interleaved) { enable = false } },
      host_take v.interleaved (interleaved_cb v.interleaved) start
          (interleaved_bytes v.interleaved start end) h,
    )
    else (v, host_take_all start end (in_order v) h)

-- The guest: `mdata[0]`, the next free word of the data stream, and the pieces so far.
pub record Guest : Type 0 where
  pub next : ℕ
  pub sent : List Piece

-- `fifoAddData` of the bytes of an array from the offset `from` on.
pub fifo_add_data : ℕ → ℕ → Guest → Guest
fifo_add_data from cb_data g =
    let num_data = words cb_data in
    record {
      next = even_up (g.next + num_data);
      sent = g.sent ++ (record { from = from; position = g.next; count = num_data } ∷ []);
    }

pub guest_send_all : ℕ → ℕ → List VtxArray → Guest → Guest
unfolding fifo_add_data cb_elem slice_bytes
guest_send_all start end [] g = g
guest_send_all start end (a ∷ rest) g =
    guest_send_all start end rest
      (if is_sent a then fifo_add_data (start * cb_elem a) (slice_bytes a start end) g else g)

-- PushVertexArray of the guest.
pub guest_push : ℕ → ℕ → Arrays → Guest → Arrays × Guest
unfolding fifo_add_data guest_send_all in_order interleaved_cb interleaved_bytes
guest_push start end v g =
    if is_interleaved v.interleaved
    then (
      record v { interleaved = record (v.interleaved) { enable = false } },
      fifo_add_data (start * interleaved_cb v.interleaved)
          (interleaved_bytes v.interleaved start end) g,
    )
    else (v, guest_send_all start end (in_order v) g)
