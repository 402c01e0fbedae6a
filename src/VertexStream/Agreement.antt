-- ===== src/VertexStream/Agreement.antt =====
-- Both versions of PushVertexArray, in mesapt_mm.c and in wrapgl32.c, walk the same stream: what the
-- host takes is what the guest sent, piece by piece.
use native.Mathlib.Nat.{mul_comm}
use mathlib.Core.List.{map, map-append}
use qemu_3dfx.Common.{
  ℕ, ◌+◌, ◌*◌, ◌/◌, ◌%◌, ◌≡◌, refl, Bool, ◌&&◌, true, false, List, [], ◌∷◌, arith, inl, inr,
  Bool-cases, if◌then◌else◌,
}
use qemu_3dfx.VertexStream.{
  VtxArray, Arrays, Host, Guest, cb_elem, slice_bytes, interleaved_cb, interleaved_bytes, is_sent,
  in_order, host_take, host_take_all, host_push, fifo_add_data, guest_send_all, guest_push,
}

-- The guest's copy of an array, which keeps no room.
abbrev pub forget : VtxArray → VtxArray
forget a = record a { room = 0 }

abbrev pub forget_all : Arrays → Arrays
forget_all v = record {
  interleaved = forget v.interleaved;
  color = forget v.color;
  edge_flag = forget v.edge_flag;
  index = forget v.index;
  normal = forget v.normal;
  tex_coord = map forget v.tex_coord;
  vertex = forget v.vertex;
  secondary_color = forget v.secondary_color;
  fog_coord = forget v.fog_coord;
  weight = forget v.weight;
  gen_attrib = map forget v.gen_attrib;
}

-- The two ends of the stream meet: the same word, an even one, and the same pieces.
pub record Meet (base : ℕ) (h : Host) (g : Guest) : Type 0 where
  pub here : h.varry_ptr ≡ g.next * 4
  pub even : g.next % 2 ≡ 0
  pub length : h.datacb + base * 4 ≡ g.next * 4
  pub pieces : map (λ r. r.piece) h.received ≡ g.sent

take-Meet :
    (base : ℕ) (a : VtxArray) (cb start bytes : ℕ) (h : Host) (g : Guest)
    → Meet base h g
    → Meet base (host_take a cb start bytes h) (fifo_add_data (start * cb) bytes g)
unfolding host_take fifo_add_data
take-Meet base a cb start bytes h g m =
    let word : h.varry_ptr / 4 ≡ g.next = omega (arith, m.here) in
    record {
      here = ground (arith, m.here, m.even);
      even = ground arith;
      length = ground (arith, m.length, m.even);
      pieces = rw (map-append, m.pieces, mul_comm cb start, word);
    }

if-Meet :
    (base : ℕ) (b : Bool) {h k : Host} {g i : Guest}
    → Meet base k i
    → Meet base h g
    → Meet base (if b then k else h) (if b then i else g)
if-Meet base true m n = m
if-Meet base false m n = n

all-Meet :
    (base start end : ℕ) (l : List VtxArray) (h : Host) (g : Guest)
    → Meet base h g
    → Meet base (host_take_all start end l h) (guest_send_all start end (map forget l) g)
unfolding host_take_all guest_send_all
all-Meet base start end [] h g m = m
all-Meet base start end (a ∷ rest) h g m = all-Meet base start end rest _ _ (
    if-Meet base (is_sent a) (take-Meet base a (cb_elem a) start (slice_bytes a start end) h g m) m)

in_order-forget : (v : Arrays) → in_order (forget_all v) ≡ map forget (in_order v)
unfolding in_order
in_order-forget v = rw (map-append forget v.tex_coord)

-- If the guest's copy of the arrays is the host's without the room, and both stand at the same even
-- word of the stream with the same pieces behind them, then after a draw call from `start` to `end`
-- they do so again: the guest sent the pieces that the host took, with the same places in the arrays
-- and in the stream, `datacb` grew by the bytes that the stream grew, and the copies still agree.
pub push_agree :
    (base start end : ℕ) (v : Arrays) (h : Host) (g : Guest)
    → Meet base h g
    → let (v', h') = host_push start end v h in
      let (w', g') = guest_push start end (forget_all v) g in Meet base h' g' × (w' ≡ forget_all v')
unfolding host_push guest_push
push_agree base start end v h g m = elim (Bool-cases (v.interleaved.enable && v.interleaved.ptr)) [
  | inl e ↦ rw (e) (
    take-Meet base v.interleaved (interleaved_cb v.interleaved) start
        (interleaved_bytes v.interleaved start end) h g m,
    refl,
  )
  | inr e ↦ rw (e, in_order-forget v) (all-Meet base start end (in_order v) h g m, refl)
]
