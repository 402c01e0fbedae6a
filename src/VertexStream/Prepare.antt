-- ===== src/VertexStream/Prepare.antt =====
-- PrepVertexArray of wrappers/mesa/src/wrapgl32.c: how many words of data a draw call will send, and
-- whether the queue is run first. IsBadReadPtr is a parameter.
use qemu_3dfx.Common.{
  ℕ, ◌+◌, ◌-◌, ◌*◌, ◌/◌, ◌%◌, ◌≡◌, ◌<◌, Bool, true, false, ◌&&◌, List, [], ◌∷◌, arith, inl, inr,
  Bool-cases, leb, if◌then◌else◌,
}
use qemu_3dfx.VertexStream.{
  VtxArray, Arrays, Guest, cb_elem, slice_bytes, interleaved_bytes, is_sent, is_interleaved,
  in_order, even_up, words, aligned, fifo_add_data, guest_send_all, guest_push,
}

-- `MAX_DATA`
abbrev pub max_data : ℕ
max_data = (0x3ffc000 - 4 * 0xc0000 - 4 * 4096) / 4

-- The bytes of one array.
unfoldable pub array_bytes : VtxArray → ℕ → ℕ → ℕ
unfolding slice_bytes
array_bytes a start end = aligned (slice_bytes a start end)

module _ (is_bad : VtxArray → ℕ → Bool) where
  -- An array of colors or of texture coordinates that cannot be read is disabled.
  unfoldable pub check_array : ℕ → ℕ → VtxArray → VtxArray
  unfolding array_bytes
  check_array start end a =
      if is_sent a && is_bad a (array_bytes a start end) then record a { enable = false } else a

  unfoldable pub check_all : ℕ → ℕ → List VtxArray → List VtxArray
  unfolding check_array
  check_all start end [] = []
  check_all start end (a ∷ rest) = check_array start end a ∷ check_all start end rest

  unfoldable pub check_arrays : ℕ → ℕ → Arrays → Arrays
  unfolding check_array check_all
  check_arrays start end v = if is_interleaved v.interleaved then v else record v {
    color = check_array start end v.color;
    tex_coord = check_all start end v.tex_coord;
  }

-- The sum over the arrays that will be sent.
unfoldable pub count_all : ℕ → ℕ → List VtxArray → ℕ
unfolding array_bytes
count_all start end [] = 0
count_all start end (a ∷ rest) =
    (if is_sent a then array_bytes a start end else 0) + count_all start end rest

-- `n` in bytes, for the arrays that are left.
unfoldable pub count_bytes : ℕ → ℕ → Arrays → ℕ → ℕ
unfolding count_all interleaved_bytes in_order
count_bytes start end v sizei =
    if is_interleaved v.interleaved
    then sizei + aligned (interleaved_bytes v.interleaved start end)
    else sizei + count_all start end (in_order v)

-- The arrays, and whether FIFO_FLUSH is called.
unfoldable pub prep_vertex_array : (VtxArray → ℕ → Bool) → ℕ → ℕ → ℕ → Arrays → ℕ → Arrays × Bool
unfolding check_arrays count_bytes
prep_vertex_array is_bad start end sizei v data0 =
    let v' = check_arrays is_bad start end v in
    (v', leb max_data (data0 + count_bytes start end v' sizei / 4))

aligned-words : (c j : ℕ) → j % 2 ≡ 0 → even_up (j + words c) ≡ j + aligned c / 4
aligned-words c j e = ground arith

aligned_whole : (c : ℕ) → aligned c % 8 ≡ 0
aligned_whole c = ground arith

count_all_whole : (start end : ℕ) (l : List VtxArray) → count_all start end l % 8 ≡ 0
unfolding count_all array_bytes
count_all_whole start end [] = omega arith
count_all_whole start end (a ∷ rest) =
    ground (arith, count_all_whole start end rest, aligned_whole (slice_bytes a start end))

-- One piece, if it is sent.
send_if :
    (b : Bool) (from c : ℕ) (g : Guest)
    → g.next % 2 ≡ 0
    → ((if b then fifo_add_data from c g else g).next ≡ g.next + (if b then aligned c else 0) / 4)
      × ((if b then aligned c else 0) % 8 ≡ 0)
unfolding fifo_add_data
send_if true from c g e = (aligned-words c g.next e, aligned_whole c)
send_if false from c g e = (omega arith, omega arith)

send_all-count :
    (start end : ℕ) (l : List VtxArray) (g : Guest)
    → g.next % 2 ≡ 0
    → (guest_send_all start end l g).next ≡ g.next + count_all start end l / 4
unfolding guest_send_all count_all array_bytes
send_all-count start end [] g e = omega arith
send_all-count start end (a ∷ rest) g e =
    let (moved, whole) = send_if (is_sent a) (start * cb_elem a) (slice_bytes a start end) g e in
    omega (
      arith,
      moved,
      whole,
      count_all_whole start end rest,
      send_all-count start end rest
          (if is_sent a then fifo_add_data (start * cb_elem a) (slice_bytes a start end) g else g)
          (omega (arith, moved, whole)),
    )

-- From an even word on, PushVertexArray sends exactly the words that PrepVertexArray counted for the
-- arrays that it left, beside those of the indices.
pub push-count :
    (start end sizei : ℕ) (v : Arrays) (g : Guest)
    → g.next % 2 ≡ 0
    → sizei % 8 ≡ 0
    → (guest_push start end v g).1.next + sizei / 4 ≡ g.next + count_bytes start end v sizei / 4
unfolding guest_push count_bytes fifo_add_data
push-count start end sizei v g e w = elim (Bool-cases (is_interleaved v.interleaved)) [
  | inl s ↦ rw s (
      omega (
        arith,
        aligned-words (interleaved_bytes v.interleaved start end) g.next e,
        aligned_whole (interleaved_bytes v.interleaved start end),
      ))
  | inr s ↦ rw s (
      omega
        (arith, send_all-count start end (in_order v) g e, count_all_whole start end (in_order v)))
]

-- If PrepVertexArray does not run the queue, then after the indices and the arrays that it left the
-- guest still stands below MAX_DATA.
pub prep_fits :
    (is_bad : VtxArray → ℕ → Bool) (start end sizei : ℕ) (v : Arrays) (g : Guest)
    → g.next % 2 ≡ 0
    → sizei % 8 ≡ 0
    → (prep_vertex_array is_bad start end sizei v g.next).1 ≡ false
    → (guest_push start end
        (prep_vertex_array is_bad start end sizei v g.next).0
        (record g { next = g.next + sizei / 4 })).1.next
      < max_data
unfolding prep_vertex_array
prep_fits is_bad start end sizei v g e w fits =
    let v' = check_arrays is_bad start end v in
    let g' = record g { next = g.next + sizei / 4 } in
    let counted = push-count start end sizei v' g' (omega arith) w in ground arith
