-- ===== src/VertexLayout/Agreement.antt =====
-- The guest and the device agree on the sizes of the vertices that the guest sends.
use qemu_3dfx.Common.{ℕ, zero, suc, ◌+◌, ◌*◌, ◌/◌, ◌%◌, ◌≡◌, ◌∙◌, refl, ap, List, [], ◌∷◌, arith}
use qemu_3dfx.Fifo.{num_data}
use qemu_3dfx.VertexStream.{aligned, even_up}
use qemu_3dfx.VertexLayout.{
  Call, vertex_layout, reset, draw, Side, add_vertices, size_vertex3x, guest_layout_call,
  host_layout_call, guest_layout_calls, host_layout_calls,
}

-- One vertex takes the words of its aligned size.
vertex_words : (size j : ℕ) → j % 2 ≡ 0 → even_up (j + num_data size) ≡ j + num_data (aligned size)
vertex_words size j e = ground arith

aligned_eights : (size : ℕ) → aligned size ≡ 8 * (aligned size / 8)
aligned_eights size = ground arith

eights_words : (m : ℕ) → num_data (8 * m) ≡ 2 * m
eights_words m = ground arith

eights_product : (n m k : ℕ) → m ≡ 8 * k → n * m ≡ 8 * (n * k)
eights_product n m k e = rw e (grind arith)

all_words : (size n : ℕ) → num_data (n * aligned size) ≡ 2 * (n * (aligned size / 8))
all_words size n =
    ap (λ c. num_data c) (eights_product n (aligned size) (aligned size / 8) (aligned_eights size))
    ∙ eights_words (n * (aligned size / 8))

one_word : (size : ℕ) → num_data (aligned size) ≡ 2 * (aligned size / 8)
one_word size = ap (λ c. num_data c) (aligned_eights size) ∙ eights_words (aligned size / 8)

suc_product : (n k : ℕ) → 2 * (suc n * k) ≡ 2 * k + 2 * (n * k)
suc_product n k = grind arith

next_words :
    (size n : ℕ)
    → num_data (suc n * aligned size) ≡ num_data (aligned size) + num_data (n * aligned size)
next_words size n = omega (
  arith,
  all_words size (suc n),
  suc_product n (aligned size / 8),
  one_word size,
  all_words size n,
)

no_words : (size : ℕ) → num_data (0 * aligned size) ≡ 0
no_words size = grind arith

add_vertices-words :
    (size n j : ℕ) → j % 2 ≡ 0 → add_vertices size n j ≡ j + num_data (n * aligned size)
unfolding add_vertices
add_vertices-words size zero j e = omega (arith, no_words size)
add_vertices-words size (suc n) j e =
    let here = vertex_words size j e in
    add_vertices-words size n (even_up (j + num_data size)) (ground arith)
    ∙ omega (arith, here, next_words size n)

call_agree : (c : Call) (s : Side) → s.j % 2 ≡ 0 → guest_layout_call c s ≡ host_layout_call c s
unfolding guest_layout_call host_layout_call
call_agree (vertex_layout param offs mode) s e = refl
call_agree (reset what) s e = refl
call_agree (draw n) s e =
    ap (λ j. record s { j = j }) (add_vertices-words (size_vertex3x s.vlut) n s.j e)

host_layout_call-even : (c : Call) (s : Side) → s.j % 2 ≡ 0 → (host_layout_call c s).j % 2 ≡ 0
unfolding host_layout_call
host_layout_call-even (vertex_layout param offs mode) s e = e
host_layout_call-even (reset what) s e = e
host_layout_call-even (draw n) s e = omega (arith, all_words (size_vertex3x s.vlut) n)

-- If both sides have the same layout and stand at the same even word of the data stream, they do so
-- after any layout calls, resets and draws: the guest sends each vertex with the size that the
-- device computes for it.
pub calls_meet :
    (cs : List Call) (s : Side) → s.j % 2 ≡ 0 → guest_layout_calls cs s ≡ host_layout_calls cs s
unfolding guest_layout_calls host_layout_calls
calls_meet [] s e = refl
calls_meet (c ∷ cs) s e =
    ap (λ t. guest_layout_calls cs t) (call_agree c s e)
    ∙ calls_meet cs (host_layout_call c s) (host_layout_call-even c s e)
