-- ===== src/Calls/Shifts.antt =====
-- Calls of wrappers/mesa/src/wrapgl32.c behind which the guest and the host (processArgs and
-- getNumArgs of qemu-1/hw/mesa) stand at different places.
use qemu_3dfx.Common.{ℕ, ◌+◌, ◌%◌, ◌<◌, ◌≡◌, refl, false, [], ◌∷◌, arith, ◌⊎◌, inl, inr}
use qemu_3dfx.Fifo.{num_data}
use qemu_3dfx.Calls.{words, sizes, add_all, get_num_args}
use qemu_3dfx.Calls.Words.{add_all-sent}
use qemu_3dfx.Calls.Function.{Function, set_fence, texture_buffer, entry, bytes}
use qemu_3dfx.Calls.TexCoord1.{
  TexCoord1, tex_coord1b_oes, tex_coord1bv_oes, tex_coord1d, tex_coord1dv, tex_coord1f,
  tex_coord1fv, tex_coord1h_nv, tex_coord1hv_nv, tex_coord1i, tex_coord1iv, tex_coord1s,
  tex_coord1sv, tex_coord1x_oes, tex_coord1xv_oes, tex_coord1_entry, tex_coord1_datacb,
  tex_coord1_handled,
}
use qemu_3dfx.Calls.VertexAttribs.{
  VertexAttribs, vertex_attribs1dv_nv, vertex_attribs1fv_nv, vertex_attribs1hv_nv,
  vertex_attribs1sv_nv, vertex_attribs2dv_nv, vertex_attribs2fv_nv, vertex_attribs2hv_nv,
  vertex_attribs2sv_nv, vertex_attribs3dv_nv, vertex_attribs3fv_nv, vertex_attribs3hv_nv,
  vertex_attribs3sv_nv, vertex_attribs4dv_nv, vertex_attribs4fv_nv, vertex_attribs4hv_nv,
  vertex_attribs4sv_nv, vertex_attribs4ubv_nv, vertex_attribs_entry, vertex_attribs_datacb,
  vertex_attribs_handled,
}
use qemu_3dfx.Calls.ClearBuffer.{
  ClearBuffer, clear_bufferfi, clear_bufferfv, clear_bufferiv, clear_bufferuiv, clear_buffer_entry,
  clear_buffer_datacb, clear_buffer_handled,
}
use qemu_3dfx.Calls.SetFence.{set_fence_nv, set_fence_entry, set_fence_bytes}
use qemu_3dfx.Calls.TextureBuffer.{
  texture_buffer, texture_buffer_ext, texture_buffer_entry, texture_buffer_bytes,
}

-- glTexCoord1dv, glTexCoord1fv, glTexCoord1iv and glTexCoord1sv: processArgs has no case for them, and
-- the host stays two words of data behind the guest.
tex_coord1_shifts :
    (f : TexCoord1) (a : ℕ → ℕ) (j : ℕ)
    → j % 2 ≡ 0
    → tex_coord1_handled f a ≡ false
    → add_all j (sizes (tex_coord1_entry f a)) ≡ j + num_data (tex_coord1_datacb f a) + 2
unfolding tex_coord1_entry tex_coord1_datacb
tex_coord1_shifts tex_coord1b_oes a j e h = cc
tex_coord1_shifts tex_coord1bv_oes a j e h = cc
tex_coord1_shifts tex_coord1d a j e h = cc
tex_coord1_shifts tex_coord1dv a j e h =
    omega (arith, add_all-sent (sizes (tex_coord1_entry tex_coord1dv a)) j e)
tex_coord1_shifts tex_coord1f a j e h = cc
tex_coord1_shifts tex_coord1fv a j e h =
    omega (arith, add_all-sent (sizes (tex_coord1_entry tex_coord1fv a)) j e)
tex_coord1_shifts tex_coord1h_nv a j e h = cc
tex_coord1_shifts tex_coord1hv_nv a j e h = cc
tex_coord1_shifts tex_coord1i a j e h = cc
tex_coord1_shifts tex_coord1iv a j e h =
    omega (arith, add_all-sent (sizes (tex_coord1_entry tex_coord1iv a)) j e)
tex_coord1_shifts tex_coord1s a j e h = cc
tex_coord1_shifts tex_coord1sv a j e h =
    omega (arith, add_all-sent (sizes (tex_coord1_entry tex_coord1sv a)) j e)
tex_coord1_shifts tex_coord1x_oes a j e h = cc
tex_coord1_shifts tex_coord1xv_oes a j e h = cc

-- glVertexAttribs*NV of one vector at least: processArgs has no case for them, and the host stays
-- behind the guest.
vertex_attribs_shift :
    (f : VertexAttribs) (a : ℕ → ℕ) (j : ℕ)
    → j % 2 ≡ 0
    → vertex_attribs_handled f a ≡ false
    → 0 < a 1
    → j + num_data (vertex_attribs_datacb f a) < add_all j (sizes (vertex_attribs_entry f a))
unfolding vertex_attribs_entry vertex_attribs_datacb
vertex_attribs_shift vertex_attribs1dv_nv a j e h p =
    ground (arith, add_all-sent (sizes (vertex_attribs_entry vertex_attribs1dv_nv a)) j e)
vertex_attribs_shift vertex_attribs1fv_nv a j e h p =
    ground (arith, add_all-sent (sizes (vertex_attribs_entry vertex_attribs1fv_nv a)) j e)
vertex_attribs_shift vertex_attribs1hv_nv a j e h p = cc
vertex_attribs_shift vertex_attribs1sv_nv a j e h p =
    ground (arith, add_all-sent (sizes (vertex_attribs_entry vertex_attribs1sv_nv a)) j e)
vertex_attribs_shift vertex_attribs2dv_nv a j e h p =
    ground (arith, add_all-sent (sizes (vertex_attribs_entry vertex_attribs2dv_nv a)) j e)
vertex_attribs_shift vertex_attribs2fv_nv a j e h p =
    ground (arith, add_all-sent (sizes (vertex_attribs_entry vertex_attribs2fv_nv a)) j e)
vertex_attribs_shift vertex_attribs2hv_nv a j e h p = cc
vertex_attribs_shift vertex_attribs2sv_nv a j e h p =
    ground (arith, add_all-sent (sizes (vertex_attribs_entry vertex_attribs2sv_nv a)) j e)
vertex_attribs_shift vertex_attribs3dv_nv a j e h p =
    ground (arith, add_all-sent (sizes (vertex_attribs_entry vertex_attribs3dv_nv a)) j e)
vertex_attribs_shift vertex_attribs3fv_nv a j e h p =
    ground (arith, add_all-sent (sizes (vertex_attribs_entry vertex_attribs3fv_nv a)) j e)
vertex_attribs_shift vertex_attribs3hv_nv a j e h p = cc
vertex_attribs_shift vertex_attribs3sv_nv a j e h p =
    ground (arith, add_all-sent (sizes (vertex_attribs_entry vertex_attribs3sv_nv a)) j e)
vertex_attribs_shift vertex_attribs4dv_nv a j e h p =
    ground (arith, add_all-sent (sizes (vertex_attribs_entry vertex_attribs4dv_nv a)) j e)
vertex_attribs_shift vertex_attribs4fv_nv a j e h p =
    ground (arith, add_all-sent (sizes (vertex_attribs_entry vertex_attribs4fv_nv a)) j e)
vertex_attribs_shift vertex_attribs4hv_nv a j e h p = cc
vertex_attribs_shift vertex_attribs4sv_nv a j e h p =
    ground (arith, add_all-sent (sizes (vertex_attribs_entry vertex_attribs4sv_nv a)) j e)
vertex_attribs_shift vertex_attribs4ubv_nv a j e h p =
    ground (arith, add_all-sent (sizes (vertex_attribs_entry vertex_attribs4ubv_nv a)) j e)

-- glClearBuffer*v of another buffer than the colors: the host takes one word of data, and the guest
-- moves by two.
clear_buffer_shifts :
    (f : ClearBuffer) (a : ℕ → ℕ) (j : ℕ)
    → j % 2 ≡ 0
    → clear_buffer_handled f a ≡ false
    → add_all j (sizes (clear_buffer_entry f a)) ≡ j + num_data (clear_buffer_datacb f a) + 1
unfolding clear_buffer_entry clear_buffer_datacb
clear_buffer_shifts clear_bufferfi a j e h = cc
clear_buffer_shifts clear_bufferfv a j e h = rw h (omega (arith, add_all-sent (4 ∷ []) j e))
clear_buffer_shifts clear_bufferiv a j e h = rw h (omega (arith, add_all-sent (4 ∷ []) j e))
clear_buffer_shifts clear_bufferuiv a j e h = rw h (omega (arith, add_all-sent (4 ∷ []) j e))

-- glSetFenceNV and glTextureBufferEXT: the wrapper queues one argument word less than the host skips.
skips_word :
    (a : ℕ → ℕ) (f : Function)
    → (f ≡ set_fence set_fence_nv) ⊎ (f ≡ texture_buffer texture_buffer_ext)
    → words (entry f a) + 1 ≡ get_num_args (bytes f)
unfolding entry bytes set_fence_entry set_fence_bytes texture_buffer_entry texture_buffer_bytes
skips_word a f (inl e) = rw e refl
skips_word a f (inr e) = rw e refl
