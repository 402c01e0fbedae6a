-- ===== src/Calls/VertexAttrib3.antt =====
-- The functions glVertexAttrib3* of wrappers/mesa/src/wrapgl32.c, their rows of qemu-1/hw/mesa/mglfptbl.h,
-- and their cases of processArgs of qemu-1/hw/mesa/mesapt_mm.c.
use qemu_3dfx.Common.{ℕ, refl, [], ◌∷◌, ◌*◌}
use qemu_3dfx.Calls.{Entry, queued, trapped, aligned, Agrees}

-- The enumerators, by the functions' names.
pub data VertexAttrib3 : Type 0 where
  vertex_attrib3d vertex_attrib3d_arb vertex_attrib3d_nv : VertexAttrib3
  vertex_attrib3dv vertex_attrib3dv_arb vertex_attrib3dv_nv : VertexAttrib3
  vertex_attrib3f vertex_attrib3f_arb vertex_attrib3f_nv : VertexAttrib3
  vertex_attrib3fv vertex_attrib3fv_arb vertex_attrib3fv_nv : VertexAttrib3
  vertex_attrib3h_nv vertex_attrib3hv_nv vertex_attrib3s : VertexAttrib3
  vertex_attrib3s_arb vertex_attrib3s_nv vertex_attrib3sv : VertexAttrib3
  vertex_attrib3sv_arb vertex_attrib3sv_nv : VertexAttrib3

-- The bytes that the table has behind the @ of the symbol.
unfoldable pub vertex_attrib3_bytes : VertexAttrib3 → ℕ
vertex_attrib3_bytes vertex_attrib3d = 28
vertex_attrib3_bytes vertex_attrib3d_arb = 28
vertex_attrib3_bytes vertex_attrib3d_nv = 28
vertex_attrib3_bytes vertex_attrib3dv = 8
vertex_attrib3_bytes vertex_attrib3dv_arb = 8
vertex_attrib3_bytes vertex_attrib3dv_nv = 8
vertex_attrib3_bytes vertex_attrib3f = 16
vertex_attrib3_bytes vertex_attrib3f_arb = 16
vertex_attrib3_bytes vertex_attrib3f_nv = 16
vertex_attrib3_bytes vertex_attrib3fv = 8
vertex_attrib3_bytes vertex_attrib3fv_arb = 8
vertex_attrib3_bytes vertex_attrib3fv_nv = 8
vertex_attrib3_bytes vertex_attrib3h_nv = 16
vertex_attrib3_bytes vertex_attrib3hv_nv = 8
vertex_attrib3_bytes vertex_attrib3s = 16
vertex_attrib3_bytes vertex_attrib3s_arb = 16
vertex_attrib3_bytes vertex_attrib3s_nv = 16
vertex_attrib3_bytes vertex_attrib3sv = 8
vertex_attrib3_bytes vertex_attrib3sv_arb = 8
vertex_attrib3_bytes vertex_attrib3sv_nv = 8

-- The wrappers.
unfoldable pub vertex_attrib3_entry : VertexAttrib3 → (ℕ → ℕ) → Entry
vertex_attrib3_entry vertex_attrib3d _ = queued 7 []
vertex_attrib3_entry vertex_attrib3d_arb _ = queued 7 []
vertex_attrib3_entry vertex_attrib3d_nv _ = queued 7 []
vertex_attrib3_entry vertex_attrib3dv _ = queued 2 ((3 * 8) ∷ [])
vertex_attrib3_entry vertex_attrib3dv_arb _ = queued 2 ((3 * 8) ∷ [])
vertex_attrib3_entry vertex_attrib3dv_nv _ = queued 2 ((3 * 8) ∷ [])
vertex_attrib3_entry vertex_attrib3f _ = queued 4 []
vertex_attrib3_entry vertex_attrib3f_arb _ = queued 4 []
vertex_attrib3_entry vertex_attrib3f_nv _ = queued 4 []
vertex_attrib3_entry vertex_attrib3fv _ = queued 2 ((aligned (3 * 4)) ∷ [])
vertex_attrib3_entry vertex_attrib3fv_arb _ = queued 2 ((aligned (3 * 4)) ∷ [])
vertex_attrib3_entry vertex_attrib3fv_nv _ = queued 2 ((aligned (3 * 4)) ∷ [])
vertex_attrib3_entry vertex_attrib3h_nv _ = trapped 4 []
vertex_attrib3_entry vertex_attrib3hv_nv _ = trapped 2 []
vertex_attrib3_entry vertex_attrib3s _ = queued 4 []
vertex_attrib3_entry vertex_attrib3s_arb _ = queued 4 []
vertex_attrib3_entry vertex_attrib3s_nv _ = queued 4 []
vertex_attrib3_entry vertex_attrib3sv _ = queued 2 ((aligned (3 * 2)) ∷ [])
vertex_attrib3_entry vertex_attrib3sv_arb _ = queued 2 ((aligned (3 * 2)) ∷ [])
vertex_attrib3_entry vertex_attrib3sv_nv _ = queued 2 ((aligned (3 * 2)) ∷ [])

-- `datacb` behind processArgs.
unfoldable pub vertex_attrib3_datacb : VertexAttrib3 → (ℕ → ℕ) → ℕ
vertex_attrib3_datacb vertex_attrib3dv _ = 3 * 8
vertex_attrib3_datacb vertex_attrib3dv_arb _ = 3 * 8
vertex_attrib3_datacb vertex_attrib3dv_nv _ = 3 * 8
vertex_attrib3_datacb vertex_attrib3fv _ = aligned (3 * 4)
vertex_attrib3_datacb vertex_attrib3fv_arb _ = aligned (3 * 4)
vertex_attrib3_datacb vertex_attrib3fv_nv _ = aligned (3 * 4)
vertex_attrib3_datacb vertex_attrib3sv _ = aligned 1
vertex_attrib3_datacb vertex_attrib3sv_arb _ = aligned 1
vertex_attrib3_datacb vertex_attrib3sv_nv _ = aligned 1
vertex_attrib3_datacb _ _ = 0

pub vertex_attrib3-Agrees :
    (f : VertexAttrib3) (a : ℕ → ℕ)
    → Agrees (vertex_attrib3_entry f a) (vertex_attrib3_bytes f) (vertex_attrib3_datacb f a)
unfolding vertex_attrib3_entry vertex_attrib3_bytes vertex_attrib3_datacb
vertex_attrib3-Agrees vertex_attrib3d a = (refl, refl)
vertex_attrib3-Agrees vertex_attrib3d_arb a = (refl, refl)
vertex_attrib3-Agrees vertex_attrib3d_nv a = (refl, refl)
vertex_attrib3-Agrees vertex_attrib3dv a = (refl, refl)
vertex_attrib3-Agrees vertex_attrib3dv_arb a = (refl, refl)
vertex_attrib3-Agrees vertex_attrib3dv_nv a = (refl, refl)
vertex_attrib3-Agrees vertex_attrib3f a = (refl, refl)
vertex_attrib3-Agrees vertex_attrib3f_arb a = (refl, refl)
vertex_attrib3-Agrees vertex_attrib3f_nv a = (refl, refl)
vertex_attrib3-Agrees vertex_attrib3fv a = (refl, refl)
vertex_attrib3-Agrees vertex_attrib3fv_arb a = (refl, refl)
vertex_attrib3-Agrees vertex_attrib3fv_nv a = (refl, refl)
vertex_attrib3-Agrees vertex_attrib3h_nv a = (refl, refl)
vertex_attrib3-Agrees vertex_attrib3hv_nv a = (refl, refl)
vertex_attrib3-Agrees vertex_attrib3s a = (refl, refl)
vertex_attrib3-Agrees vertex_attrib3s_arb a = (refl, refl)
vertex_attrib3-Agrees vertex_attrib3s_nv a = (refl, refl)
vertex_attrib3-Agrees vertex_attrib3sv a = (refl, refl)
vertex_attrib3-Agrees vertex_attrib3sv_arb a = (refl, refl)
vertex_attrib3-Agrees vertex_attrib3sv_nv a = (refl, refl)
