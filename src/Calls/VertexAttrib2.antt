-- ===== src/Calls/VertexAttrib2.antt =====
-- The functions glVertexAttrib2* of wrappers/mesa/src/wrapgl32.c, their rows of qemu-1/hw/mesa/mglfptbl.h,
-- and their cases of processArgs of qemu-1/hw/mesa/mesapt_mm.c.
use qemu_3dfx.Common.{ℕ, refl, [], ◌∷◌, ◌*◌}
use qemu_3dfx.Calls.{Entry, queued, trapped, aligned, Agrees}

-- The enumerators, by the functions' names.
pub data VertexAttrib2 : Type 0 where
  vertex_attrib2d vertex_attrib2d_arb vertex_attrib2d_nv : VertexAttrib2
  vertex_attrib2dv vertex_attrib2dv_arb vertex_attrib2dv_nv : VertexAttrib2
  vertex_attrib2f vertex_attrib2f_arb vertex_attrib2f_nv : VertexAttrib2
  vertex_attrib2fv vertex_attrib2fv_arb vertex_attrib2fv_nv : VertexAttrib2
  vertex_attrib2h_nv vertex_attrib2hv_nv vertex_attrib2s : VertexAttrib2
  vertex_attrib2s_arb vertex_attrib2s_nv vertex_attrib2sv : VertexAttrib2
  vertex_attrib2sv_arb vertex_attrib2sv_nv : VertexAttrib2

-- The bytes that the table has behind the @ of the symbol.
unfoldable pub vertex_attrib2_bytes : VertexAttrib2 → ℕ
vertex_attrib2_bytes vertex_attrib2d = 20
vertex_attrib2_bytes vertex_attrib2d_arb = 20
vertex_attrib2_bytes vertex_attrib2d_nv = 20
vertex_attrib2_bytes vertex_attrib2dv = 8
vertex_attrib2_bytes vertex_attrib2dv_arb = 8
vertex_attrib2_bytes vertex_attrib2dv_nv = 8
vertex_attrib2_bytes vertex_attrib2f = 12
vertex_attrib2_bytes vertex_attrib2f_arb = 12
vertex_attrib2_bytes vertex_attrib2f_nv = 12
vertex_attrib2_bytes vertex_attrib2fv = 8
vertex_attrib2_bytes vertex_attrib2fv_arb = 8
vertex_attrib2_bytes vertex_attrib2fv_nv = 8
vertex_attrib2_bytes vertex_attrib2h_nv = 12
vertex_attrib2_bytes vertex_attrib2hv_nv = 8
vertex_attrib2_bytes vertex_attrib2s = 12
vertex_attrib2_bytes vertex_attrib2s_arb = 12
vertex_attrib2_bytes vertex_attrib2s_nv = 12
vertex_attrib2_bytes vertex_attrib2sv = 8
vertex_attrib2_bytes vertex_attrib2sv_arb = 8
vertex_attrib2_bytes vertex_attrib2sv_nv = 8

-- The wrappers.
unfoldable pub vertex_attrib2_entry : VertexAttrib2 → (ℕ → ℕ) → Entry
vertex_attrib2_entry vertex_attrib2d _ = queued 5 []
vertex_attrib2_entry vertex_attrib2d_arb _ = queued 5 []
vertex_attrib2_entry vertex_attrib2d_nv _ = queued 5 []
vertex_attrib2_entry vertex_attrib2dv _ = queued 2 ((2 * 8) ∷ [])
vertex_attrib2_entry vertex_attrib2dv_arb _ = queued 2 ((2 * 8) ∷ [])
vertex_attrib2_entry vertex_attrib2dv_nv _ = queued 2 ((2 * 8) ∷ [])
vertex_attrib2_entry vertex_attrib2f _ = queued 3 []
vertex_attrib2_entry vertex_attrib2f_arb _ = queued 3 []
vertex_attrib2_entry vertex_attrib2f_nv _ = queued 3 []
vertex_attrib2_entry vertex_attrib2fv _ = queued 2 ((2 * 4) ∷ [])
vertex_attrib2_entry vertex_attrib2fv_arb _ = queued 2 ((2 * 4) ∷ [])
vertex_attrib2_entry vertex_attrib2fv_nv _ = queued 2 ((2 * 4) ∷ [])
vertex_attrib2_entry vertex_attrib2h_nv _ = trapped 3 []
vertex_attrib2_entry vertex_attrib2hv_nv _ = trapped 2 []
vertex_attrib2_entry vertex_attrib2s _ = queued 3 []
vertex_attrib2_entry vertex_attrib2s_arb _ = queued 3 []
vertex_attrib2_entry vertex_attrib2s_nv _ = queued 3 []
vertex_attrib2_entry vertex_attrib2sv _ = queued 2 ((aligned (2 * 2)) ∷ [])
vertex_attrib2_entry vertex_attrib2sv_arb _ = queued 2 ((aligned (2 * 2)) ∷ [])
vertex_attrib2_entry vertex_attrib2sv_nv _ = queued 2 ((aligned (2 * 2)) ∷ [])

-- `datacb` behind processArgs.
unfoldable pub vertex_attrib2_datacb : VertexAttrib2 → (ℕ → ℕ) → ℕ
vertex_attrib2_datacb vertex_attrib2dv _ = 2 * 8
vertex_attrib2_datacb vertex_attrib2dv_arb _ = 2 * 8
vertex_attrib2_datacb vertex_attrib2dv_nv _ = 2 * 8
vertex_attrib2_datacb vertex_attrib2fv _ = aligned 1
vertex_attrib2_datacb vertex_attrib2fv_arb _ = aligned 1
vertex_attrib2_datacb vertex_attrib2fv_nv _ = aligned 1
vertex_attrib2_datacb vertex_attrib2sv _ = aligned 1
vertex_attrib2_datacb vertex_attrib2sv_arb _ = aligned 1
vertex_attrib2_datacb vertex_attrib2sv_nv _ = aligned 1
vertex_attrib2_datacb _ _ = 0

pub vertex_attrib2-Agrees :
    (f : VertexAttrib2) (a : ℕ → ℕ)
    → Agrees (vertex_attrib2_entry f a) (vertex_attrib2_bytes f) (vertex_attrib2_datacb f a)
unfolding vertex_attrib2_entry vertex_attrib2_bytes vertex_attrib2_datacb
vertex_attrib2-Agrees vertex_attrib2d a = (refl, refl)
vertex_attrib2-Agrees vertex_attrib2d_arb a = (refl, refl)
vertex_attrib2-Agrees vertex_attrib2d_nv a = (refl, refl)
vertex_attrib2-Agrees vertex_attrib2dv a = (refl, refl)
vertex_attrib2-Agrees vertex_attrib2dv_arb a = (refl, refl)
vertex_attrib2-Agrees vertex_attrib2dv_nv a = (refl, refl)
vertex_attrib2-Agrees vertex_attrib2f a = (refl, refl)
vertex_attrib2-Agrees vertex_attrib2f_arb a = (refl, refl)
vertex_attrib2-Agrees vertex_attrib2f_nv a = (refl, refl)
vertex_attrib2-Agrees vertex_attrib2fv a = (refl, refl)
vertex_attrib2-Agrees vertex_attrib2fv_arb a = (refl, refl)
vertex_attrib2-Agrees vertex_attrib2fv_nv a = (refl, refl)
vertex_attrib2-Agrees vertex_attrib2h_nv a = (refl, refl)
vertex_attrib2-Agrees vertex_attrib2hv_nv a = (refl, refl)
vertex_attrib2-Agrees vertex_attrib2s a = (refl, refl)
vertex_attrib2-Agrees vertex_attrib2s_arb a = (refl, refl)
vertex_attrib2-Agrees vertex_attrib2s_nv a = (refl, refl)
vertex_attrib2-Agrees vertex_attrib2sv a = (refl, refl)
vertex_attrib2-Agrees vertex_attrib2sv_arb a = (refl, refl)
vertex_attrib2-Agrees vertex_attrib2sv_nv a = (refl, refl)
