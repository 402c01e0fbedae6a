-- ===== src/Calls/VertexAttrib4.antt =====
-- The functions glVertexAttrib4* of wrappers/mesa/src/wrapgl32.c, their rows of qemu-1/hw/mesa/mglfptbl.h,
-- and their cases of processArgs of qemu-1/hw/mesa/mesapt_mm.c.
use qemu_3dfx.Common.{ℕ, refl, [], ◌∷◌, ◌*◌}
use qemu_3dfx.Calls.{Entry, queued, trapped, aligned, Agrees}

-- The enumerators, by the functions' names.
pub data VertexAttrib4 : Type 0 where
  vertex_attrib4_nbv vertex_attrib4_nbv_arb vertex_attrib4_niv : VertexAttrib4
  vertex_attrib4_niv_arb vertex_attrib4_nsv vertex_attrib4_nsv_arb : VertexAttrib4
  vertex_attrib4_nub vertex_attrib4_nub_arb vertex_attrib4_nubv : VertexAttrib4
  vertex_attrib4_nubv_arb vertex_attrib4_nuiv vertex_attrib4_nuiv_arb : VertexAttrib4
  vertex_attrib4_nusv vertex_attrib4_nusv_arb vertex_attrib4bv : VertexAttrib4
  vertex_attrib4bv_arb vertex_attrib4d vertex_attrib4d_arb : VertexAttrib4
  vertex_attrib4d_nv vertex_attrib4dv vertex_attrib4dv_arb : VertexAttrib4
  vertex_attrib4dv_nv vertex_attrib4f vertex_attrib4f_arb : VertexAttrib4
  vertex_attrib4f_nv vertex_attrib4fv vertex_attrib4fv_arb : VertexAttrib4
  vertex_attrib4fv_nv vertex_attrib4h_nv vertex_attrib4hv_nv : VertexAttrib4
  vertex_attrib4iv vertex_attrib4iv_arb vertex_attrib4s : VertexAttrib4
  vertex_attrib4s_arb vertex_attrib4s_nv vertex_attrib4sv : VertexAttrib4
  vertex_attrib4sv_arb vertex_attrib4sv_nv vertex_attrib4ub_nv : VertexAttrib4
  vertex_attrib4ubv vertex_attrib4ubv_arb vertex_attrib4ubv_nv : VertexAttrib4
  vertex_attrib4uiv vertex_attrib4uiv_arb vertex_attrib4usv : VertexAttrib4
  vertex_attrib4usv_arb : VertexAttrib4

-- The bytes that the table has behind the @ of the symbol.
unfoldable pub vertex_attrib4_bytes : VertexAttrib4 → ℕ
vertex_attrib4_bytes vertex_attrib4_nbv = 8
vertex_attrib4_bytes vertex_attrib4_nbv_arb = 8
vertex_attrib4_bytes vertex_attrib4_niv = 8
vertex_attrib4_bytes vertex_attrib4_niv_arb = 8
vertex_attrib4_bytes vertex_attrib4_nsv = 8
vertex_attrib4_bytes vertex_attrib4_nsv_arb = 8
vertex_attrib4_bytes vertex_attrib4_nub = 20
vertex_attrib4_bytes vertex_attrib4_nub_arb = 20
vertex_attrib4_bytes vertex_attrib4_nubv = 8
vertex_attrib4_bytes vertex_attrib4_nubv_arb = 8
vertex_attrib4_bytes vertex_attrib4_nuiv = 8
vertex_attrib4_bytes vertex_attrib4_nuiv_arb = 8
vertex_attrib4_bytes vertex_attrib4_nusv = 8
vertex_attrib4_bytes vertex_attrib4_nusv_arb = 8
vertex_attrib4_bytes vertex_attrib4bv = 8
vertex_attrib4_bytes vertex_attrib4bv_arb = 8
vertex_attrib4_bytes vertex_attrib4d = 36
vertex_attrib4_bytes vertex_attrib4d_arb = 36
vertex_attrib4_bytes vertex_attrib4d_nv = 36
vertex_attrib4_bytes vertex_attrib4dv = 8
vertex_attrib4_bytes vertex_attrib4dv_arb = 8
vertex_attrib4_bytes vertex_attrib4dv_nv = 8
vertex_attrib4_bytes vertex_attrib4f = 20
vertex_attrib4_bytes vertex_attrib4f_arb = 20
vertex_attrib4_bytes vertex_attrib4f_nv = 20
vertex_attrib4_bytes vertex_attrib4fv = 8
vertex_attrib4_bytes vertex_attrib4fv_arb = 8
vertex_attrib4_bytes vertex_attrib4fv_nv = 8
vertex_attrib4_bytes vertex_attrib4h_nv = 20
vertex_attrib4_bytes vertex_attrib4hv_nv = 8
vertex_attrib4_bytes vertex_attrib4iv = 8
vertex_attrib4_bytes vertex_attrib4iv_arb = 8
vertex_attrib4_bytes vertex_attrib4s = 20
vertex_attrib4_bytes vertex_attrib4s_arb = 20
vertex_attrib4_bytes vertex_attrib4s_nv = 20
vertex_attrib4_bytes vertex_attrib4sv = 8
vertex_attrib4_bytes vertex_attrib4sv_arb = 8
vertex_attrib4_bytes vertex_attrib4sv_nv = 8
vertex_attrib4_bytes vertex_attrib4ub_nv = 20
vertex_attrib4_bytes vertex_attrib4ubv = 8
vertex_attrib4_bytes vertex_attrib4ubv_arb = 8
vertex_attrib4_bytes vertex_attrib4ubv_nv = 8
vertex_attrib4_bytes vertex_attrib4uiv = 8
vertex_attrib4_bytes vertex_attrib4uiv_arb = 8
vertex_attrib4_bytes vertex_attrib4usv = 8
vertex_attrib4_bytes vertex_attrib4usv_arb = 8

-- The wrappers.
unfoldable pub vertex_attrib4_entry : VertexAttrib4 → (ℕ → ℕ) → Entry
vertex_attrib4_entry vertex_attrib4_nbv _ = queued 2 ((aligned (4 * 1)) ∷ [])
vertex_attrib4_entry vertex_attrib4_nbv_arb _ = queued 2 ((aligned (4 * 1)) ∷ [])
vertex_attrib4_entry vertex_attrib4_niv _ = queued 2 ((4 * 4) ∷ [])
vertex_attrib4_entry vertex_attrib4_niv_arb _ = queued 2 ((4 * 4) ∷ [])
vertex_attrib4_entry vertex_attrib4_nsv _ = queued 2 ((4 * 2) ∷ [])
vertex_attrib4_entry vertex_attrib4_nsv_arb _ = queued 2 ((4 * 2) ∷ [])
vertex_attrib4_entry vertex_attrib4_nub _ = queued 5 []
vertex_attrib4_entry vertex_attrib4_nub_arb _ = queued 5 []
vertex_attrib4_entry vertex_attrib4_nubv _ = queued 2 ((aligned (4 * 1)) ∷ [])
vertex_attrib4_entry vertex_attrib4_nubv_arb _ = queued 2 ((aligned (4 * 1)) ∷ [])
vertex_attrib4_entry vertex_attrib4_nuiv _ = queued 2 ((4 * 4) ∷ [])
vertex_attrib4_entry vertex_attrib4_nuiv_arb _ = queued 2 ((4 * 4) ∷ [])
vertex_attrib4_entry vertex_attrib4_nusv _ = queued 2 ((4 * 2) ∷ [])
vertex_attrib4_entry vertex_attrib4_nusv_arb _ = queued 2 ((4 * 2) ∷ [])
vertex_attrib4_entry vertex_attrib4bv _ = queued 2 ((aligned (4 * 1)) ∷ [])
vertex_attrib4_entry vertex_attrib4bv_arb _ = queued 2 ((aligned (4 * 1)) ∷ [])
vertex_attrib4_entry vertex_attrib4d _ = queued 9 []
vertex_attrib4_entry vertex_attrib4d_arb _ = queued 9 []
vertex_attrib4_entry vertex_attrib4d_nv _ = queued 9 []
vertex_attrib4_entry vertex_attrib4dv _ = queued 2 ((4 * 8) ∷ [])
vertex_attrib4_entry vertex_attrib4dv_arb _ = queued 2 ((4 * 8) ∷ [])
vertex_attrib4_entry vertex_attrib4dv_nv _ = queued 2 ((4 * 8) ∷ [])
vertex_attrib4_entry vertex_attrib4f _ = queued 5 []
vertex_attrib4_entry vertex_attrib4f_arb _ = queued 5 []
vertex_attrib4_entry vertex_attrib4f_nv _ = queued 5 []
vertex_attrib4_entry vertex_attrib4fv _ = queued 2 ((4 * 4) ∷ [])
vertex_attrib4_entry vertex_attrib4fv_arb _ = queued 2 ((4 * 4) ∷ [])
vertex_attrib4_entry vertex_attrib4fv_nv _ = queued 2 ((4 * 4) ∷ [])
vertex_attrib4_entry vertex_attrib4h_nv _ = trapped 5 []
vertex_attrib4_entry vertex_attrib4hv_nv _ = trapped 2 []
vertex_attrib4_entry vertex_attrib4iv _ = queued 2 ((4 * 4) ∷ [])
vertex_attrib4_entry vertex_attrib4iv_arb _ = queued 2 ((4 * 4) ∷ [])
vertex_attrib4_entry vertex_attrib4s _ = queued 5 []
vertex_attrib4_entry vertex_attrib4s_arb _ = queued 5 []
vertex_attrib4_entry vertex_attrib4s_nv _ = queued 5 []
vertex_attrib4_entry vertex_attrib4sv _ = queued 2 ((4 * 2) ∷ [])
vertex_attrib4_entry vertex_attrib4sv_arb _ = queued 2 ((4 * 2) ∷ [])
vertex_attrib4_entry vertex_attrib4sv_nv _ = queued 2 ((4 * 2) ∷ [])
vertex_attrib4_entry vertex_attrib4ub_nv _ = queued 5 []
vertex_attrib4_entry vertex_attrib4ubv _ = queued 2 ((aligned (4 * 1)) ∷ [])
vertex_attrib4_entry vertex_attrib4ubv_arb _ = queued 2 ((aligned (4 * 1)) ∷ [])
vertex_attrib4_entry vertex_attrib4ubv_nv _ = queued 2 ((aligned (4 * 1)) ∷ [])
vertex_attrib4_entry vertex_attrib4uiv _ = queued 2 ((4 * 4) ∷ [])
vertex_attrib4_entry vertex_attrib4uiv_arb _ = queued 2 ((4 * 4) ∷ [])
vertex_attrib4_entry vertex_attrib4usv _ = queued 2 ((4 * 2) ∷ [])
vertex_attrib4_entry vertex_attrib4usv_arb _ = queued 2 ((4 * 2) ∷ [])

-- `datacb` behind processArgs.
unfoldable pub vertex_attrib4_datacb : VertexAttrib4 → (ℕ → ℕ) → ℕ
vertex_attrib4_datacb vertex_attrib4_nbv _ = aligned 1
vertex_attrib4_datacb vertex_attrib4_nbv_arb _ = aligned 1
vertex_attrib4_datacb vertex_attrib4_niv _ = 4 * 4
vertex_attrib4_datacb vertex_attrib4_niv_arb _ = 4 * 4
vertex_attrib4_datacb vertex_attrib4_nsv _ = aligned 1
vertex_attrib4_datacb vertex_attrib4_nsv_arb _ = aligned 1
vertex_attrib4_datacb vertex_attrib4_nubv _ = aligned 1
vertex_attrib4_datacb vertex_attrib4_nubv_arb _ = aligned 1
vertex_attrib4_datacb vertex_attrib4_nuiv _ = 4 * 4
vertex_attrib4_datacb vertex_attrib4_nuiv_arb _ = 4 * 4
vertex_attrib4_datacb vertex_attrib4_nusv _ = aligned 1
vertex_attrib4_datacb vertex_attrib4_nusv_arb _ = aligned 1
vertex_attrib4_datacb vertex_attrib4bv _ = aligned 1
vertex_attrib4_datacb vertex_attrib4bv_arb _ = aligned 1
vertex_attrib4_datacb vertex_attrib4dv _ = 4 * 8
vertex_attrib4_datacb vertex_attrib4dv_arb _ = 4 * 8
vertex_attrib4_datacb vertex_attrib4dv_nv _ = 4 * 8
vertex_attrib4_datacb vertex_attrib4fv _ = 4 * 4
vertex_attrib4_datacb vertex_attrib4fv_arb _ = 4 * 4
vertex_attrib4_datacb vertex_attrib4fv_nv _ = 4 * 4
vertex_attrib4_datacb vertex_attrib4iv _ = 4 * 4
vertex_attrib4_datacb vertex_attrib4iv_arb _ = 4 * 4
vertex_attrib4_datacb vertex_attrib4sv _ = aligned 1
vertex_attrib4_datacb vertex_attrib4sv_arb _ = aligned 1
vertex_attrib4_datacb vertex_attrib4sv_nv _ = aligned 1
vertex_attrib4_datacb vertex_attrib4ubv _ = aligned 1
vertex_attrib4_datacb vertex_attrib4ubv_arb _ = aligned 1
vertex_attrib4_datacb vertex_attrib4ubv_nv _ = aligned 1
vertex_attrib4_datacb vertex_attrib4uiv _ = 4 * 4
vertex_attrib4_datacb vertex_attrib4uiv_arb _ = 4 * 4
vertex_attrib4_datacb vertex_attrib4usv _ = aligned 1
vertex_attrib4_datacb vertex_attrib4usv_arb _ = aligned 1
vertex_attrib4_datacb _ _ = 0

pub vertex_attrib4-Agrees :
    (f : VertexAttrib4) (a : ℕ → ℕ)
    → Agrees (vertex_attrib4_entry f a) (vertex_attrib4_bytes f) (vertex_attrib4_datacb f a)
unfolding vertex_attrib4_entry vertex_attrib4_bytes vertex_attrib4_datacb
vertex_attrib4-Agrees vertex_attrib4_nbv a = (refl, refl)
vertex_attrib4-Agrees vertex_attrib4_nbv_arb a = (refl, refl)
vertex_attrib4-Agrees vertex_attrib4_niv a = (refl, refl)
vertex_attrib4-Agrees vertex_attrib4_niv_arb a = (refl, refl)
vertex_attrib4-Agrees vertex_attrib4_nsv a = (refl, refl)
vertex_attrib4-Agrees vertex_attrib4_nsv_arb a = (refl, refl)
vertex_attrib4-Agrees vertex_attrib4_nub a = (refl, refl)
vertex_attrib4-Agrees vertex_attrib4_nub_arb a = (refl, refl)
vertex_attrib4-Agrees vertex_attrib4_nubv a = (refl, refl)
vertex_attrib4-Agrees vertex_attrib4_nubv_arb a = (refl, refl)
vertex_attrib4-Agrees vertex_attrib4_nuiv a = (refl, refl)
vertex_attrib4-Agrees vertex_attrib4_nuiv_arb a = (refl, refl)
vertex_attrib4-Agrees vertex_attrib4_nusv a = (refl, refl)
vertex_attrib4-Agrees vertex_attrib4_nusv_arb a = (refl, refl)
vertex_attrib4-Agrees vertex_attrib4bv a = (refl, refl)
vertex_attrib4-Agrees vertex_attrib4bv_arb a = (refl, refl)
vertex_attrib4-Agrees vertex_attrib4d a = (refl, refl)
vertex_attrib4-Agrees vertex_attrib4d_arb a = (refl, refl)
vertex_attrib4-Agrees vertex_attrib4d_nv a = (refl, refl)
vertex_attrib4-Agrees vertex_attrib4dv a = (refl, refl)
vertex_attrib4-Agrees vertex_attrib4dv_arb a = (refl, refl)
vertex_attrib4-Agrees vertex_attrib4dv_nv a = (refl, refl)
vertex_attrib4-Agrees vertex_attrib4f a = (refl, refl)
vertex_attrib4-Agrees vertex_attrib4f_arb a = (refl, refl)
vertex_attrib4-Agrees vertex_attrib4f_nv a = (refl, refl)
vertex_attrib4-Agrees vertex_attrib4fv a = (refl, refl)
vertex_attrib4-Agrees vertex_attrib4fv_arb a = (refl, refl)
vertex_attrib4-Agrees vertex_attrib4fv_nv a = (refl, refl)
vertex_attrib4-Agrees vertex_attrib4h_nv a = (refl, refl)
vertex_attrib4-Agrees vertex_attrib4hv_nv a = (refl, refl)
vertex_attrib4-Agrees vertex_attrib4iv a = (refl, refl)
vertex_attrib4-Agrees vertex_attrib4iv_arb a = (refl, refl)
vertex_attrib4-Agrees vertex_attrib4s a = (refl, refl)
vertex_attrib4-Agrees vertex_attrib4s_arb a = (refl, refl)
vertex_attrib4-Agrees vertex_attrib4s_nv a = (refl, refl)
vertex_attrib4-Agrees vertex_attrib4sv a = (refl, refl)
vertex_attrib4-Agrees vertex_attrib4sv_arb a = (refl, refl)
vertex_attrib4-Agrees vertex_attrib4sv_nv a = (refl, refl)
vertex_attrib4-Agrees vertex_attrib4ub_nv a = (refl, refl)
vertex_attrib4-Agrees vertex_attrib4ubv a = (refl, refl)
vertex_attrib4-Agrees vertex_attrib4ubv_arb a = (refl, refl)
vertex_attrib4-Agrees vertex_attrib4ubv_nv a = (refl, refl)
vertex_attrib4-Agrees vertex_attrib4uiv a = (refl, refl)
vertex_attrib4-Agrees vertex_attrib4uiv_arb a = (refl, refl)
vertex_attrib4-Agrees vertex_attrib4usv a = (refl, refl)
vertex_attrib4-Agrees vertex_attrib4usv_arb a = (refl, refl)
