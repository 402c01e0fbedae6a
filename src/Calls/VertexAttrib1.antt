-- ===== src/Calls/VertexAttrib1.antt =====
-- The functions glVertexAttrib1* of wrappers/mesa/src/wrapgl32.c, their rows of qemu-1/hw/mesa/mglfptbl.h,
-- and their cases of processArgs of qemu-1/hw/mesa/mesapt_mm.c.
use qemu_3dfx.Common.{ℕ, refl, [], ◌∷◌}
use qemu_3dfx.Calls.{Entry, queued, trapped, aligned, Agrees}

-- The enumerators, by the functions' names.
pub data VertexAttrib1 : Type 0 where
  vertex_attrib1d vertex_attrib1d_arb vertex_attrib1d_nv : VertexAttrib1
  vertex_attrib1dv vertex_attrib1dv_arb vertex_attrib1dv_nv : VertexAttrib1
  vertex_attrib1f vertex_attrib1f_arb vertex_attrib1f_nv : VertexAttrib1
  vertex_attrib1fv vertex_attrib1fv_arb vertex_attrib1fv_nv : VertexAttrib1
  vertex_attrib1h_nv vertex_attrib1hv_nv vertex_attrib1s : VertexAttrib1
  vertex_attrib1s_arb vertex_attrib1s_nv vertex_attrib1sv : VertexAttrib1
  vertex_attrib1sv_arb vertex_attrib1sv_nv : VertexAttrib1

-- The bytes that the table has behind the @ of the symbol.
unfoldable pub vertex_attrib1_bytes : VertexAttrib1 → ℕ
vertex_attrib1_bytes vertex_attrib1d = 12
vertex_attrib1_bytes vertex_attrib1d_arb = 12
vertex_attrib1_bytes vertex_attrib1d_nv = 12
vertex_attrib1_bytes vertex_attrib1dv = 8
vertex_attrib1_bytes vertex_attrib1dv_arb = 8
vertex_attrib1_bytes vertex_attrib1dv_nv = 8
vertex_attrib1_bytes vertex_attrib1f = 8
vertex_attrib1_bytes vertex_attrib1f_arb = 8
vertex_attrib1_bytes vertex_attrib1f_nv = 8
vertex_attrib1_bytes vertex_attrib1fv = 8
vertex_attrib1_bytes vertex_attrib1fv_arb = 8
vertex_attrib1_bytes vertex_attrib1fv_nv = 8
vertex_attrib1_bytes vertex_attrib1h_nv = 8
vertex_attrib1_bytes vertex_attrib1hv_nv = 8
vertex_attrib1_bytes vertex_attrib1s = 8
vertex_attrib1_bytes vertex_attrib1s_arb = 8
vertex_attrib1_bytes vertex_attrib1s_nv = 8
vertex_attrib1_bytes vertex_attrib1sv = 8
vertex_attrib1_bytes vertex_attrib1sv_arb = 8
vertex_attrib1_bytes vertex_attrib1sv_nv = 8

-- The wrappers.
unfoldable pub vertex_attrib1_entry : VertexAttrib1 → (ℕ → ℕ) → Entry
vertex_attrib1_entry vertex_attrib1d _ = queued 3 []
vertex_attrib1_entry vertex_attrib1d_arb _ = queued 3 []
vertex_attrib1_entry vertex_attrib1d_nv _ = queued 3 []
vertex_attrib1_entry vertex_attrib1dv _ = queued 2 (8 ∷ [])
vertex_attrib1_entry vertex_attrib1dv_arb _ = queued 2 (8 ∷ [])
vertex_attrib1_entry vertex_attrib1dv_nv _ = queued 2 (8 ∷ [])
vertex_attrib1_entry vertex_attrib1f _ = queued 2 []
vertex_attrib1_entry vertex_attrib1f_arb _ = queued 2 []
vertex_attrib1_entry vertex_attrib1f_nv _ = queued 2 []
vertex_attrib1_entry vertex_attrib1fv _ = queued 2 ((aligned 4) ∷ [])
vertex_attrib1_entry vertex_attrib1fv_arb _ = queued 2 ((aligned 4) ∷ [])
vertex_attrib1_entry vertex_attrib1fv_nv _ = queued 2 ((aligned 4) ∷ [])
vertex_attrib1_entry vertex_attrib1h_nv _ = trapped 2 []
vertex_attrib1_entry vertex_attrib1hv_nv _ = trapped 2 []
vertex_attrib1_entry vertex_attrib1s _ = queued 2 []
vertex_attrib1_entry vertex_attrib1s_arb _ = queued 2 []
vertex_attrib1_entry vertex_attrib1s_nv _ = queued 2 []
vertex_attrib1_entry vertex_attrib1sv _ = queued 2 ((aligned 2) ∷ [])
vertex_attrib1_entry vertex_attrib1sv_arb _ = queued 2 ((aligned 2) ∷ [])
vertex_attrib1_entry vertex_attrib1sv_nv _ = queued 2 ((aligned 2) ∷ [])

-- `datacb` behind processArgs.
unfoldable pub vertex_attrib1_datacb : VertexAttrib1 → (ℕ → ℕ) → ℕ
vertex_attrib1_datacb vertex_attrib1dv _ = aligned 1
vertex_attrib1_datacb vertex_attrib1dv_arb _ = aligned 1
vertex_attrib1_datacb vertex_attrib1dv_nv _ = aligned 1
vertex_attrib1_datacb vertex_attrib1fv _ = aligned 1
vertex_attrib1_datacb vertex_attrib1fv_arb _ = aligned 1
vertex_attrib1_datacb vertex_attrib1fv_nv _ = aligned 1
vertex_attrib1_datacb vertex_attrib1sv _ = aligned 1
vertex_attrib1_datacb vertex_attrib1sv_arb _ = aligned 1
vertex_attrib1_datacb vertex_attrib1sv_nv _ = aligned 1
vertex_attrib1_datacb _ _ = 0

pub vertex_attrib1-Agrees :
    (f : VertexAttrib1) (a : ℕ → ℕ)
    → Agrees (vertex_attrib1_entry f a) (vertex_attrib1_bytes f) (vertex_attrib1_datacb f a)
unfolding vertex_attrib1_entry vertex_attrib1_bytes vertex_attrib1_datacb
vertex_attrib1-Agrees vertex_attrib1d a = (refl, refl)
vertex_attrib1-Agrees vertex_attrib1d_arb a = (refl, refl)
vertex_attrib1-Agrees vertex_attrib1d_nv a = (refl, refl)
vertex_attrib1-Agrees vertex_attrib1dv a = (refl, refl)
vertex_attrib1-Agrees vertex_attrib1dv_arb a = (refl, refl)
vertex_attrib1-Agrees vertex_attrib1dv_nv a = (refl, refl)
vertex_attrib1-Agrees vertex_attrib1f a = (refl, refl)
vertex_attrib1-Agrees vertex_attrib1f_arb a = (refl, refl)
vertex_attrib1-Agrees vertex_attrib1f_nv a = (refl, refl)
vertex_attrib1-Agrees vertex_attrib1fv a = (refl, refl)
vertex_attrib1-Agrees vertex_attrib1fv_arb a = (refl, refl)
vertex_attrib1-Agrees vertex_attrib1fv_nv a = (refl, refl)
vertex_attrib1-Agrees vertex_attrib1h_nv a = (refl, refl)
vertex_attrib1-Agrees vertex_attrib1hv_nv a = (refl, refl)
vertex_attrib1-Agrees vertex_attrib1s a = (refl, refl)
vertex_attrib1-Agrees vertex_attrib1s_arb a = (refl, refl)
vertex_attrib1-Agrees vertex_attrib1s_nv a = (refl, refl)
vertex_attrib1-Agrees vertex_attrib1sv a = (refl, refl)
vertex_attrib1-Agrees vertex_attrib1sv_arb a = (refl, refl)
vertex_attrib1-Agrees vertex_attrib1sv_nv a = (refl, refl)
