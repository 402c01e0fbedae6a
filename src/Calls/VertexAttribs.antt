-- ===== src/Calls/VertexAttribs.antt =====
-- The functions glVertexAttribs* of wrappers/mesa/src/wrapgl32.c, their rows of qemu-1/hw/mesa/mglfptbl.h,
-- and their cases of processArgs of qemu-1/hw/mesa/mesapt_mm.c.
use qemu_3dfx.Common.{ℕ, ◌≡◌, refl, [], ◌∷◌, ◌*◌, Bool, true, false}
use qemu_3dfx.Calls.{Entry, queued, trapped, Agrees}

-- The enumerators, by the functions' names.
pub data VertexAttribs : Type 0 where
  vertex_attribs1dv_nv vertex_attribs1fv_nv vertex_attribs1hv_nv : VertexAttribs
  vertex_attribs1sv_nv vertex_attribs2dv_nv vertex_attribs2fv_nv : VertexAttribs
  vertex_attribs2hv_nv vertex_attribs2sv_nv vertex_attribs3dv_nv : VertexAttribs
  vertex_attribs3fv_nv vertex_attribs3hv_nv vertex_attribs3sv_nv : VertexAttribs
  vertex_attribs4dv_nv vertex_attribs4fv_nv vertex_attribs4hv_nv : VertexAttribs
  vertex_attribs4sv_nv vertex_attribs4ubv_nv : VertexAttribs

-- The bytes that the table has behind the @ of the symbol.
unfoldable pub vertex_attribs_bytes : VertexAttribs → ℕ
vertex_attribs_bytes vertex_attribs1dv_nv = 12
vertex_attribs_bytes vertex_attribs1fv_nv = 12
vertex_attribs_bytes vertex_attribs1hv_nv = 12
vertex_attribs_bytes vertex_attribs1sv_nv = 12
vertex_attribs_bytes vertex_attribs2dv_nv = 12
vertex_attribs_bytes vertex_attribs2fv_nv = 12
vertex_attribs_bytes vertex_attribs2hv_nv = 12
vertex_attribs_bytes vertex_attribs2sv_nv = 12
vertex_attribs_bytes vertex_attribs3dv_nv = 12
vertex_attribs_bytes vertex_attribs3fv_nv = 12
vertex_attribs_bytes vertex_attribs3hv_nv = 12
vertex_attribs_bytes vertex_attribs3sv_nv = 12
vertex_attribs_bytes vertex_attribs4dv_nv = 12
vertex_attribs_bytes vertex_attribs4fv_nv = 12
vertex_attribs_bytes vertex_attribs4hv_nv = 12
vertex_attribs_bytes vertex_attribs4sv_nv = 12
vertex_attribs_bytes vertex_attribs4ubv_nv = 12

-- The wrappers.
unfoldable pub vertex_attribs_entry : VertexAttribs → (ℕ → ℕ) → Entry
vertex_attribs_entry vertex_attribs1dv_nv a = queued 3 ((a 1 * 8) ∷ [])
vertex_attribs_entry vertex_attribs1fv_nv a = queued 3 ((a 1 * 4) ∷ [])
vertex_attribs_entry vertex_attribs1hv_nv _ = trapped 3 []
vertex_attribs_entry vertex_attribs1sv_nv a = queued 3 ((a 1 * 2) ∷ [])
vertex_attribs_entry vertex_attribs2dv_nv a = queued 3 ((2 * a 1 * 8) ∷ [])
vertex_attribs_entry vertex_attribs2fv_nv a = queued 3 ((2 * a 1 * 4) ∷ [])
vertex_attribs_entry vertex_attribs2hv_nv _ = trapped 3 []
vertex_attribs_entry vertex_attribs2sv_nv a = queued 3 ((2 * a 1 * 2) ∷ [])
vertex_attribs_entry vertex_attribs3dv_nv a = queued 3 ((3 * a 1 * 8) ∷ [])
vertex_attribs_entry vertex_attribs3fv_nv a = queued 3 ((3 * a 1 * 4) ∷ [])
vertex_attribs_entry vertex_attribs3hv_nv _ = trapped 3 []
vertex_attribs_entry vertex_attribs3sv_nv a = queued 3 ((3 * a 1 * 2) ∷ [])
vertex_attribs_entry vertex_attribs4dv_nv a = queued 3 ((4 * a 1 * 8) ∷ [])
vertex_attribs_entry vertex_attribs4fv_nv a = queued 3 ((4 * a 1 * 4) ∷ [])
vertex_attribs_entry vertex_attribs4hv_nv _ = trapped 3 []
vertex_attribs_entry vertex_attribs4sv_nv a = queued 3 ((4 * a 1 * 2) ∷ [])
vertex_attribs_entry vertex_attribs4ubv_nv a = queued 3 ((4 * a 1 * 1) ∷ [])

-- `datacb` behind processArgs.
unfoldable pub vertex_attribs_datacb : VertexAttribs → (ℕ → ℕ) → ℕ
vertex_attribs_datacb _ _ = 0

-- The calls for which both sides agree.
abbrev pub vertex_attribs_handled : VertexAttribs → (ℕ → ℕ) → Bool
vertex_attribs_handled vertex_attribs1dv_nv _ = false
vertex_attribs_handled vertex_attribs1fv_nv _ = false
vertex_attribs_handled vertex_attribs1sv_nv _ = false
vertex_attribs_handled vertex_attribs2dv_nv _ = false
vertex_attribs_handled vertex_attribs2fv_nv _ = false
vertex_attribs_handled vertex_attribs2sv_nv _ = false
vertex_attribs_handled vertex_attribs3dv_nv _ = false
vertex_attribs_handled vertex_attribs3fv_nv _ = false
vertex_attribs_handled vertex_attribs3sv_nv _ = false
vertex_attribs_handled vertex_attribs4dv_nv _ = false
vertex_attribs_handled vertex_attribs4fv_nv _ = false
vertex_attribs_handled vertex_attribs4sv_nv _ = false
vertex_attribs_handled vertex_attribs4ubv_nv _ = false
vertex_attribs_handled _ _ = true

pub vertex_attribs-Agrees :
    (f : VertexAttribs) (a : ℕ → ℕ)
    → vertex_attribs_handled f a ≡ true
    → Agrees (vertex_attribs_entry f a) (vertex_attribs_bytes f) (vertex_attribs_datacb f a)
unfolding vertex_attribs_entry vertex_attribs_bytes vertex_attribs_datacb
vertex_attribs-Agrees vertex_attribs1dv_nv a h = cc
vertex_attribs-Agrees vertex_attribs1fv_nv a h = cc
vertex_attribs-Agrees vertex_attribs1hv_nv a h = (refl, refl)
vertex_attribs-Agrees vertex_attribs1sv_nv a h = cc
vertex_attribs-Agrees vertex_attribs2dv_nv a h = cc
vertex_attribs-Agrees vertex_attribs2fv_nv a h = cc
vertex_attribs-Agrees vertex_attribs2hv_nv a h = (refl, refl)
vertex_attribs-Agrees vertex_attribs2sv_nv a h = cc
vertex_attribs-Agrees vertex_attribs3dv_nv a h = cc
vertex_attribs-Agrees vertex_attribs3fv_nv a h = cc
vertex_attribs-Agrees vertex_attribs3hv_nv a h = (refl, refl)
vertex_attribs-Agrees vertex_attribs3sv_nv a h = cc
vertex_attribs-Agrees vertex_attribs4dv_nv a h = cc
vertex_attribs-Agrees vertex_attribs4fv_nv a h = cc
vertex_attribs-Agrees vertex_attribs4hv_nv a h = (refl, refl)
vertex_attribs-Agrees vertex_attribs4sv_nv a h = cc
vertex_attribs-Agrees vertex_attribs4ubv_nv a h = cc
