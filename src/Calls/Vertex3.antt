-- ===== src/Calls/Vertex3.antt =====
-- The functions glVertex3* of wrappers/mesa/src/wrapgl32.c, their rows of qemu-1/hw/mesa/mglfptbl.h,
-- and their cases of processArgs of qemu-1/hw/mesa/mesapt_mm.c.
use qemu_3dfx.Common.{ℕ, refl, [], ◌∷◌, ◌*◌}
use qemu_3dfx.Calls.{Entry, queued, trapped, aligned, Agrees}

-- The enumerators, by the functions' names.
pub data Vertex3 : Type 0 where
  vertex3b_oes vertex3bv_oes vertex3d : Vertex3
  vertex3dv vertex3f vertex3fv : Vertex3
  vertex3h_nv vertex3hv_nv vertex3i : Vertex3
  vertex3iv vertex3s vertex3sv : Vertex3
  vertex3x_oes vertex3xv_oes : Vertex3

-- The bytes that the table has behind the @ of the symbol.
unfoldable pub vertex3_bytes : Vertex3 → ℕ
vertex3_bytes vertex3b_oes = 12
vertex3_bytes vertex3bv_oes = 4
vertex3_bytes vertex3d = 24
vertex3_bytes vertex3dv = 4
vertex3_bytes vertex3f = 12
vertex3_bytes vertex3fv = 4
vertex3_bytes vertex3h_nv = 12
vertex3_bytes vertex3hv_nv = 4
vertex3_bytes vertex3i = 12
vertex3_bytes vertex3iv = 4
vertex3_bytes vertex3s = 12
vertex3_bytes vertex3sv = 4
vertex3_bytes vertex3x_oes = 8
vertex3_bytes vertex3xv_oes = 4

-- The wrappers.
unfoldable pub vertex3_entry : Vertex3 → (ℕ → ℕ) → Entry
vertex3_entry vertex3b_oes _ = trapped 3 []
vertex3_entry vertex3bv_oes _ = trapped 1 []
vertex3_entry vertex3d _ = queued 6 []
vertex3_entry vertex3dv _ = queued 1 ((3 * 8) ∷ [])
vertex3_entry vertex3f _ = queued 3 []
vertex3_entry vertex3fv _ = queued 1 ((aligned (3 * 4)) ∷ [])
vertex3_entry vertex3h_nv _ = trapped 3 []
vertex3_entry vertex3hv_nv _ = trapped 1 []
vertex3_entry vertex3i _ = queued 3 []
vertex3_entry vertex3iv _ = queued 1 ((aligned (3 * 4)) ∷ [])
vertex3_entry vertex3s _ = queued 3 []
vertex3_entry vertex3sv _ = queued 1 ((aligned (3 * 2)) ∷ [])
vertex3_entry vertex3x_oes _ = trapped 2 []
vertex3_entry vertex3xv_oes _ = trapped 1 []

-- `datacb` behind processArgs.
unfoldable pub vertex3_datacb : Vertex3 → (ℕ → ℕ) → ℕ
vertex3_datacb vertex3dv _ = 3 * 8
vertex3_datacb vertex3fv _ = aligned (3 * 4)
vertex3_datacb vertex3iv _ = aligned (3 * 4)
vertex3_datacb vertex3sv _ = aligned 1
vertex3_datacb _ _ = 0

pub vertex3-Agrees :
    (f : Vertex3) (a : ℕ → ℕ) → Agrees (vertex3_entry f a) (vertex3_bytes f) (vertex3_datacb f a)
unfolding vertex3_entry vertex3_bytes vertex3_datacb
vertex3-Agrees vertex3b_oes a = (refl, refl)
vertex3-Agrees vertex3bv_oes a = (refl, refl)
vertex3-Agrees vertex3d a = (refl, refl)
vertex3-Agrees vertex3dv a = (refl, refl)
vertex3-Agrees vertex3f a = (refl, refl)
vertex3-Agrees vertex3fv a = (refl, refl)
vertex3-Agrees vertex3h_nv a = (refl, refl)
vertex3-Agrees vertex3hv_nv a = (refl, refl)
vertex3-Agrees vertex3i a = (refl, refl)
vertex3-Agrees vertex3iv a = (refl, refl)
vertex3-Agrees vertex3s a = (refl, refl)
vertex3-Agrees vertex3sv a = (refl, refl)
vertex3-Agrees vertex3x_oes a = (refl, refl)
vertex3-Agrees vertex3xv_oes a = (refl, refl)
