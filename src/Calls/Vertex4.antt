-- ===== src/Calls/Vertex4.antt =====
-- The functions glVertex4* of wrappers/mesa/src/wrapgl32.c, their rows of qemu-1/hw/mesa/mglfptbl.h,
-- and their cases of processArgs of qemu-1/hw/mesa/mesapt_mm.c.
use qemu_3dfx.Common.{ℕ, refl, [], ◌∷◌, ◌*◌}
use qemu_3dfx.Calls.{Entry, queued, trapped, aligned, Agrees}

-- The enumerators, by the functions' names.
pub data Vertex4 : Type 0 where
  vertex4b_oes vertex4bv_oes vertex4d : Vertex4
  vertex4dv vertex4f vertex4fv : Vertex4
  vertex4h_nv vertex4hv_nv vertex4i : Vertex4
  vertex4iv vertex4s vertex4sv : Vertex4
  vertex4x_oes vertex4xv_oes : Vertex4

-- The bytes that the table has behind the @ of the symbol.
unfoldable pub vertex4_bytes : Vertex4 → ℕ
vertex4_bytes vertex4b_oes = 16
vertex4_bytes vertex4bv_oes = 4
vertex4_bytes vertex4d = 32
vertex4_bytes vertex4dv = 4
vertex4_bytes vertex4f = 16
vertex4_bytes vertex4fv = 4
vertex4_bytes vertex4h_nv = 16
vertex4_bytes vertex4hv_nv = 4
vertex4_bytes vertex4i = 16
vertex4_bytes vertex4iv = 4
vertex4_bytes vertex4s = 16
vertex4_bytes vertex4sv = 4
vertex4_bytes vertex4x_oes = 12
vertex4_bytes vertex4xv_oes = 4

-- The wrappers.
unfoldable pub vertex4_entry : Vertex4 → (ℕ → ℕ) → Entry
vertex4_entry vertex4b_oes _ = trapped 4 []
vertex4_entry vertex4bv_oes _ = trapped 1 []
vertex4_entry vertex4d _ = queued 8 []
vertex4_entry vertex4dv _ = queued 1 ((4 * 8) ∷ [])
vertex4_entry vertex4f _ = queued 4 []
vertex4_entry vertex4fv _ = queued 1 ((4 * 4) ∷ [])
vertex4_entry vertex4h_nv _ = trapped 4 []
vertex4_entry vertex4hv_nv _ = trapped 1 []
vertex4_entry vertex4i _ = queued 4 []
vertex4_entry vertex4iv _ = queued 1 ((4 * 4) ∷ [])
vertex4_entry vertex4s _ = queued 4 []
vertex4_entry vertex4sv _ = queued 1 ((4 * 2) ∷ [])
vertex4_entry vertex4x_oes _ = trapped 3 []
vertex4_entry vertex4xv_oes _ = trapped 1 []

-- `datacb` behind processArgs.
unfoldable pub vertex4_datacb : Vertex4 → (ℕ → ℕ) → ℕ
vertex4_datacb vertex4dv _ = 4 * 8
vertex4_datacb vertex4fv _ = 4 * 4
vertex4_datacb vertex4iv _ = 4 * 4
vertex4_datacb vertex4sv _ = aligned 1
vertex4_datacb _ _ = 0

pub vertex4-Agrees :
    (f : Vertex4) (a : ℕ → ℕ) → Agrees (vertex4_entry f a) (vertex4_bytes f) (vertex4_datacb f a)
unfolding vertex4_entry vertex4_bytes vertex4_datacb
vertex4-Agrees vertex4b_oes a = (refl, refl)
vertex4-Agrees vertex4bv_oes a = (refl, refl)
vertex4-Agrees vertex4d a = (refl, refl)
vertex4-Agrees vertex4dv a = (refl, refl)
vertex4-Agrees vertex4f a = (refl, refl)
vertex4-Agrees vertex4fv a = (refl, refl)
vertex4-Agrees vertex4h_nv a = (refl, refl)
vertex4-Agrees vertex4hv_nv a = (refl, refl)
vertex4-Agrees vertex4i a = (refl, refl)
vertex4-Agrees vertex4iv a = (refl, refl)
vertex4-Agrees vertex4s a = (refl, refl)
vertex4-Agrees vertex4sv a = (refl, refl)
vertex4-Agrees vertex4x_oes a = (refl, refl)
vertex4-Agrees vertex4xv_oes a = (refl, refl)
