-- ===== src/Calls/Vertex2.antt =====
-- The functions glVertex2* of wrappers/mesa/src/wrapgl32.c, their rows of qemu-1/hw/mesa/mglfptbl.h,
-- and their cases of processArgs of qemu-1/hw/mesa/mesapt_mm.c.
use qemu_3dfx.Common.{ℕ, refl, [], ◌∷◌, ◌*◌}
use qemu_3dfx.Calls.{Entry, queued, trapped, aligned, Agrees}

-- The enumerators, by the functions' names.
pub data Vertex2 : Type 0 where
  vertex2b_oes vertex2bv_oes vertex2d : Vertex2
  vertex2dv vertex2f vertex2fv : Vertex2
  vertex2h_nv vertex2hv_nv vertex2i : Vertex2
  vertex2iv vertex2s vertex2sv : Vertex2
  vertex2x_oes vertex2xv_oes : Vertex2

-- The bytes that the table has behind the @ of the symbol.
unfoldable pub vertex2_bytes : Vertex2 → ℕ
vertex2_bytes vertex2b_oes = 8
vertex2_bytes vertex2bv_oes = 4
vertex2_bytes vertex2d = 16
vertex2_bytes vertex2dv = 4
vertex2_bytes vertex2f = 8
vertex2_bytes vertex2fv = 4
vertex2_bytes vertex2h_nv = 8
vertex2_bytes vertex2hv_nv = 4
vertex2_bytes vertex2i = 8
vertex2_bytes vertex2iv = 4
vertex2_bytes vertex2s = 8
vertex2_bytes vertex2sv = 4
vertex2_bytes vertex2x_oes = 4
vertex2_bytes vertex2xv_oes = 4

-- The wrappers.
unfoldable pub vertex2_entry : Vertex2 → (ℕ → ℕ) → Entry
vertex2_entry vertex2b_oes _ = trapped 2 []
vertex2_entry vertex2bv_oes _ = trapped 1 []
vertex2_entry vertex2d _ = queued 4 []
vertex2_entry vertex2dv _ = queued 1 ((2 * 8) ∷ [])
vertex2_entry vertex2f _ = queued 2 []
vertex2_entry vertex2fv _ = queued 1 ((2 * 4) ∷ [])
vertex2_entry vertex2h_nv _ = trapped 2 []
vertex2_entry vertex2hv_nv _ = trapped 1 []
vertex2_entry vertex2i _ = queued 2 []
vertex2_entry vertex2iv _ = queued 1 ((2 * 4) ∷ [])
vertex2_entry vertex2s _ = queued 2 []
vertex2_entry vertex2sv _ = queued 1 ((aligned (2 * 2)) ∷ [])
vertex2_entry vertex2x_oes _ = trapped 1 []
vertex2_entry vertex2xv_oes _ = trapped 1 []

-- `datacb` behind processArgs.
unfoldable pub vertex2_datacb : Vertex2 → (ℕ → ℕ) → ℕ
vertex2_datacb vertex2dv _ = 2 * 8
vertex2_datacb vertex2fv _ = aligned 1
vertex2_datacb vertex2iv _ = aligned 1
vertex2_datacb vertex2sv _ = aligned 1
vertex2_datacb _ _ = 0

pub vertex2-Agrees :
    (f : Vertex2) (a : ℕ → ℕ) → Agrees (vertex2_entry f a) (vertex2_bytes f) (vertex2_datacb f a)
unfolding vertex2_entry vertex2_bytes vertex2_datacb
vertex2-Agrees vertex2b_oes a = (refl, refl)
vertex2-Agrees vertex2bv_oes a = (refl, refl)
vertex2-Agrees vertex2d a = (refl, refl)
vertex2-Agrees vertex2dv a = (refl, refl)
vertex2-Agrees vertex2f a = (refl, refl)
vertex2-Agrees vertex2fv a = (refl, refl)
vertex2-Agrees vertex2h_nv a = (refl, refl)
vertex2-Agrees vertex2hv_nv a = (refl, refl)
vertex2-Agrees vertex2i a = (refl, refl)
vertex2-Agrees vertex2iv a = (refl, refl)
vertex2-Agrees vertex2s a = (refl, refl)
vertex2-Agrees vertex2sv a = (refl, refl)
vertex2-Agrees vertex2x_oes a = (refl, refl)
vertex2-Agrees vertex2xv_oes a = (refl, refl)
