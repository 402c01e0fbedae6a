-- ===== src/Calls/Normal3.antt =====
-- The functions glNormal3* of wrappers/mesa/src/wrapgl32.c, their rows of qemu-1/hw/mesa/mglfptbl.h,
-- and their cases of processArgs of qemu-1/hw/mesa/mesapt_mm.c.
use qemu_3dfx.Common.{ℕ, refl, [], ◌∷◌, ◌*◌}
use qemu_3dfx.Calls.{Entry, queued, trapped, aligned, Agrees}

-- The enumerators, by the functions' names.
pub data Normal3 : Type 0 where
  normal3b normal3bv normal3d : Normal3
  normal3dv normal3f normal3f_vertex3f_sun : Normal3
  normal3f_vertex3fv_sun normal3fv normal3h_nv : Normal3
  normal3hv_nv normal3i normal3iv : Normal3
  normal3s normal3sv normal3x_oes : Normal3
  normal3xv_oes : Normal3

-- The bytes that the table has behind the @ of the symbol.
unfoldable pub normal3_bytes : Normal3 → ℕ
normal3_bytes normal3b = 12
normal3_bytes normal3bv = 4
normal3_bytes normal3d = 24
normal3_bytes normal3dv = 4
normal3_bytes normal3f = 12
normal3_bytes normal3f_vertex3f_sun = 24
normal3_bytes normal3f_vertex3fv_sun = 8
normal3_bytes normal3fv = 4
normal3_bytes normal3h_nv = 12
normal3_bytes normal3hv_nv = 4
normal3_bytes normal3i = 12
normal3_bytes normal3iv = 4
normal3_bytes normal3s = 12
normal3_bytes normal3sv = 4
normal3_bytes normal3x_oes = 12
normal3_bytes normal3xv_oes = 4

-- The wrappers.
unfoldable pub normal3_entry : Normal3 → (ℕ → ℕ) → Entry
normal3_entry normal3b _ = queued 3 []
normal3_entry normal3bv _ = queued 1 ((aligned (3 * 1)) ∷ [])
normal3_entry normal3d _ = queued 6 []
normal3_entry normal3dv _ = queued 1 ((3 * 8) ∷ [])
normal3_entry normal3f _ = queued 3 []
normal3_entry normal3f_vertex3f_sun _ = trapped 6 []
normal3_entry normal3f_vertex3fv_sun _ = trapped 2 []
normal3_entry normal3fv _ = queued 1 ((aligned (3 * 4)) ∷ [])
normal3_entry normal3h_nv _ = trapped 3 []
normal3_entry normal3hv_nv _ = trapped 1 []
normal3_entry normal3i _ = queued 3 []
normal3_entry normal3iv _ = queued 1 ((aligned (3 * 4)) ∷ [])
normal3_entry normal3s _ = queued 3 []
normal3_entry normal3sv _ = queued 1 ((aligned (3 * 2)) ∷ [])
normal3_entry normal3x_oes _ = trapped 3 []
normal3_entry normal3xv_oes _ = trapped 1 []

-- `datacb` behind processArgs.
unfoldable pub normal3_datacb : Normal3 → (ℕ → ℕ) → ℕ
normal3_datacb normal3bv _ = aligned 1
normal3_datacb normal3dv _ = 3 * 8
normal3_datacb normal3fv _ = aligned (3 * 4)
normal3_datacb normal3iv _ = aligned (3 * 4)
normal3_datacb normal3sv _ = aligned 1
normal3_datacb _ _ = 0

pub normal3-Agrees :
    (f : Normal3) (a : ℕ → ℕ) → Agrees (normal3_entry f a) (normal3_bytes f) (normal3_datacb f a)
unfolding normal3_entry normal3_bytes normal3_datacb
normal3-Agrees normal3b a = (refl, refl)
normal3-Agrees normal3bv a = (refl, refl)
normal3-Agrees normal3d a = (refl, refl)
normal3-Agrees normal3dv a = (refl, refl)
normal3-Agrees normal3f a = (refl, refl)
normal3-Agrees normal3f_vertex3f_sun a = (refl, refl)
normal3-Agrees normal3f_vertex3fv_sun a = (refl, refl)
normal3-Agrees normal3fv a = (refl, refl)
normal3-Agrees normal3h_nv a = (refl, refl)
normal3-Agrees normal3hv_nv a = (refl, refl)
normal3-Agrees normal3i a = (refl, refl)
normal3-Agrees normal3iv a = (refl, refl)
normal3-Agrees normal3s a = (refl, refl)
normal3-Agrees normal3sv a = (refl, refl)
normal3-Agrees normal3x_oes a = (refl, refl)
normal3-Agrees normal3xv_oes a = (refl, refl)
