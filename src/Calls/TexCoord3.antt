-- ===== src/Calls/TexCoord3.antt =====
-- The functions glTexCoord3* of wrappers/mesa/src/wrapgl32.c, their rows of qemu-1/hw/mesa/mglfptbl.h,
-- and their cases of processArgs of qemu-1/hw/mesa/mesapt_mm.c.
use qemu_3dfx.Common.{ℕ, refl, [], ◌∷◌, ◌*◌}
use qemu_3dfx.Calls.{Entry, queued, trapped, aligned, Agrees}

-- The enumerators, by the functions' names.
pub data TexCoord3 : Type 0 where
  tex_coord3b_oes tex_coord3bv_oes tex_coord3d : TexCoord3
  tex_coord3dv tex_coord3f tex_coord3fv : TexCoord3
  tex_coord3h_nv tex_coord3hv_nv tex_coord3i : TexCoord3
  tex_coord3iv tex_coord3s tex_coord3sv : TexCoord3
  tex_coord3x_oes tex_coord3xv_oes : TexCoord3

-- The bytes that the table has behind the @ of the symbol.
unfoldable pub tex_coord3_bytes : TexCoord3 → ℕ
tex_coord3_bytes tex_coord3b_oes = 12
tex_coord3_bytes tex_coord3bv_oes = 4
tex_coord3_bytes tex_coord3d = 24
tex_coord3_bytes tex_coord3dv = 4
tex_coord3_bytes tex_coord3f = 12
tex_coord3_bytes tex_coord3fv = 4
tex_coord3_bytes tex_coord3h_nv = 12
tex_coord3_bytes tex_coord3hv_nv = 4
tex_coord3_bytes tex_coord3i = 12
tex_coord3_bytes tex_coord3iv = 4
tex_coord3_bytes tex_coord3s = 12
tex_coord3_bytes tex_coord3sv = 4
tex_coord3_bytes tex_coord3x_oes = 12
tex_coord3_bytes tex_coord3xv_oes = 4

-- The wrappers.
unfoldable pub tex_coord3_entry : TexCoord3 → (ℕ → ℕ) → Entry
tex_coord3_entry tex_coord3b_oes _ = trapped 3 []
tex_coord3_entry tex_coord3bv_oes _ = trapped 1 []
tex_coord3_entry tex_coord3d _ = queued 6 []
tex_coord3_entry tex_coord3dv _ = queued 1 ((3 * 8) ∷ [])
tex_coord3_entry tex_coord3f _ = queued 3 []
tex_coord3_entry tex_coord3fv _ = queued 1 ((aligned (3 * 4)) ∷ [])
tex_coord3_entry tex_coord3h_nv _ = trapped 3 []
tex_coord3_entry tex_coord3hv_nv _ = trapped 1 []
tex_coord3_entry tex_coord3i _ = queued 3 []
tex_coord3_entry tex_coord3iv _ = queued 1 ((aligned (3 * 4)) ∷ [])
tex_coord3_entry tex_coord3s _ = queued 3 []
tex_coord3_entry tex_coord3sv _ = queued 1 ((aligned (3 * 2)) ∷ [])
tex_coord3_entry tex_coord3x_oes _ = trapped 3 []
tex_coord3_entry tex_coord3xv_oes _ = trapped 1 []

-- `datacb` behind processArgs.
unfoldable pub tex_coord3_datacb : TexCoord3 → (ℕ → ℕ) → ℕ
tex_coord3_datacb tex_coord3dv _ = 3 * 8
tex_coord3_datacb tex_coord3fv _ = aligned (3 * 4)
tex_coord3_datacb tex_coord3iv _ = aligned (3 * 4)
tex_coord3_datacb tex_coord3sv _ = aligned 1
tex_coord3_datacb _ _ = 0

pub tex_coord3-Agrees :
    (f : TexCoord3) (a : ℕ → ℕ)
    → Agrees (tex_coord3_entry f a) (tex_coord3_bytes f) (tex_coord3_datacb f a)
unfolding tex_coord3_entry tex_coord3_bytes tex_coord3_datacb
tex_coord3-Agrees tex_coord3b_oes a = (refl, refl)
tex_coord3-Agrees tex_coord3bv_oes a = (refl, refl)
tex_coord3-Agrees tex_coord3d a = (refl, refl)
tex_coord3-Agrees tex_coord3dv a = (refl, refl)
tex_coord3-Agrees tex_coord3f a = (refl, refl)
tex_coord3-Agrees tex_coord3fv a = (refl, refl)
tex_coord3-Agrees tex_coord3h_nv a = (refl, refl)
tex_coord3-Agrees tex_coord3hv_nv a = (refl, refl)
tex_coord3-Agrees tex_coord3i a = (refl, refl)
tex_coord3-Agrees tex_coord3iv a = (refl, refl)
tex_coord3-Agrees tex_coord3s a = (refl, refl)
tex_coord3-Agrees tex_coord3sv a = (refl, refl)
tex_coord3-Agrees tex_coord3x_oes a = (refl, refl)
tex_coord3-Agrees tex_coord3xv_oes a = (refl, refl)
