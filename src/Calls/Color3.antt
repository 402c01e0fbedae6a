-- ===== src/Calls/Color3.antt =====
-- The functions glColor3* of wrappers/mesa/src/wrapgl32.c, their rows of qemu-1/hw/mesa/mglfptbl.h,
-- and their cases of processArgs of qemu-1/hw/mesa/mesapt_mm.c.
use qemu_3dfx.Common.{ℕ, refl, [], ◌∷◌, ◌*◌}
use qemu_3dfx.Calls.{Entry, queued, trapped, aligned, Agrees}

-- The enumerators, by the functions' names.
pub data Color3 : Type 0 where
  color3b color3bv color3d : Color3
  color3dv color3f color3f_vertex3f_sun : Color3
  color3f_vertex3fv_sun color3fv color3h_nv : Color3
  color3hv_nv color3i color3iv : Color3
  color3s color3sv color3ub : Color3
  color3ubv color3ui color3uiv : Color3
  color3us color3usv color3x_oes : Color3
  color3xv_oes : Color3

-- The bytes that the table has behind the @ of the symbol.
unfoldable pub color3_bytes : Color3 → ℕ
color3_bytes color3b = 12
color3_bytes color3bv = 4
color3_bytes color3d = 24
color3_bytes color3dv = 4
color3_bytes color3f = 12
color3_bytes color3f_vertex3f_sun = 24
color3_bytes color3f_vertex3fv_sun = 8
color3_bytes color3fv = 4
color3_bytes color3h_nv = 12
color3_bytes color3hv_nv = 4
color3_bytes color3i = 12
color3_bytes color3iv = 4
color3_bytes color3s = 12
color3_bytes color3sv = 4
color3_bytes color3ub = 12
color3_bytes color3ubv = 4
color3_bytes color3ui = 12
color3_bytes color3uiv = 4
color3_bytes color3us = 12
color3_bytes color3usv = 4
color3_bytes color3x_oes = 12
color3_bytes color3xv_oes = 4

-- The wrappers.
unfoldable pub color3_entry : Color3 → (ℕ → ℕ) → Entry
color3_entry color3b _ = queued 3 []
color3_entry color3bv _ = queued 1 ((aligned (3 * 1)) ∷ [])
color3_entry color3d _ = queued 6 []
color3_entry color3dv _ = queued 1 ((3 * 8) ∷ [])
color3_entry color3f _ = queued 3 []
color3_entry color3f_vertex3f_sun _ = trapped 6 []
color3_entry color3f_vertex3fv_sun _ = trapped 2 []
color3_entry color3fv _ = queued 1 ((aligned (3 * 4)) ∷ [])
color3_entry color3h_nv _ = trapped 3 []
color3_entry color3hv_nv _ = trapped 1 []
color3_entry color3i _ = queued 3 []
color3_entry color3iv _ = queued 1 ((aligned (3 * 4)) ∷ [])
color3_entry color3s _ = queued 3 []
color3_entry color3sv _ = queued 1 ((aligned (3 * 2)) ∷ [])
color3_entry color3ub _ = queued 3 []
color3_entry color3ubv _ = queued 1 ((aligned (3 * 1)) ∷ [])
color3_entry color3ui _ = queued 3 []
color3_entry color3uiv _ = queued 1 ((aligned (3 * 4)) ∷ [])
color3_entry color3us _ = queued 3 []
color3_entry color3usv _ = queued 1 ((aligned (3 * 2)) ∷ [])
color3_entry color3x_oes _ = trapped 3 []
color3_entry color3xv_oes _ = trapped 1 []

-- `datacb` behind processArgs.
unfoldable pub color3_datacb : Color3 → (ℕ → ℕ) → ℕ
color3_datacb color3bv _ = aligned 1
color3_datacb color3dv _ = 3 * 8
color3_datacb color3fv _ = aligned (3 * 4)
color3_datacb color3iv _ = aligned (3 * 4)
color3_datacb color3sv _ = aligned 1
color3_datacb color3ubv _ = aligned 1
color3_datacb color3uiv _ = aligned (3 * 4)
color3_datacb color3usv _ = aligned 1
color3_datacb _ _ = 0

pub color3-Agrees :
    (f : Color3) (a : ℕ → ℕ) → Agrees (color3_entry f a) (color3_bytes f) (color3_datacb f a)
unfolding color3_entry color3_bytes color3_datacb
color3-Agrees color3b a = (refl, refl)
color3-Agrees color3bv a = (refl, refl)
color3-Agrees color3d a = (refl, refl)
color3-Agrees color3dv a = (refl, refl)
color3-Agrees color3f a = (refl, refl)
color3-Agrees color3f_vertex3f_sun a = (refl, refl)
color3-Agrees color3f_vertex3fv_sun a = (refl, refl)
color3-Agrees color3fv a = (refl, refl)
color3-Agrees color3h_nv a = (refl, refl)
color3-Agrees color3hv_nv a = (refl, refl)
color3-Agrees color3i a = (refl, refl)
color3-Agrees color3iv a = (refl, refl)
color3-Agrees color3s a = (refl, refl)
color3-Agrees color3sv a = (refl, refl)
color3-Agrees color3ub a = (refl, refl)
color3-Agrees color3ubv a = (refl, refl)
color3-Agrees color3ui a = (refl, refl)
color3-Agrees color3uiv a = (refl, refl)
color3-Agrees color3us a = (refl, refl)
color3-Agrees color3usv a = (refl, refl)
color3-Agrees color3x_oes a = (refl, refl)
color3-Agrees color3xv_oes a = (refl, refl)
