-- ===== src/Calls/Color4.antt =====
-- The functions glColor4* of wrappers/mesa/src/wrapgl32.c, their rows of qemu-1/hw/mesa/mglfptbl.h,
-- and their cases of processArgs of qemu-1/hw/mesa/mesapt_mm.c.
use qemu_3dfx.Common.{ℕ, refl, [], ◌∷◌, ◌*◌}
use qemu_3dfx.Calls.{Entry, queued, trapped, aligned, Agrees}

-- The enumerators, by the functions' names.
pub data Color4 : Type 0 where
  color4b color4bv color4d : Color4
  color4dv color4f color4f_normal3f_vertex3f_sun : Color4
  color4f_normal3f_vertex3fv_sun color4fv color4h_nv : Color4
  color4hv_nv color4i color4iv : Color4
  color4s color4sv color4ub : Color4
  color4ub_vertex2f_sun color4ub_vertex2fv_sun color4ub_vertex3f_sun : Color4
  color4ub_vertex3fv_sun color4ubv color4ui : Color4
  color4uiv color4us color4usv : Color4
  color4x_oes color4xv_oes : Color4

-- The bytes that the table has behind the @ of the symbol.
unfoldable pub color4_bytes : Color4 → ℕ
color4_bytes color4b = 16
color4_bytes color4bv = 4
color4_bytes color4d = 32
color4_bytes color4dv = 4
color4_bytes color4f = 16
color4_bytes color4f_normal3f_vertex3f_sun = 40
color4_bytes color4f_normal3f_vertex3fv_sun = 12
color4_bytes color4fv = 4
color4_bytes color4h_nv = 16
color4_bytes color4hv_nv = 4
color4_bytes color4i = 16
color4_bytes color4iv = 4
color4_bytes color4s = 16
color4_bytes color4sv = 4
color4_bytes color4ub = 16
color4_bytes color4ub_vertex2f_sun = 24
color4_bytes color4ub_vertex2fv_sun = 8
color4_bytes color4ub_vertex3f_sun = 28
color4_bytes color4ub_vertex3fv_sun = 8
color4_bytes color4ubv = 4
color4_bytes color4ui = 16
color4_bytes color4uiv = 4
color4_bytes color4us = 16
color4_bytes color4usv = 4
color4_bytes color4x_oes = 16
color4_bytes color4xv_oes = 4

-- The wrappers.
unfoldable pub color4_entry : Color4 → (ℕ → ℕ) → Entry
color4_entry color4b _ = queued 4 []
color4_entry color4bv _ = queued 1 ((aligned (4 * 1)) ∷ [])
color4_entry color4d _ = queued 8 []
color4_entry color4dv _ = queued 1 ((4 * 8) ∷ [])
color4_entry color4f _ = queued 4 []
color4_entry color4f_normal3f_vertex3f_sun _ = trapped 10 []
color4_entry color4f_normal3f_vertex3fv_sun _ = trapped 3 []
color4_entry color4fv _ = queued 1 ((4 * 4) ∷ [])
color4_entry color4h_nv _ = trapped 4 []
color4_entry color4hv_nv _ = trapped 1 []
color4_entry color4i _ = queued 4 []
color4_entry color4iv _ = queued 1 ((4 * 4) ∷ [])
color4_entry color4s _ = queued 4 []
color4_entry color4sv _ = queued 1 ((4 * 2) ∷ [])
color4_entry color4ub _ = queued 4 []
color4_entry color4ub_vertex2f_sun _ = trapped 6 []
color4_entry color4ub_vertex2fv_sun _ = trapped 2 []
color4_entry color4ub_vertex3f_sun _ = trapped 7 []
color4_entry color4ub_vertex3fv_sun _ = trapped 2 []
color4_entry color4ubv _ = queued 1 ((aligned (4 * 1)) ∷ [])
color4_entry color4ui _ = queued 4 []
color4_entry color4uiv _ = queued 1 ((4 * 4) ∷ [])
color4_entry color4us _ = queued 4 []
color4_entry color4usv _ = queued 1 ((4 * 2) ∷ [])
color4_entry color4x_oes _ = trapped 4 []
color4_entry color4xv_oes _ = trapped 1 []

-- `datacb` behind processArgs.
unfoldable pub color4_datacb : Color4 → (ℕ → ℕ) → ℕ
color4_datacb color4bv _ = aligned 1
color4_datacb color4dv _ = 4 * 8
color4_datacb color4fv _ = 4 * 4
color4_datacb color4iv _ = 4 * 4
color4_datacb color4sv _ = aligned 1
color4_datacb color4ubv _ = aligned 1
color4_datacb color4uiv _ = 4 * 4
color4_datacb color4usv _ = aligned 1
color4_datacb _ _ = 0

pub color4-Agrees :
    (f : Color4) (a : ℕ → ℕ) → Agrees (color4_entry f a) (color4_bytes f) (color4_datacb f a)
unfolding color4_entry color4_bytes color4_datacb
color4-Agrees color4b a = (refl, refl)
color4-Agrees color4bv a = (refl, refl)
color4-Agrees color4d a = (refl, refl)
color4-Agrees color4dv a = (refl, refl)
color4-Agrees color4f a = (refl, refl)
color4-Agrees color4f_normal3f_vertex3f_sun a = (refl, refl)
color4-Agrees color4f_normal3f_vertex3fv_sun a = (refl, refl)
color4-Agrees color4fv a = (refl, refl)
color4-Agrees color4h_nv a = (refl, refl)
color4-Agrees color4hv_nv a = (refl, refl)
color4-Agrees color4i a = (refl, refl)
color4-Agrees color4iv a = (refl, refl)
color4-Agrees color4s a = (refl, refl)
color4-Agrees color4sv a = (refl, refl)
color4-Agrees color4ub a = (refl, refl)
color4-Agrees color4ub_vertex2f_sun a = (refl, refl)
color4-Agrees color4ub_vertex2fv_sun a = (refl, refl)
color4-Agrees color4ub_vertex3f_sun a = (refl, refl)
color4-Agrees color4ub_vertex3fv_sun a = (refl, refl)
color4-Agrees color4ubv a = (refl, refl)
color4-Agrees color4ui a = (refl, refl)
color4-Agrees color4uiv a = (refl, refl)
color4-Agrees color4us a = (refl, refl)
color4-Agrees color4usv a = (refl, refl)
color4-Agrees color4x_oes a = (refl, refl)
color4-Agrees color4xv_oes a = (refl, refl)
