-- ===== src/Calls/TexCoord2.antt =====
-- The functions glTexCoord2* of wrappers/mesa/src/wrapgl32.c, their rows of qemu-1/hw/mesa/mglfptbl.h,
-- and their cases of processArgs of qemu-1/hw/mesa/mesapt_mm.c.
use qemu_3dfx.Common.{ℕ, refl, [], ◌∷◌, ◌*◌}
use qemu_3dfx.Calls.{Entry, queued, trapped, aligned, Agrees}

-- The enumerators, by the functions' names.
pub data TexCoord2 : Type 0 where
  tex_coord2b_oes tex_coord2bv_oes tex_coord2d : TexCoord2
  tex_coord2dv tex_coord2f tex_coord2f_color3f_vertex3f_sun : TexCoord2
  tex_coord2f_color3f_vertex3fv_sun tex_coord2f_color4f_normal3f_vertex3f_sun
        tex_coord2f_color4f_normal3f_vertex3fv_sun :
      TexCoord2
  tex_coord2f_color4ub_vertex3f_sun tex_coord2f_color4ub_vertex3fv_sun
        tex_coord2f_normal3f_vertex3f_sun :
      TexCoord2
  tex_coord2f_normal3f_vertex3fv_sun tex_coord2f_vertex3f_sun tex_coord2f_vertex3fv_sun : TexCoord2
  tex_coord2fv tex_coord2h_nv tex_coord2hv_nv : TexCoord2
  tex_coord2i tex_coord2iv tex_coord2s : TexCoord2
  tex_coord2sv tex_coord2x_oes tex_coord2xv_oes : TexCoord2

-- The bytes that the table has behind the @ of the symbol.
unfoldable pub tex_coord2_bytes : TexCoord2 → ℕ
tex_coord2_bytes tex_coord2b_oes = 8
tex_coord2_bytes tex_coord2bv_oes = 4
tex_coord2_bytes tex_coord2d = 16
tex_coord2_bytes tex_coord2dv = 4
tex_coord2_bytes tex_coord2f = 8
tex_coord2_bytes tex_coord2f_color3f_vertex3f_sun = 32
tex_coord2_bytes tex_coord2f_color3f_vertex3fv_sun = 12
tex_coord2_bytes tex_coord2f_color4f_normal3f_vertex3f_sun = 48
tex_coord2_bytes tex_coord2f_color4f_normal3f_vertex3fv_sun = 16
tex_coord2_bytes tex_coord2f_color4ub_vertex3f_sun = 36
tex_coord2_bytes tex_coord2f_color4ub_vertex3fv_sun = 12
tex_coord2_bytes tex_coord2f_normal3f_vertex3f_sun = 32
tex_coord2_bytes tex_coord2f_normal3f_vertex3fv_sun = 12
tex_coord2_bytes tex_coord2f_vertex3f_sun = 20
tex_coord2_bytes tex_coord2f_vertex3fv_sun = 8
tex_coord2_bytes tex_coord2fv = 4
tex_coord2_bytes tex_coord2h_nv = 8
tex_coord2_bytes tex_coord2hv_nv = 4
tex_coord2_bytes tex_coord2i = 8
tex_coord2_bytes tex_coord2iv = 4
tex_coord2_bytes tex_coord2s = 8
tex_coord2_bytes tex_coord2sv = 4
tex_coord2_bytes tex_coord2x_oes = 8
tex_coord2_bytes tex_coord2xv_oes = 4

-- The wrappers.
unfoldable pub tex_coord2_entry : TexCoord2 → (ℕ → ℕ) → Entry
tex_coord2_entry tex_coord2b_oes _ = trapped 2 []
tex_coord2_entry tex_coord2bv_oes _ = trapped 1 []
tex_coord2_entry tex_coord2d _ = queued 4 []
tex_coord2_entry tex_coord2dv _ = queued 1 ((2 * 8) ∷ [])
tex_coord2_entry tex_coord2f _ = queued 2 []
tex_coord2_entry tex_coord2f_color3f_vertex3f_sun _ = trapped 8 []
tex_coord2_entry tex_coord2f_color3f_vertex3fv_sun _ = trapped 3 []
tex_coord2_entry tex_coord2f_color4f_normal3f_vertex3f_sun _ = trapped 12 []
tex_coord2_entry tex_coord2f_color4f_normal3f_vertex3fv_sun _ = trapped 4 []
tex_coord2_entry tex_coord2f_color4ub_vertex3f_sun _ = trapped 9 []
tex_coord2_entry tex_coord2f_color4ub_vertex3fv_sun _ = trapped 3 []
tex_coord2_entry tex_coord2f_normal3f_vertex3f_sun _ = trapped 8 []
tex_coord2_entry tex_coord2f_normal3f_vertex3fv_sun _ = trapped 3 []
tex_coord2_entry tex_coord2f_vertex3f_sun _ = trapped 5 []
tex_coord2_entry tex_coord2f_vertex3fv_sun _ = trapped 2 []
tex_coord2_entry tex_coord2fv _ = queued 1 ((2 * 4) ∷ [])
tex_coord2_entry tex_coord2h_nv _ = trapped 2 []
tex_coord2_entry tex_coord2hv_nv _ = trapped 1 []
tex_coord2_entry tex_coord2i _ = queued 2 []
tex_coord2_entry tex_coord2iv _ = queued 1 ((2 * 4) ∷ [])
tex_coord2_entry tex_coord2s _ = queued 2 []
tex_coord2_entry tex_coord2sv _ = queued 1 ((aligned (2 * 2)) ∷ [])
tex_coord2_entry tex_coord2x_oes _ = trapped 2 []
tex_coord2_entry tex_coord2xv_oes _ = trapped 1 []

-- `datacb` behind processArgs.
unfoldable pub tex_coord2_datacb : TexCoord2 → (ℕ → ℕ) → ℕ
tex_coord2_datacb tex_coord2dv _ = 2 * 8
tex_coord2_datacb tex_coord2fv _ = aligned 1
tex_coord2_datacb tex_coord2iv _ = aligned 1
tex_coord2_datacb tex_coord2sv _ = aligned 1
tex_coord2_datacb _ _ = 0

pub tex_coord2-Agrees :
    (f : TexCoord2) (a : ℕ → ℕ)
    → Agrees (tex_coord2_entry f a) (tex_coord2_bytes f) (tex_coord2_datacb f a)
unfolding tex_coord2_entry tex_coord2_bytes tex_coord2_datacb
tex_coord2-Agrees tex_coord2b_oes a = (refl, refl)
tex_coord2-Agrees tex_coord2bv_oes a = (refl, refl)
tex_coord2-Agrees tex_coord2d a = (refl, refl)
tex_coord2-Agrees tex_coord2dv a = (refl, refl)
tex_coord2-Agrees tex_coord2f a = (refl, refl)
tex_coord2-Agrees tex_coord2f_color3f_vertex3f_sun a = (refl, refl)
tex_coord2-Agrees tex_coord2f_color3f_vertex3fv_sun a = (refl, refl)
tex_coord2-Agrees tex_coord2f_color4f_normal3f_vertex3f_sun a = (refl, refl)
tex_coord2-Agrees tex_coord2f_color4f_normal3f_vertex3fv_sun a = (refl, refl)
tex_coord2-Agrees tex_coord2f_color4ub_vertex3f_sun a = (refl, refl)
tex_coord2-Agrees tex_coord2f_color4ub_vertex3fv_sun a = (refl, refl)
tex_coord2-Agrees tex_coord2f_normal3f_vertex3f_sun a = (refl, refl)
tex_coord2-Agrees tex_coord2f_normal3f_vertex3fv_sun a = (refl, refl)
tex_coord2-Agrees tex_coord2f_vertex3f_sun a = (refl, refl)
tex_coord2-Agrees tex_coord2f_vertex3fv_sun a = (refl, refl)
tex_coord2-Agrees tex_coord2fv a = (refl, refl)
tex_coord2-Agrees tex_coord2h_nv a = (refl, refl)
tex_coord2-Agrees tex_coord2hv_nv a = (refl, refl)
tex_coord2-Agrees tex_coord2i a = (refl, refl)
tex_coord2-Agrees tex_coord2iv a = (refl, refl)
tex_coord2-Agrees tex_coord2s a = (refl, refl)
tex_coord2-Agrees tex_coord2sv a = (refl, refl)
tex_coord2-Agrees tex_coord2x_oes a = (refl, refl)
tex_coord2-Agrees tex_coord2xv_oes a = (refl, refl)
