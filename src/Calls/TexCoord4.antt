-- ===== src/Calls/TexCoord4.antt =====
-- The functions glTexCoord4* of wrappers/mesa/src/wrapgl32.c, their rows of qemu-1/hw/mesa/mglfptbl.h,
-- and their cases of processArgs of qemu-1/hw/mesa/mesapt_mm.c.
use qemu_3dfx.Common.{ℕ, refl, [], ◌∷◌, ◌*◌}
use qemu_3dfx.Calls.{Entry, queued, trapped, aligned, Agrees}

-- The enumerators, by the functions' names.
pub data TexCoord4 : Type 0 where
  tex_coord4b_oes tex_coord4bv_oes tex_coord4d : TexCoord4
  tex_coord4dv tex_coord4f tex_coord4f_color4f_normal3f_vertex4f_sun : TexCoord4
  tex_coord4f_color4f_normal3f_vertex4fv_sun tex_coord4f_vertex4f_sun tex_coord4f_vertex4fv_sun :
      TexCoord4
  tex_coord4fv tex_coord4h_nv tex_coord4hv_nv : TexCoord4
  tex_coord4i tex_coord4iv tex_coord4s : TexCoord4
  tex_coord4sv tex_coord4x_oes tex_coord4xv_oes : TexCoord4

-- The bytes that the table has behind the @ of the symbol.
unfoldable pub tex_coord4_bytes : TexCoord4 → ℕ
tex_coord4_bytes tex_coord4b_oes = 16
tex_coord4_bytes tex_coord4bv_oes = 4
tex_coord4_bytes tex_coord4d = 32
tex_coord4_bytes tex_coord4dv = 4
tex_coord4_bytes tex_coord4f = 16
tex_coord4_bytes tex_coord4f_color4f_normal3f_vertex4f_sun = 60
tex_coord4_bytes tex_coord4f_color4f_normal3f_vertex4fv_sun = 16
tex_coord4_bytes tex_coord4f_vertex4f_sun = 32
tex_coord4_bytes tex_coord4f_vertex4fv_sun = 8
tex_coord4_bytes tex_coord4fv = 4
tex_coord4_bytes tex_coord4h_nv = 16
tex_coord4_bytes tex_coord4hv_nv = 4
tex_coord4_bytes tex_coord4i = 16
tex_coord4_bytes tex_coord4iv = 4
tex_coord4_bytes tex_coord4s = 16
tex_coord4_bytes tex_coord4sv = 4
tex_coord4_bytes tex_coord4x_oes = 16
tex_coord4_bytes tex_coord4xv_oes = 4

-- The wrappers.
unfoldable pub tex_coord4_entry : TexCoord4 → (ℕ → ℕ) → Entry
tex_coord4_entry tex_coord4b_oes _ = trapped 4 []
tex_coord4_entry tex_coord4bv_oes _ = trapped 1 []
tex_coord4_entry tex_coord4d _ = queued 8 []
tex_coord4_entry tex_coord4dv _ = queued 1 ((4 * 8) ∷ [])
tex_coord4_entry tex_coord4f _ = queued 4 []
tex_coord4_entry tex_coord4f_color4f_normal3f_vertex4f_sun _ = trapped 15 []
tex_coord4_entry tex_coord4f_color4f_normal3f_vertex4fv_sun _ = trapped 4 []
tex_coord4_entry tex_coord4f_vertex4f_sun _ = trapped 8 []
tex_coord4_entry tex_coord4f_vertex4fv_sun _ = trapped 2 []
tex_coord4_entry tex_coord4fv _ = queued 1 ((4 * 4) ∷ [])
tex_coord4_entry tex_coord4h_nv _ = trapped 4 []
tex_coord4_entry tex_coord4hv_nv _ = trapped 1 []
tex_coord4_entry tex_coord4i _ = queued 4 []
tex_coord4_entry tex_coord4iv _ = queued 1 ((4 * 4) ∷ [])
tex_coord4_entry tex_coord4s _ = queued 4 []
tex_coord4_entry tex_coord4sv _ = queued 1 ((4 * 2) ∷ [])
tex_coord4_entry tex_coord4x_oes _ = trapped 4 []
tex_coord4_entry tex_coord4xv_oes _ = trapped 1 []

-- `datacb` behind processArgs.
unfoldable pub tex_coord4_datacb : TexCoord4 → (ℕ → ℕ) → ℕ
tex_coord4_datacb tex_coord4dv _ = 4 * 8
tex_coord4_datacb tex_coord4fv _ = 4 * 4
tex_coord4_datacb tex_coord4iv _ = 4 * 4
tex_coord4_datacb tex_coord4sv _ = aligned 1
tex_coord4_datacb _ _ = 0

pub tex_coord4-Agrees :
    (f : TexCoord4) (a : ℕ → ℕ)
    → Agrees (tex_coord4_entry f a) (tex_coord4_bytes f) (tex_coord4_datacb f a)
unfolding tex_coord4_entry tex_coord4_bytes tex_coord4_datacb
tex_coord4-Agrees tex_coord4b_oes a = (refl, refl)
tex_coord4-Agrees tex_coord4bv_oes a = (refl, refl)
tex_coord4-Agrees tex_coord4d a = (refl, refl)
tex_coord4-Agrees tex_coord4dv a = (refl, refl)
tex_coord4-Agrees tex_coord4f a = (refl, refl)
tex_coord4-Agrees tex_coord4f_color4f_normal3f_vertex4f_sun a = (refl, refl)
tex_coord4-Agrees tex_coord4f_color4f_normal3f_vertex4fv_sun a = (refl, refl)
tex_coord4-Agrees tex_coord4f_vertex4f_sun a = (refl, refl)
tex_coord4-Agrees tex_coord4f_vertex4fv_sun a = (refl, refl)
tex_coord4-Agrees tex_coord4fv a = (refl, refl)
tex_coord4-Agrees tex_coord4h_nv a = (refl, refl)
tex_coord4-Agrees tex_coord4hv_nv a = (refl, refl)
tex_coord4-Agrees tex_coord4i a = (refl, refl)
tex_coord4-Agrees tex_coord4iv a = (refl, refl)
tex_coord4-Agrees tex_coord4s a = (refl, refl)
tex_coord4-Agrees tex_coord4sv a = (refl, refl)
tex_coord4-Agrees tex_coord4x_oes a = (refl, refl)
tex_coord4-Agrees tex_coord4xv_oes a = (refl, refl)
