-- ===== src/Calls/RasterPos.antt =====
-- The functions glRasterPos* of wrappers/mesa/src/wrapgl32.c, their rows of qemu-1/hw/mesa/mglfptbl.h,
-- and their cases of processArgs of qemu-1/hw/mesa/mesapt_mm.c.
use qemu_3dfx.Common.{ℕ, refl, [], ◌∷◌, ◌*◌}
use qemu_3dfx.Calls.{Entry, queued, trapped, aligned, Agrees}

-- The enumerators, by the functions' names.
pub data RasterPos : Type 0 where
  raster_pos2d raster_pos2dv raster_pos2f : RasterPos
  raster_pos2fv raster_pos2i raster_pos2iv : RasterPos
  raster_pos2s raster_pos2sv raster_pos2x_oes : RasterPos
  raster_pos2xv_oes raster_pos3d raster_pos3dv : RasterPos
  raster_pos3f raster_pos3fv raster_pos3i : RasterPos
  raster_pos3iv raster_pos3s raster_pos3sv : RasterPos
  raster_pos3x_oes raster_pos3xv_oes raster_pos4d : RasterPos
  raster_pos4dv raster_pos4f raster_pos4fv : RasterPos
  raster_pos4i raster_pos4iv raster_pos4s : RasterPos
  raster_pos4sv raster_pos4x_oes raster_pos4xv_oes : RasterPos

-- The bytes that the table has behind the @ of the symbol.
unfoldable pub raster_pos_bytes : RasterPos → ℕ
raster_pos_bytes raster_pos2d = 16
raster_pos_bytes raster_pos2dv = 4
raster_pos_bytes raster_pos2f = 8
raster_pos_bytes raster_pos2fv = 4
raster_pos_bytes raster_pos2i = 8
raster_pos_bytes raster_pos2iv = 4
raster_pos_bytes raster_pos2s = 8
raster_pos_bytes raster_pos2sv = 4
raster_pos_bytes raster_pos2x_oes = 8
raster_pos_bytes raster_pos2xv_oes = 4
raster_pos_bytes raster_pos3d = 24
raster_pos_bytes raster_pos3dv = 4
raster_pos_bytes raster_pos3f = 12
raster_pos_bytes raster_pos3fv = 4
raster_pos_bytes raster_pos3i = 12
raster_pos_bytes raster_pos3iv = 4
raster_pos_bytes raster_pos3s = 12
raster_pos_bytes raster_pos3sv = 4
raster_pos_bytes raster_pos3x_oes = 12
raster_pos_bytes raster_pos3xv_oes = 4
raster_pos_bytes raster_pos4d = 32
raster_pos_bytes raster_pos4dv = 4
raster_pos_bytes raster_pos4f = 16
raster_pos_bytes raster_pos4fv = 4
raster_pos_bytes raster_pos4i = 16
raster_pos_bytes raster_pos4iv = 4
raster_pos_bytes raster_pos4s = 16
raster_pos_bytes raster_pos4sv = 4
raster_pos_bytes raster_pos4x_oes = 16
raster_pos_bytes raster_pos4xv_oes = 4

-- The wrappers.
unfoldable pub raster_pos_entry : RasterPos → (ℕ → ℕ) → Entry
raster_pos_entry raster_pos2d _ = queued 4 []
raster_pos_entry raster_pos2dv _ = queued 1 ((2 * 8) ∷ [])
raster_pos_entry raster_pos2f _ = queued 2 []
raster_pos_entry raster_pos2fv _ = queued 1 ((2 * 4) ∷ [])
raster_pos_entry raster_pos2i _ = queued 2 []
raster_pos_entry raster_pos2iv _ = queued 1 ((2 * 4) ∷ [])
raster_pos_entry raster_pos2s _ = queued 2 []
raster_pos_entry raster_pos2sv _ = queued 1 ((aligned (2 * 2)) ∷ [])
raster_pos_entry raster_pos2x_oes _ = trapped 2 []
raster_pos_entry raster_pos2xv_oes _ = trapped 1 []
raster_pos_entry raster_pos3d _ = queued 6 []
raster_pos_entry raster_pos3dv _ = queued 1 ((3 * 8) ∷ [])
raster_pos_entry raster_pos3f _ = queued 3 []
raster_pos_entry raster_pos3fv _ = queued 1 ((aligned (3 * 4)) ∷ [])
raster_pos_entry raster_pos3i _ = queued 3 []
raster_pos_entry raster_pos3iv _ = queued 1 ((aligned (3 * 4)) ∷ [])
raster_pos_entry raster_pos3s _ = queued 3 []
raster_pos_entry raster_pos3sv _ = queued 1 ((aligned (3 * 2)) ∷ [])
raster_pos_entry raster_pos3x_oes _ = trapped 3 []
raster_pos_entry raster_pos3xv_oes _ = trapped 1 []
raster_pos_entry raster_pos4d _ = queued 8 []
raster_pos_entry raster_pos4dv _ = queued 1 ((4 * 8) ∷ [])
raster_pos_entry raster_pos4f _ = queued 4 []
raster_pos_entry raster_pos4fv _ = queued 1 ((4 * 4) ∷ [])
raster_pos_entry raster_pos4i _ = queued 4 []
raster_pos_entry raster_pos4iv _ = queued 1 ((4 * 4) ∷ [])
raster_pos_entry raster_pos4s _ = queued 4 []
raster_pos_entry raster_pos4sv _ = queued 1 ((4 * 2) ∷ [])
raster_pos_entry raster_pos4x_oes _ = trapped 4 []
raster_pos_entry raster_pos4xv_oes _ = trapped 1 []

-- `datacb` behind processArgs.
unfoldable pub raster_pos_datacb : RasterPos → (ℕ → ℕ) → ℕ
raster_pos_datacb raster_pos2dv _ = 2 * 8
raster_pos_datacb raster_pos2fv _ = aligned 1
raster_pos_datacb raster_pos2iv _ = aligned 1
raster_pos_datacb raster_pos2sv _ = aligned 1
raster_pos_datacb raster_pos3dv _ = 3 * 8
raster_pos_datacb raster_pos3fv _ = aligned (3 * 4)
raster_pos_datacb raster_pos3iv _ = aligned (3 * 4)
raster_pos_datacb raster_pos3sv _ = aligned 1
raster_pos_datacb raster_pos4dv _ = 4 * 8
raster_pos_datacb raster_pos4fv _ = 4 * 4
raster_pos_datacb raster_pos4iv _ = 4 * 4
raster_pos_datacb raster_pos4sv _ = aligned 1
raster_pos_datacb _ _ = 0

pub raster_pos-Agrees :
    (f : RasterPos) (a : ℕ → ℕ)
    → Agrees (raster_pos_entry f a) (raster_pos_bytes f) (raster_pos_datacb f a)
unfolding raster_pos_entry raster_pos_bytes raster_pos_datacb
raster_pos-Agrees raster_pos2d a = (refl, refl)
raster_pos-Agrees raster_pos2dv a = (refl, refl)
raster_pos-Agrees raster_pos2f a = (refl, refl)
raster_pos-Agrees raster_pos2fv a = (refl, refl)
raster_pos-Agrees raster_pos2i a = (refl, refl)
raster_pos-Agrees raster_pos2iv a = (refl, refl)
raster_pos-Agrees raster_pos2s a = (refl, refl)
raster_pos-Agrees raster_pos2sv a = (refl, refl)
raster_pos-Agrees raster_pos2x_oes a = (refl, refl)
raster_pos-Agrees raster_pos2xv_oes a = (refl, refl)
raster_pos-Agrees raster_pos3d a = (refl, refl)
raster_pos-Agrees raster_pos3dv a = (refl, refl)
raster_pos-Agrees raster_pos3f a = (refl, refl)
raster_pos-Agrees raster_pos3fv a = (refl, refl)
raster_pos-Agrees raster_pos3i a = (refl, refl)
raster_pos-Agrees raster_pos3iv a = (refl, refl)
raster_pos-Agrees raster_pos3s a = (refl, refl)
raster_pos-Agrees raster_pos3sv a = (refl, refl)
raster_pos-Agrees raster_pos3x_oes a = (refl, refl)
raster_pos-Agrees raster_pos3xv_oes a = (refl, refl)
raster_pos-Agrees raster_pos4d a = (refl, refl)
raster_pos-Agrees raster_pos4dv a = (refl, refl)
raster_pos-Agrees raster_pos4f a = (refl, refl)
raster_pos-Agrees raster_pos4fv a = (refl, refl)
raster_pos-Agrees raster_pos4i a = (refl, refl)
raster_pos-Agrees raster_pos4iv a = (refl, refl)
raster_pos-Agrees raster_pos4s a = (refl, refl)
raster_pos-Agrees raster_pos4sv a = (refl, refl)
raster_pos-Agrees raster_pos4x_oes a = (refl, refl)
raster_pos-Agrees raster_pos4xv_oes a = (refl, refl)
