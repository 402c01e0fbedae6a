-- ===== src/Calls/Rect.antt =====
-- The functions glRect* of wrappers/mesa/src/wrapgl32.c, their rows of qemu-1/hw/mesa/mglfptbl.h,
-- and their cases of processArgs of qemu-1/hw/mesa/mesapt_mm.c.
use qemu_3dfx.Common.{ℕ, refl, [], ◌∷◌, ◌*◌}
use qemu_3dfx.Calls.{Entry, queued, trapped, aligned, Agrees}

-- The enumerators, by the functions' names.
pub data Rect : Type 0 where
  rectd rectdv rectf : Rect
  rectfv recti rectiv : Rect
  rects rectsv rectx_oes : Rect
  rectxv_oes : Rect

-- The bytes that the table has behind the @ of the symbol.
unfoldable pub rect_bytes : Rect → ℕ
rect_bytes rectd = 32
rect_bytes rectdv = 8
rect_bytes rectf = 16
rect_bytes rectfv = 8
rect_bytes recti = 16
rect_bytes rectiv = 8
rect_bytes rects = 16
rect_bytes rectsv = 8
rect_bytes rectx_oes = 16
rect_bytes rectxv_oes = 8

-- The wrappers.
unfoldable pub rect_entry : Rect → (ℕ → ℕ) → Entry
rect_entry rectd _ = queued 8 []
rect_entry rectdv _ = queued 2 (8 ∷ 8 ∷ [])
rect_entry rectf _ = queued 4 []
rect_entry rectfv _ = queued 2 ((aligned 4) ∷ (aligned 4) ∷ [])
rect_entry recti _ = queued 4 []
rect_entry rectiv _ = queued 2 ((aligned 4) ∷ (aligned 4) ∷ [])
rect_entry rects _ = queued 4 []
rect_entry rectsv _ = queued 2 ((aligned 2) ∷ (aligned 2) ∷ [])
rect_entry rectx_oes _ = trapped 4 []
rect_entry rectxv_oes _ = trapped 2 []

-- `datacb` behind processArgs.
unfoldable pub rect_datacb : Rect → (ℕ → ℕ) → ℕ
rect_datacb rectdv _ = 2 * 8
rect_datacb rectfv _ = 2 * aligned 4
rect_datacb rectiv _ = 2 * aligned 4
rect_datacb rectsv _ = 2 * aligned 2
rect_datacb _ _ = 0

pub rect-Agrees : (f : Rect) (a : ℕ → ℕ) → Agrees (rect_entry f a) (rect_bytes f) (rect_datacb f a)
unfolding rect_entry rect_bytes rect_datacb
rect-Agrees rectd a = (refl, refl)
rect-Agrees rectdv a = (refl, refl)
rect-Agrees rectf a = (refl, refl)
rect-Agrees rectfv a = (refl, refl)
rect-Agrees recti a = (refl, refl)
rect-Agrees rectiv a = (refl, refl)
rect-Agrees rects a = (refl, refl)
rect-Agrees rectsv a = (refl, refl)
rect-Agrees rectx_oes a = (refl, refl)
rect-Agrees rectxv_oes a = (refl, refl)
