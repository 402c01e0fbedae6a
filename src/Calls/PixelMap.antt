-- ===== src/Calls/PixelMap.antt =====
-- The functions glPixelMap* of wrappers/mesa/src/wrapgl32.c, their rows of qemu-1/hw/mesa/mglfptbl.h,
-- and their cases of processArgs of qemu-1/hw/mesa/mesapt_mm.c.
use qemu_3dfx.Common.{ℕ, refl, [], ◌∷◌, ◌*◌}
use qemu_3dfx.Calls.{Entry, queued, trapped, aligned, Agrees}
use qemu_3dfx.Calls.Words.{sent-aligned}

-- The enumerators, by the functions' names.
pub data PixelMap : Type 0 where
  pixel_mapfv pixel_mapuiv pixel_mapusv : PixelMap
  pixel_mapx : PixelMap

-- The bytes that the table has behind the @ of the symbol.
unfoldable pub pixel_map_bytes : PixelMap → ℕ
pixel_map_bytes pixel_mapfv = 12
pixel_map_bytes pixel_mapuiv = 12
pixel_map_bytes pixel_mapusv = 12
pixel_map_bytes pixel_mapx = 12

-- The wrappers.
unfoldable pub pixel_map_entry : PixelMap → (ℕ → ℕ) → Entry
pixel_map_entry pixel_mapfv a = queued 3 ((aligned (a 1 * 4)) ∷ [])
pixel_map_entry pixel_mapuiv a = queued 3 ((aligned (a 1 * 4)) ∷ [])
pixel_map_entry pixel_mapusv a = queued 3 ((aligned (a 1 * 2)) ∷ [])
pixel_map_entry pixel_mapx _ = trapped 3 []

-- `datacb` behind processArgs.
unfoldable pub pixel_map_datacb : PixelMap → (ℕ → ℕ) → ℕ
pixel_map_datacb pixel_mapfv a = aligned (a 1 * 4)
pixel_map_datacb pixel_mapuiv a = aligned (a 1 * 4)
pixel_map_datacb pixel_mapusv a = aligned (a 1 * 2)
pixel_map_datacb _ _ = 0

pub pixel_map-Agrees :
    (f : PixelMap) (a : ℕ → ℕ)
    → Agrees (pixel_map_entry f a) (pixel_map_bytes f) (pixel_map_datacb f a)
unfolding pixel_map_entry pixel_map_bytes pixel_map_datacb
pixel_map-Agrees pixel_mapfv a = (refl, sent-aligned (a 1 * 4))
pixel_map-Agrees pixel_mapuiv a = (refl, sent-aligned (a 1 * 4))
pixel_map-Agrees pixel_mapusv a = (refl, sent-aligned (a 1 * 2))
pixel_map-Agrees pixel_mapx a = (refl, refl)
