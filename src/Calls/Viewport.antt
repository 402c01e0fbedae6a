-- ===== src/Calls/Viewport.antt =====
-- The functions glViewport* of wrappers/mesa/src/wrapgl32.c, their rows of qemu-1/hw/mesa/mglfptbl.h,
-- and their cases of processArgs of qemu-1/hw/mesa/mesapt_mm.c.
use qemu_3dfx.Common.{ℕ, refl, [], ◌∷◌, ◌*◌, arith}
use qemu_3dfx.Calls.{Entry, queued, trapped, Agrees}
use qemu_3dfx.Calls.Words.{sent-equal}

-- The enumerators, by the functions' names.
pub data Viewport : Type 0 where
  viewport viewport_arrayv viewport_indexedf : Viewport
  viewport_indexedfv viewport_position_w_scale_nv viewport_swizzle_nv : Viewport

-- The bytes that the table has behind the @ of the symbol.
unfoldable pub viewport_bytes : Viewport → ℕ
viewport_bytes viewport = 16
viewport_bytes viewport_arrayv = 12
viewport_bytes viewport_indexedf = 20
viewport_bytes viewport_indexedfv = 8
viewport_bytes viewport_position_w_scale_nv = 12
viewport_bytes viewport_swizzle_nv = 20

-- The wrappers.
unfoldable pub viewport_entry : Viewport → (ℕ → ℕ) → Entry
viewport_entry viewport _ = queued 4 []
viewport_entry viewport_arrayv a = queued 3 ((a 1 * 4 * 4) ∷ [])
viewport_entry viewport_indexedf _ = queued 5 []
viewport_entry viewport_indexedfv _ = queued 2 ((4 * 4) ∷ [])
viewport_entry viewport_position_w_scale_nv _ = trapped 3 []
viewport_entry viewport_swizzle_nv _ = trapped 5 []

-- `datacb` behind processArgs.
unfoldable pub viewport_datacb : Viewport → (ℕ → ℕ) → ℕ
viewport_datacb viewport_arrayv a = 4 * a 1 * 4
viewport_datacb viewport_indexedfv _ = 4 * 4
viewport_datacb _ _ = 0

pub viewport-Agrees :
    (f : Viewport) (a : ℕ → ℕ)
    → Agrees (viewport_entry f a) (viewport_bytes f) (viewport_datacb f a)
unfolding viewport_entry viewport_bytes viewport_datacb
viewport-Agrees viewport a = (refl, refl)
viewport-Agrees viewport_arrayv a =
    (refl, sent-equal (a 1 * 4 * 4) (4 * a 1 * 4) (omega arith) (omega arith))
viewport-Agrees viewport_indexedf a = (refl, refl)
viewport-Agrees viewport_indexedfv a = (refl, refl)
viewport-Agrees viewport_position_w_scale_nv a = (refl, refl)
viewport-Agrees viewport_swizzle_nv a = (refl, refl)
