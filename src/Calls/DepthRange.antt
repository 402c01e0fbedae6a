-- ===== src/Calls/DepthRange.antt =====
-- The functions glDepthRange* of wrappers/mesa/src/wrapgl32.c, their rows of qemu-1/hw/mesa/mglfptbl.h,
-- and their cases of processArgs of qemu-1/hw/mesa/mesapt_mm.c.
use qemu_3dfx.Common.{ℕ, refl, [], ◌∷◌, ◌*◌, arith}
use qemu_3dfx.Calls.{Entry, queued, trapped, Agrees}
use qemu_3dfx.Calls.Words.{sent-equal}

-- The enumerators, by the functions' names.
pub data DepthRange : Type 0 where
  depth_range depth_range_arrayv depth_range_indexed : DepthRange
  depth_ranged_nv depth_rangef depth_rangef_oes : DepthRange
  depth_rangex_oes : DepthRange

-- The bytes that the table has behind the @ of the symbol.
unfoldable pub depth_range_bytes : DepthRange → ℕ
depth_range_bytes depth_range = 16
depth_range_bytes depth_range_arrayv = 12
depth_range_bytes depth_range_indexed = 20
depth_range_bytes depth_ranged_nv = 16
depth_range_bytes depth_rangef = 8
depth_range_bytes depth_rangef_oes = 8
depth_range_bytes depth_rangex_oes = 8

-- The wrappers.
unfoldable pub depth_range_entry : DepthRange → (ℕ → ℕ) → Entry
depth_range_entry depth_range _ = queued 4 []
depth_range_entry depth_range_arrayv a = queued 3 ((a 1 * 2 * 8) ∷ [])
depth_range_entry depth_range_indexed _ = trapped 5 []
depth_range_entry depth_ranged_nv _ = trapped 4 []
depth_range_entry depth_rangef _ = trapped 2 []
depth_range_entry depth_rangef_oes _ = trapped 2 []
depth_range_entry depth_rangex_oes _ = trapped 2 []

-- `datacb` behind processArgs.
unfoldable pub depth_range_datacb : DepthRange → (ℕ → ℕ) → ℕ
depth_range_datacb depth_range_arrayv a = 2 * a 1 * 8
depth_range_datacb _ _ = 0

pub depth_range-Agrees :
    (f : DepthRange) (a : ℕ → ℕ)
    → Agrees (depth_range_entry f a) (depth_range_bytes f) (depth_range_datacb f a)
unfolding depth_range_entry depth_range_bytes depth_range_datacb
depth_range-Agrees depth_range a = (refl, refl)
depth_range-Agrees depth_range_arrayv a =
    (refl, sent-equal (a 1 * 2 * 8) (2 * a 1 * 8) (omega arith) (omega arith))
depth_range-Agrees depth_range_indexed a = (refl, refl)
depth_range-Agrees depth_ranged_nv a = (refl, refl)
depth_range-Agrees depth_rangef a = (refl, refl)
depth_range-Agrees depth_rangef_oes a = (refl, refl)
depth_range-Agrees depth_rangex_oes a = (refl, refl)
