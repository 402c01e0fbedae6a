-- ===== src/Calls/Scissor.antt =====
-- The functions glScissor* of wrappers/mesa/src/wrapgl32.c, their rows of qemu-1/hw/mesa/mglfptbl.h,
-- and their cases of processArgs of qemu-1/hw/mesa/mesapt_mm.c.
use qemu_3dfx.Common.{ℕ, refl, [], ◌∷◌, ◌*◌, arith}
use qemu_3dfx.Calls.{Entry, queued, trapped, Agrees}
use qemu_3dfx.Calls.Words.{sent-equal}

-- The enumerators, by the functions' names.
pub data Scissor : Type 0 where
  scissor scissor_arrayv scissor_exclusive_arrayv_nv : Scissor
  scissor_exclusive_nv scissor_indexed scissor_indexedv : Scissor

-- The bytes that the table has behind the @ of the symbol.
unfoldable pub scissor_bytes : Scissor → ℕ
scissor_bytes scissor = 16
scissor_bytes scissor_arrayv = 12
scissor_bytes scissor_exclusive_arrayv_nv = 12
scissor_bytes scissor_exclusive_nv = 16
scissor_bytes scissor_indexed = 20
scissor_bytes scissor_indexedv = 8

-- The wrappers.
unfoldable pub scissor_entry : Scissor → (ℕ → ℕ) → Entry
scissor_entry scissor _ = queued 4 []
scissor_entry scissor_arrayv a = queued 3 ((a 1 * 4 * 4) ∷ [])
scissor_entry scissor_exclusive_arrayv_nv _ = trapped 3 []
scissor_entry scissor_exclusive_nv _ = trapped 4 []
scissor_entry scissor_indexed _ = queued 5 []
scissor_entry scissor_indexedv _ = queued 2 ((4 * 4) ∷ [])

-- `datacb` behind processArgs.
unfoldable pub scissor_datacb : Scissor → (ℕ → ℕ) → ℕ
scissor_datacb scissor_arrayv a = 4 * a 1 * 4
scissor_datacb scissor_indexedv _ = 4 * 4
scissor_datacb _ _ = 0

pub scissor-Agrees :
    (f : Scissor) (a : ℕ → ℕ) → Agrees (scissor_entry f a) (scissor_bytes f) (scissor_datacb f a)
unfolding scissor_entry scissor_bytes scissor_datacb
scissor-Agrees scissor a = (refl, refl)
scissor-Agrees scissor_arrayv a =
    (refl, sent-equal (a 1 * 4 * 4) (4 * a 1 * 4) (omega arith) (omega arith))
scissor-Agrees scissor_exclusive_arrayv_nv a = (refl, refl)
scissor-Agrees scissor_exclusive_nv a = (refl, refl)
scissor-Agrees scissor_indexed a = (refl, refl)
scissor-Agrees scissor_indexedv a = (refl, refl)
