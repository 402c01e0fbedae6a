-- ===== src/Calls/Map1.antt =====
-- The functions glMap1* of wrappers/mesa/src/wrapgl32.c, their rows of qemu-1/hw/mesa/mglfptbl.h,
-- and their cases of processArgs of qemu-1/hw/mesa/mesapt_mm.c.
use qemu_3dfx.Common.{ℕ, refl, [], ◌∷◌, ◌*◌, arith}
use qemu_3dfx.Sizes.{szglname}
use qemu_3dfx.Calls.{Entry, queued, trapped, aligned, Agrees}
use qemu_3dfx.Calls.Words.{sent-aligned, sent-whole}

-- The enumerators, by the functions' names.
pub data Map1 : Type 0 where
  map1d map1f map1x_oes : Map1

-- The bytes that the table has behind the @ of the symbol.
unfoldable pub map1_bytes : Map1 → ℕ
map1_bytes map1d = 32
map1_bytes map1f = 24
map1_bytes map1x_oes = 24

-- The wrappers.
unfoldable pub map1_entry : Map1 → (ℕ → ℕ) → Entry
map1_entry map1d a = queued 8 ((szglname (a 0) * a 5 * a 6 * 8) ∷ [])
map1_entry map1f a = queued 6 ((aligned (szglname (a 0) * a 3 * a 4 * 4)) ∷ [])
map1_entry map1x_oes _ = trapped 6 []

-- `datacb` behind processArgs.
unfoldable pub map1_datacb : Map1 → (ℕ → ℕ) → ℕ
map1_datacb map1d a = szglname (a 0) * a 5 * a 6 * 8
map1_datacb map1f a = aligned (szglname (a 0) * a 3 * a 4 * 4)
map1_datacb _ _ = 0

pub map1-Agrees : (f : Map1) (a : ℕ → ℕ) → Agrees (map1_entry f a) (map1_bytes f) (map1_datacb f a)
unfolding map1_entry map1_bytes map1_datacb
map1-Agrees map1d a = (refl, sent-whole (szglname (a 0) * a 5 * a 6 * 8) (omega arith))
map1-Agrees map1f a = (refl, sent-aligned (szglname (a 0) * a 3 * a 4 * 4))
map1-Agrees map1x_oes a = (refl, refl)
