-- ===== src/Calls/Map2.antt =====
-- The functions glMap2* of wrappers/mesa/src/wrapgl32.c, their rows of qemu-1/hw/mesa/mglfptbl.h,
-- and their cases of processArgs of qemu-1/hw/mesa/mesapt_mm.c.
use qemu_3dfx.Common.{ℕ, refl, [], ◌∷◌, ◌*◌, arith}
use qemu_3dfx.Sizes.{szglname}
use qemu_3dfx.Calls.{Entry, queued, trapped, aligned, Agrees}
use qemu_3dfx.Calls.Words.{sent-aligned, sent-whole}

-- The enumerators, by the functions' names.
pub data Map2 : Type 0 where
  map2d map2f map2x_oes : Map2

-- The bytes that the table has behind the @ of the symbol.
unfoldable pub map2_bytes : Map2 → ℕ
map2_bytes map2d = 56
map2_bytes map2f = 40
map2_bytes map2x_oes = 40

-- The wrappers.
unfoldable pub map2_entry : Map2 → (ℕ → ℕ) → Entry
map2_entry map2d a = queued 14 ((szglname (a 0) * a 5 * a 6 * a 11 * a 12 * 8) ∷ [])
map2_entry map2f a = queued 10 ((aligned (szglname (a 0) * a 3 * a 4 * a 7 * a 8 * 4)) ∷ [])
map2_entry map2x_oes _ = trapped 10 []

-- `datacb` behind processArgs.
unfoldable pub map2_datacb : Map2 → (ℕ → ℕ) → ℕ
map2_datacb map2d a = szglname (a 0) * a 5 * a 6 * a 11 * a 12 * 8
map2_datacb map2f a = aligned (szglname (a 0) * a 3 * a 4 * a 7 * a 8 * 4)
map2_datacb _ _ = 0

pub map2-Agrees : (f : Map2) (a : ℕ → ℕ) → Agrees (map2_entry f a) (map2_bytes f) (map2_datacb f a)
unfolding map2_entry map2_bytes map2_datacb
map2-Agrees map2d a =
    (refl, sent-whole (szglname (a 0) * a 5 * a 6 * a 11 * a 12 * 8) (omega arith))
map2-Agrees map2f a = (refl, sent-aligned (szglname (a 0) * a 3 * a 4 * a 7 * a 8 * 4))
map2-Agrees map2x_oes a = (refl, refl)
