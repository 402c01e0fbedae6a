-- ===== src/Calls/Material.antt =====
-- The functions glMaterial* of wrappers/mesa/src/wrapgl32.c, their rows of qemu-1/hw/mesa/mglfptbl.h,
-- and their cases of processArgs of qemu-1/hw/mesa/mesapt_mm.c.
use qemu_3dfx.Common.{ℕ, refl, [], ◌∷◌, ◌*◌}
use qemu_3dfx.Sizes.{szglname}
use qemu_3dfx.Calls.{Entry, queued, trapped, aligned, Agrees}
use qemu_3dfx.Calls.Words.{sent-aligned}

-- The enumerators, by the functions' names.
pub data Material : Type 0 where
  materialf materialfv materiali : Material
  materialiv materialx_oes materialxv_oes : Material

-- The bytes that the table has behind the @ of the symbol.
unfoldable pub material_bytes : Material → ℕ
material_bytes materialf = 12
material_bytes materialfv = 12
material_bytes materiali = 12
material_bytes materialiv = 12
material_bytes materialx_oes = 12
material_bytes materialxv_oes = 12

-- The wrappers.
unfoldable pub material_entry : Material → (ℕ → ℕ) → Entry
material_entry materialf _ = queued 3 []
material_entry materialfv a = queued 3 ((aligned (szglname (a 1) * 4)) ∷ [])
material_entry materiali _ = queued 3 []
material_entry materialiv a = queued 3 ((aligned (szglname (a 1) * 4)) ∷ [])
material_entry materialx_oes _ = trapped 3 []
material_entry materialxv_oes _ = trapped 3 []

-- `datacb` behind processArgs.
unfoldable pub material_datacb : Material → (ℕ → ℕ) → ℕ
material_datacb materialfv a = aligned (szglname (a 1) * 4)
material_datacb materialiv a = aligned (szglname (a 1) * 4)
material_datacb _ _ = 0

pub material-Agrees :
    (f : Material) (a : ℕ → ℕ)
    → Agrees (material_entry f a) (material_bytes f) (material_datacb f a)
unfolding material_entry material_bytes material_datacb
material-Agrees materialf a = (refl, refl)
material-Agrees materialfv a = (refl, sent-aligned (szglname (a 1) * 4))
material-Agrees materiali a = (refl, refl)
material-Agrees materialiv a = (refl, sent-aligned (szglname (a 1) * 4))
material-Agrees materialx_oes a = (refl, refl)
material-Agrees materialxv_oes a = (refl, refl)
