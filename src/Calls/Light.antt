-- ===== src/Calls/Light.antt =====
-- The functions glLight* of wrappers/mesa/src/wrapgl32.c, their rows of qemu-1/hw/mesa/mglfptbl.h,
-- and their cases of processArgs of qemu-1/hw/mesa/mesapt_mm.c.
use qemu_3dfx.Common.{ℕ, refl, [], ◌∷◌, ◌*◌}
use qemu_3dfx.Sizes.{szglname}
use qemu_3dfx.Calls.{Entry, queued, trapped, aligned, Agrees}
use qemu_3dfx.Calls.Words.{sent-aligned}

-- The enumerators, by the functions' names.
pub data Light : Type 0 where
  light_envi_sgix light_modelf light_modelfv : Light
  light_modeli light_modeliv light_modelx_oes : Light
  light_modelxv_oes lightf lightfv : Light
  lighti lightiv lightx_oes : Light
  lightxv_oes : Light

-- The bytes that the table has behind the @ of the symbol.
unfoldable pub light_bytes : Light → ℕ
light_bytes light_envi_sgix = 8
light_bytes light_modelf = 8
light_bytes light_modelfv = 8
light_bytes light_modeli = 8
light_bytes light_modeliv = 8
light_bytes light_modelx_oes = 8
light_bytes light_modelxv_oes = 8
light_bytes lightf = 12
light_bytes lightfv = 12
light_bytes lighti = 12
light_bytes lightiv = 12
light_bytes lightx_oes = 12
light_bytes lightxv_oes = 12

-- The wrappers.
unfoldable pub light_entry : Light → (ℕ → ℕ) → Entry
light_entry light_envi_sgix _ = trapped 2 []
light_entry light_modelf _ = queued 2 []
light_entry light_modelfv a = queued 2 ((aligned (szglname (a 0) * 4)) ∷ [])
light_entry light_modeli _ = queued 2 []
light_entry light_modeliv a = queued 2 ((aligned (szglname (a 0) * 4)) ∷ [])
light_entry light_modelx_oes _ = trapped 2 []
light_entry light_modelxv_oes _ = trapped 2 []
light_entry lightf _ = queued 3 []
light_entry lightfv a = queued 3 ((aligned (szglname (a 1) * 4)) ∷ [])
light_entry lighti _ = queued 3 []
light_entry lightiv a = queued 3 ((aligned (szglname (a 1) * 4)) ∷ [])
light_entry lightx_oes _ = trapped 3 []
light_entry lightxv_oes _ = trapped 3 []

-- `datacb` behind processArgs.
unfoldable pub light_datacb : Light → (ℕ → ℕ) → ℕ
light_datacb light_modelfv a = aligned (szglname (a 0) * 4)
light_datacb light_modeliv a = aligned (szglname (a 0) * 4)
light_datacb lightfv a = aligned (szglname (a 1) * 4)
light_datacb lightiv a = aligned (szglname (a 1) * 4)
light_datacb _ _ = 0

pub light-Agrees :
    (f : Light) (a : ℕ → ℕ) → Agrees (light_entry f a) (light_bytes f) (light_datacb f a)
unfolding light_entry light_bytes light_datacb
light-Agrees light_envi_sgix a = (refl, refl)
light-Agrees light_modelf a = (refl, refl)
light-Agrees light_modelfv a = (refl, sent-aligned (szglname (a 0) * 4))
light-Agrees light_modeli a = (refl, refl)
light-Agrees light_modeliv a = (refl, sent-aligned (szglname (a 0) * 4))
light-Agrees light_modelx_oes a = (refl, refl)
light-Agrees light_modelxv_oes a = (refl, refl)
light-Agrees lightf a = (refl, refl)
light-Agrees lightfv a = (refl, sent-aligned (szglname (a 1) * 4))
light-Agrees lighti a = (refl, refl)
light-Agrees lightiv a = (refl, sent-aligned (szglname (a 1) * 4))
light-Agrees lightx_oes a = (refl, refl)
light-Agrees lightxv_oes a = (refl, refl)
