-- ===== src/Calls/PointParameter.antt =====
-- The functions glPointParameter* of wrappers/mesa/src/wrapgl32.c, their rows of qemu-1/hw/mesa/mglfptbl.h,
-- and their cases of processArgs of qemu-1/hw/mesa/mesapt_mm.c.
use qemu_3dfx.Common.{ℕ, refl, [], ◌∷◌, ◌*◌}
use qemu_3dfx.Sizes.{szglname}
use qemu_3dfx.Calls.{Entry, queued, trapped, aligned, Agrees}
use qemu_3dfx.Calls.Words.{sent-aligned}

-- The enumerators, by the functions' names.
pub data PointParameter : Type 0 where
  point_parameterf point_parameterf_arb point_parameterf_ext : PointParameter
  point_parameterf_sgis point_parameterfv point_parameterfv_arb : PointParameter
  point_parameterfv_ext point_parameterfv_sgis point_parameteri : PointParameter
  point_parameteri_nv point_parameteriv point_parameteriv_nv : PointParameter
  point_parameterxv_oes : PointParameter

-- The bytes that the table has behind the @ of the symbol.
unfoldable pub point_parameter_bytes : PointParameter → ℕ
point_parameter_bytes point_parameterf = 8
point_parameter_bytes point_parameterf_arb = 8
point_parameter_bytes point_parameterf_ext = 8
point_parameter_bytes point_parameterf_sgis = 8
point_parameter_bytes point_parameterfv = 8
point_parameter_bytes point_parameterfv_arb = 8
point_parameter_bytes point_parameterfv_ext = 8
point_parameter_bytes point_parameterfv_sgis = 8
point_parameter_bytes point_parameteri = 8
point_parameter_bytes point_parameteri_nv = 8
point_parameter_bytes point_parameteriv = 8
point_parameter_bytes point_parameteriv_nv = 8
point_parameter_bytes point_parameterxv_oes = 8

-- The wrappers.
unfoldable pub point_parameter_entry : PointParameter → (ℕ → ℕ) → Entry
point_parameter_entry point_parameterf _ = queued 2 []
point_parameter_entry point_parameterf_arb _ = queued 2 []
point_parameter_entry point_parameterf_ext _ = queued 2 []
point_parameter_entry point_parameterf_sgis _ = trapped 2 []
point_parameter_entry point_parameterfv a = queued 2 ((aligned (szglname (a 0) * 4)) ∷ [])
point_parameter_entry point_parameterfv_arb a = queued 2 ((aligned (szglname (a 0) * 4)) ∷ [])
point_parameter_entry point_parameterfv_ext a = queued 2 ((aligned (szglname (a 0) * 4)) ∷ [])
point_parameter_entry point_parameterfv_sgis _ = trapped 2 []
point_parameter_entry point_parameteri _ = queued 2 []
point_parameter_entry point_parameteri_nv _ = trapped 2 []
point_parameter_entry point_parameteriv a = queued 2 ((aligned (szglname (a 0) * 4)) ∷ [])
point_parameter_entry point_parameteriv_nv _ = trapped 2 []
point_parameter_entry point_parameterxv_oes _ = trapped 2 []

-- `datacb` behind processArgs.
unfoldable pub point_parameter_datacb : PointParameter → (ℕ → ℕ) → ℕ
point_parameter_datacb point_parameterfv a = aligned (szglname (a 0) * 4)
point_parameter_datacb point_parameterfv_arb a = aligned (szglname (a 0) * 4)
point_parameter_datacb point_parameterfv_ext a = aligned (szglname (a 0) * 4)
point_parameter_datacb point_parameteriv a = aligned (szglname (a 0) * 4)
point_parameter_datacb _ _ = 0

pub point_parameter-Agrees :
    (f : PointParameter) (a : ℕ → ℕ)
    → Agrees (point_parameter_entry f a) (point_parameter_bytes f) (point_parameter_datacb f a)
unfolding point_parameter_entry point_parameter_bytes point_parameter_datacb
point_parameter-Agrees point_parameterf a = (refl, refl)
point_parameter-Agrees point_parameterf_arb a = (refl, refl)
point_parameter-Agrees point_parameterf_ext a = (refl, refl)
point_parameter-Agrees point_parameterf_sgis a = (refl, refl)
point_parameter-Agrees point_parameterfv a = (refl, sent-aligned (szglname (a 0) * 4))
point_parameter-Agrees point_parameterfv_arb a = (refl, sent-aligned (szglname (a 0) * 4))
point_parameter-Agrees point_parameterfv_ext a = (refl, sent-aligned (szglname (a 0) * 4))
point_parameter-Agrees point_parameterfv_sgis a = (refl, refl)
point_parameter-Agrees point_parameteri a = (refl, refl)
point_parameter-Agrees point_parameteri_nv a = (refl, refl)
point_parameter-Agrees point_parameteriv a = (refl, sent-aligned (szglname (a 0) * 4))
point_parameter-Agrees point_parameteriv_nv a = (refl, refl)
point_parameter-Agrees point_parameterxv_oes a = (refl, refl)
