-- ===== src/Calls/SamplerParameter.antt =====
-- The functions glSamplerParameter* of wrappers/mesa/src/wrapgl32.c, their rows of qemu-1/hw/mesa/mglfptbl.h,
-- and their cases of processArgs of qemu-1/hw/mesa/mesapt_mm.c.
use qemu_3dfx.Common.{ℕ, refl, [], ◌∷◌, ◌*◌}
use qemu_3dfx.Sizes.{szglname}
use qemu_3dfx.Calls.{Entry, queued, aligned, Agrees}
use qemu_3dfx.Calls.Words.{sent-aligned}

-- The enumerators, by the functions' names.
pub data SamplerParameter : Type 0 where
  sampler_parameter_iiv sampler_parameter_iuiv sampler_parameterf : SamplerParameter
  sampler_parameterfv sampler_parameteri sampler_parameteriv : SamplerParameter

-- The bytes that the table has behind the @ of the symbol.
unfoldable pub sampler_parameter_bytes : SamplerParameter → ℕ
sampler_parameter_bytes sampler_parameter_iiv = 12
sampler_parameter_bytes sampler_parameter_iuiv = 12
sampler_parameter_bytes sampler_parameterf = 12
sampler_parameter_bytes sampler_parameterfv = 12
sampler_parameter_bytes sampler_parameteri = 12
sampler_parameter_bytes sampler_parameteriv = 12

-- The wrappers.
unfoldable pub sampler_parameter_entry : SamplerParameter → (ℕ → ℕ) → Entry
sampler_parameter_entry sampler_parameter_iiv a = queued 3 ((aligned (szglname (a 1) * 4)) ∷ [])
sampler_parameter_entry sampler_parameter_iuiv a = queued 3 ((aligned (szglname (a 1) * 4)) ∷ [])
sampler_parameter_entry sampler_parameterf _ = queued 3 []
sampler_parameter_entry sampler_parameterfv a = queued 3 ((aligned (szglname (a 1) * 4)) ∷ [])
sampler_parameter_entry sampler_parameteri _ = queued 3 []
sampler_parameter_entry sampler_parameteriv a = queued 3 ((aligned (szglname (a 1) * 4)) ∷ [])

-- `datacb` behind processArgs.
unfoldable pub sampler_parameter_datacb : SamplerParameter → (ℕ → ℕ) → ℕ
sampler_parameter_datacb sampler_parameter_iiv a = aligned (szglname (a 1) * 4)
sampler_parameter_datacb sampler_parameter_iuiv a = aligned (szglname (a 1) * 4)
sampler_parameter_datacb sampler_parameterfv a = aligned (szglname (a 1) * 4)
sampler_parameter_datacb sampler_parameteriv a = aligned (szglname (a 1) * 4)
sampler_parameter_datacb _ _ = 0

pub sampler_parameter-Agrees :
    (f : SamplerParameter) (a : ℕ → ℕ)
    → Agrees
        (sampler_parameter_entry f a)
        (sampler_parameter_bytes f)
        (sampler_parameter_datacb f a)
unfolding sampler_parameter_entry sampler_parameter_bytes sampler_parameter_datacb
sampler_parameter-Agrees sampler_parameter_iiv a = (refl, sent-aligned (szglname (a 1) * 4))
sampler_parameter-Agrees sampler_parameter_iuiv a = (refl, sent-aligned (szglname (a 1) * 4))
sampler_parameter-Agrees sampler_parameterf a = (refl, refl)
sampler_parameter-Agrees sampler_parameterfv a = (refl, sent-aligned (szglname (a 1) * 4))
sampler_parameter-Agrees sampler_parameteri a = (refl, refl)
sampler_parameter-Agrees sampler_parameteriv a = (refl, sent-aligned (szglname (a 1) * 4))
