-- ===== src/Calls/TexEnv.antt =====
-- The functions glTexEnv* of wrappers/mesa/src/wrapgl32.c, their rows of qemu-1/hw/mesa/mglfptbl.h,
-- and their cases of processArgs of qemu-1/hw/mesa/mesapt_mm.c.
use qemu_3dfx.Common.{ℕ, refl, [], ◌∷◌, ◌*◌}
use qemu_3dfx.Sizes.{szglname}
use qemu_3dfx.Calls.{Entry, queued, trapped, aligned, Agrees}
use qemu_3dfx.Calls.Words.{sent-aligned}

-- The enumerators, by the functions' names.
pub data TexEnv : Type 0 where
  tex_envf tex_envfv tex_envi : TexEnv
  tex_enviv tex_envx_oes tex_envxv_oes : TexEnv

-- The bytes that the table has behind the @ of the symbol.
unfoldable pub tex_env_bytes : TexEnv → ℕ
tex_env_bytes tex_envf = 12
tex_env_bytes tex_envfv = 12
tex_env_bytes tex_envi = 12
tex_env_bytes tex_enviv = 12
tex_env_bytes tex_envx_oes = 12
tex_env_bytes tex_envxv_oes = 12

-- The wrappers.
unfoldable pub tex_env_entry : TexEnv → (ℕ → ℕ) → Entry
tex_env_entry tex_envf _ = queued 3 []
tex_env_entry tex_envfv a = queued 3 ((aligned (szglname (a 1) * 4)) ∷ [])
tex_env_entry tex_envi _ = queued 3 []
tex_env_entry tex_enviv a = queued 3 ((aligned (szglname (a 1) * 4)) ∷ [])
tex_env_entry tex_envx_oes _ = trapped 3 []
tex_env_entry tex_envxv_oes _ = trapped 3 []

-- `datacb` behind processArgs.
unfoldable pub tex_env_datacb : TexEnv → (ℕ → ℕ) → ℕ
tex_env_datacb tex_envfv a = aligned (szglname (a 1) * 4)
tex_env_datacb tex_enviv a = aligned (szglname (a 1) * 4)
tex_env_datacb _ _ = 0

pub tex_env-Agrees :
    (f : TexEnv) (a : ℕ → ℕ) → Agrees (tex_env_entry f a) (tex_env_bytes f) (tex_env_datacb f a)
unfolding tex_env_entry tex_env_bytes tex_env_datacb
tex_env-Agrees tex_envf a = (refl, refl)
tex_env-Agrees tex_envfv a = (refl, sent-aligned (szglname (a 1) * 4))
tex_env-Agrees tex_envi a = (refl, refl)
tex_env-Agrees tex_enviv a = (refl, sent-aligned (szglname (a 1) * 4))
tex_env-Agrees tex_envx_oes a = (refl, refl)
tex_env-Agrees tex_envxv_oes a = (refl, refl)
