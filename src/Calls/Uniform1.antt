-- ===== src/Calls/Uniform1.antt =====
-- The functions glUniform1* of wrappers/mesa/src/wrapgl32.c, their rows of qemu-1/hw/mesa/mglfptbl.h,
-- and their cases of processArgs of qemu-1/hw/mesa/mesapt_mm.c.
use qemu_3dfx.Common.{ℕ, refl, [], ◌∷◌, ◌*◌, arith}
use qemu_3dfx.Calls.{Entry, queued, trapped, aligned, Agrees}
use qemu_3dfx.Calls.Words.{sent-aligned, sent-whole}

-- The enumerators, by the functions' names.
pub data Uniform1 : Type 0 where
  uniform1d uniform1dv uniform1f : Uniform1
  uniform1f_arb uniform1fv uniform1fv_arb : Uniform1
  uniform1i64_arb uniform1i64_nv uniform1i64v_arb : Uniform1
  uniform1i64v_nv uniform1i uniform1i_arb : Uniform1
  uniform1iv uniform1iv_arb uniform1ui64_arb : Uniform1
  uniform1ui64_nv uniform1ui64v_arb uniform1ui64v_nv : Uniform1
  uniform1ui uniform1ui_ext uniform1uiv : Uniform1
  uniform1uiv_ext : Uniform1

-- The bytes that the table has behind the @ of the symbol.
unfoldable pub uniform1_bytes : Uniform1 → ℕ
uniform1_bytes uniform1d = 12
uniform1_bytes uniform1dv = 12
uniform1_bytes uniform1f = 8
uniform1_bytes uniform1f_arb = 8
uniform1_bytes uniform1fv = 12
uniform1_bytes uniform1fv_arb = 12
uniform1_bytes uniform1i64_arb = 12
uniform1_bytes uniform1i64_nv = 12
uniform1_bytes uniform1i64v_arb = 12
uniform1_bytes uniform1i64v_nv = 12
uniform1_bytes uniform1i = 8
uniform1_bytes uniform1i_arb = 8
uniform1_bytes uniform1iv = 12
uniform1_bytes uniform1iv_arb = 12
uniform1_bytes uniform1ui64_arb = 12
uniform1_bytes uniform1ui64_nv = 12
uniform1_bytes uniform1ui64v_arb = 12
uniform1_bytes uniform1ui64v_nv = 12
uniform1_bytes uniform1ui = 8
uniform1_bytes uniform1ui_ext = 8
uniform1_bytes uniform1uiv = 12
uniform1_bytes uniform1uiv_ext = 12

-- The wrappers.
unfoldable pub uniform1_entry : Uniform1 → (ℕ → ℕ) → Entry
uniform1_entry uniform1d _ = queued 3 []
uniform1_entry uniform1dv a = queued 3 ((a 1 * 8) ∷ [])
uniform1_entry uniform1f _ = queued 2 []
uniform1_entry uniform1f_arb _ = queued 2 []
uniform1_entry uniform1fv a = queued 3 ((aligned (a 1 * 4)) ∷ [])
uniform1_entry uniform1fv_arb a = queued 3 ((aligned (a 1 * 4)) ∷ [])
uniform1_entry uniform1i64_arb _ = trapped 3 []
uniform1_entry uniform1i64_nv _ = trapped 3 []
uniform1_entry uniform1i64v_arb _ = trapped 3 []
uniform1_entry uniform1i64v_nv _ = trapped 3 []
uniform1_entry uniform1i _ = queued 2 []
uniform1_entry uniform1i_arb _ = queued 2 []
uniform1_entry uniform1iv a = queued 3 ((aligned (a 1 * 4)) ∷ [])
uniform1_entry uniform1iv_arb a = queued 3 ((aligned (a 1 * 4)) ∷ [])
uniform1_entry uniform1ui64_arb _ = trapped 3 []
uniform1_entry uniform1ui64_nv _ = trapped 3 []
uniform1_entry uniform1ui64v_arb _ = trapped 3 []
uniform1_entry uniform1ui64v_nv _ = trapped 3 []
uniform1_entry uniform1ui _ = queued 2 []
uniform1_entry uniform1ui_ext _ = queued 2 []
uniform1_entry uniform1uiv a = queued 3 ((aligned (a 1 * 4)) ∷ [])
uniform1_entry uniform1uiv_ext a = queued 3 ((aligned (a 1 * 4)) ∷ [])

-- `datacb` behind processArgs.
unfoldable pub uniform1_datacb : Uniform1 → (ℕ → ℕ) → ℕ
uniform1_datacb uniform1dv a = a 1 * 8
uniform1_datacb uniform1fv a = aligned (a 1 * 4)
uniform1_datacb uniform1fv_arb a = aligned (a 1 * 4)
uniform1_datacb uniform1iv a = aligned (a 1 * 4)
uniform1_datacb uniform1iv_arb a = aligned (a 1 * 4)
uniform1_datacb uniform1uiv a = aligned (a 1 * 4)
uniform1_datacb uniform1uiv_ext a = aligned (a 1 * 4)
uniform1_datacb _ _ = 0

pub uniform1-Agrees :
    (f : Uniform1) (a : ℕ → ℕ)
    → Agrees (uniform1_entry f a) (uniform1_bytes f) (uniform1_datacb f a)
unfolding uniform1_entry uniform1_bytes uniform1_datacb
uniform1-Agrees uniform1d a = (refl, refl)
uniform1-Agrees uniform1dv a = (refl, sent-whole (a 1 * 8) (omega arith))
uniform1-Agrees uniform1f a = (refl, refl)
uniform1-Agrees uniform1f_arb a = (refl, refl)
uniform1-Agrees uniform1fv a = (refl, sent-aligned (a 1 * 4))
uniform1-Agrees uniform1fv_arb a = (refl, sent-aligned (a 1 * 4))
uniform1-Agrees uniform1i64_arb a = (refl, refl)
uniform1-Agrees uniform1i64_nv a = (refl, refl)
uniform1-Agrees uniform1i64v_arb a = (refl, refl)
uniform1-Agrees uniform1i64v_nv a = (refl, refl)
uniform1-Agrees uniform1i a = (refl, refl)
uniform1-Agrees uniform1i_arb a = (refl, refl)
uniform1-Agrees uniform1iv a = (refl, sent-aligned (a 1 * 4))
uniform1-Agrees uniform1iv_arb a = (refl, sent-aligned (a 1 * 4))
uniform1-Agrees uniform1ui64_arb a = (refl, refl)
uniform1-Agrees uniform1ui64_nv a = (refl, refl)
uniform1-Agrees uniform1ui64v_arb a = (refl, refl)
uniform1-Agrees uniform1ui64v_nv a = (refl, refl)
uniform1-Agrees uniform1ui a = (refl, refl)
uniform1-Agrees uniform1ui_ext a = (refl, refl)
uniform1-Agrees uniform1uiv a = (refl, sent-aligned (a 1 * 4))
uniform1-Agrees uniform1uiv_ext a = (refl, sent-aligned (a 1 * 4))
