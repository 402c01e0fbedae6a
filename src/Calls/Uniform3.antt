-- ===== src/Calls/Uniform3.antt =====
-- The functions glUniform3* of wrappers/mesa/src/wrapgl32.c, their rows of qemu-1/hw/mesa/mglfptbl.h,
-- and their cases of processArgs of qemu-1/hw/mesa/mesapt_mm.c.
use qemu_3dfx.Common.{ℕ, refl, [], ◌∷◌, ◌*◌, arith}
use qemu_3dfx.Calls.{Entry, queued, trapped, aligned, Agrees}
use qemu_3dfx.Calls.Words.{sent-aligned, sent-whole}

-- The enumerators, by the functions' names.
pub data Uniform3 : Type 0 where
  uniform3d uniform3dv uniform3f : Uniform3
  uniform3f_arb uniform3fv uniform3fv_arb : Uniform3
  uniform3i64_arb uniform3i64_nv uniform3i64v_arb : Uniform3
  uniform3i64v_nv uniform3i uniform3i_arb : Uniform3
  uniform3iv uniform3iv_arb uniform3ui64_arb : Uniform3
  uniform3ui64_nv uniform3ui64v_arb uniform3ui64v_nv : Uniform3
  uniform3ui uniform3ui_ext uniform3uiv : Uniform3
  uniform3uiv_ext : Uniform3

-- The bytes that the table has behind the @ of the symbol.
unfoldable pub uniform3_bytes : Uniform3 → ℕ
uniform3_bytes uniform3d = 28
uniform3_bytes uniform3dv = 12
uniform3_bytes uniform3f = 16
uniform3_bytes uniform3f_arb = 16
uniform3_bytes uniform3fv = 12
uniform3_bytes uniform3fv_arb = 12
uniform3_bytes uniform3i64_arb = 28
uniform3_bytes uniform3i64_nv = 28
uniform3_bytes uniform3i64v_arb = 12
uniform3_bytes uniform3i64v_nv = 12
uniform3_bytes uniform3i = 16
uniform3_bytes uniform3i_arb = 16
uniform3_bytes uniform3iv = 12
uniform3_bytes uniform3iv_arb = 12
uniform3_bytes uniform3ui64_arb = 28
uniform3_bytes uniform3ui64_nv = 28
uniform3_bytes uniform3ui64v_arb = 12
uniform3_bytes uniform3ui64v_nv = 12
uniform3_bytes uniform3ui = 16
uniform3_bytes uniform3ui_ext = 16
uniform3_bytes uniform3uiv = 12
uniform3_bytes uniform3uiv_ext = 12

-- The wrappers.
unfoldable pub uniform3_entry : Uniform3 → (ℕ → ℕ) → Entry
uniform3_entry uniform3d _ = queued 7 []
uniform3_entry uniform3dv a = queued 3 ((3 * a 1 * 8) ∷ [])
uniform3_entry uniform3f _ = queued 4 []
uniform3_entry uniform3f_arb _ = queued 4 []
uniform3_entry uniform3fv a = queued 3 ((aligned (3 * a 1 * 4)) ∷ [])
uniform3_entry uniform3fv_arb a = queued 3 ((aligned (3 * a 1 * 4)) ∷ [])
uniform3_entry uniform3i64_arb _ = trapped 7 []
uniform3_entry uniform3i64_nv _ = trapped 7 []
uniform3_entry uniform3i64v_arb _ = trapped 3 []
uniform3_entry uniform3i64v_nv _ = trapped 3 []
uniform3_entry uniform3i _ = queued 4 []
uniform3_entry uniform3i_arb _ = queued 4 []
uniform3_entry uniform3iv a = queued 3 ((aligned (3 * a 1 * 4)) ∷ [])
uniform3_entry uniform3iv_arb a = queued 3 ((aligned (3 * a 1 * 4)) ∷ [])
uniform3_entry uniform3ui64_arb _ = trapped 7 []
uniform3_entry uniform3ui64_nv _ = trapped 7 []
uniform3_entry uniform3ui64v_arb _ = trapped 3 []
uniform3_entry uniform3ui64v_nv _ = trapped 3 []
uniform3_entry uniform3ui _ = queued 4 []
uniform3_entry uniform3ui_ext _ = queued 4 []
uniform3_entry uniform3uiv a = queued 3 ((aligned (3 * a 1 * 4)) ∷ [])
uniform3_entry uniform3uiv_ext a = queued 3 ((aligned (3 * a 1 * 4)) ∷ [])

-- `datacb` behind processArgs.
unfoldable pub uniform3_datacb : Uniform3 → (ℕ → ℕ) → ℕ
uniform3_datacb uniform3dv a = 3 * a 1 * 8
uniform3_datacb uniform3fv a = aligned (3 * a 1 * 4)
uniform3_datacb uniform3fv_arb a = aligned (3 * a 1 * 4)
uniform3_datacb uniform3iv a = aligned (3 * a 1 * 4)
uniform3_datacb uniform3iv_arb a = aligned (3 * a 1 * 4)
uniform3_datacb uniform3uiv a = aligned (3 * a 1 * 4)
uniform3_datacb uniform3uiv_ext a = aligned (3 * a 1 * 4)
uniform3_datacb _ _ = 0

pub uniform3-Agrees :
    (f : Uniform3) (a : ℕ → ℕ)
    → Agrees (uniform3_entry f a) (uniform3_bytes f) (uniform3_datacb f a)
unfolding uniform3_entry uniform3_bytes uniform3_datacb
uniform3-Agrees uniform3d a = (refl, refl)
uniform3-Agrees uniform3dv a = (refl, sent-whole (3 * a 1 * 8) (omega arith))
uniform3-Agrees uniform3f a = (refl, refl)
uniform3-Agrees uniform3f_arb a = (refl, refl)
uniform3-Agrees uniform3fv a = (refl, sent-aligned (3 * a 1 * 4))
uniform3-Agrees uniform3fv_arb a = (refl, sent-aligned (3 * a 1 * 4))
uniform3-Agrees uniform3i64_arb a = (refl, refl)
uniform3-Agrees uniform3i64_nv a = (refl, refl)
uniform3-Agrees uniform3i64v_arb a = (refl, refl)
uniform3-Agrees uniform3i64v_nv a = (refl, refl)
uniform3-Agrees uniform3i a = (refl, refl)
uniform3-Agrees uniform3i_arb a = (refl, refl)
uniform3-Agrees uniform3iv a = (refl, sent-aligned (3 * a 1 * 4))
uniform3-Agrees uniform3iv_arb a = (refl, sent-aligned (3 * a 1 * 4))
uniform3-Agrees uniform3ui64_arb a = (refl, refl)
uniform3-Agrees uniform3ui64_nv a = (refl, refl)
uniform3-Agrees uniform3ui64v_arb a = (refl, refl)
uniform3-Agrees uniform3ui64v_nv a = (refl, refl)
uniform3-Agrees uniform3ui a = (refl, refl)
uniform3-Agrees uniform3ui_ext a = (refl, refl)
uniform3-Agrees uniform3uiv a = (refl, sent-aligned (3 * a 1 * 4))
uniform3-Agrees uniform3uiv_ext a = (refl, sent-aligned (3 * a 1 * 4))
