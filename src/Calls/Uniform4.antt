-- ===== src/Calls/Uniform4.antt =====
-- The functions glUniform4* of wrappers/mesa/src/wrapgl32.c, their rows of qemu-1/hw/mesa/mglfptbl.h,
-- and their cases of processArgs of qemu-1/hw/mesa/mesapt_mm.c.
use qemu_3dfx.Common.{ℕ, refl, [], ◌∷◌, ◌*◌, arith}
use qemu_3dfx.Calls.{Entry, queued, trapped, Agrees}
use qemu_3dfx.Calls.Words.{sent-whole}

-- The enumerators, by the functions' names.
pub data Uniform4 : Type 0 where
  uniform4d uniform4dv uniform4f : Uniform4
  uniform4f_arb uniform4fv uniform4fv_arb : Uniform4
  uniform4i64_arb uniform4i64_nv uniform4i64v_arb : Uniform4
  uniform4i64v_nv uniform4i uniform4i_arb : Uniform4
  uniform4iv uniform4iv_arb uniform4ui64_arb : Uniform4
  uniform4ui64_nv uniform4ui64v_arb uniform4ui64v_nv : Uniform4
  uniform4ui uniform4ui_ext uniform4uiv : Uniform4
  uniform4uiv_ext : Uniform4

-- The bytes that the table has behind the @ of the symbol.
unfoldable pub uniform4_bytes : Uniform4 → ℕ
uniform4_bytes uniform4d = 36
uniform4_bytes uniform4dv = 12
uniform4_bytes uniform4f = 20
uniform4_bytes uniform4f_arb = 20
uniform4_bytes uniform4fv = 12
uniform4_bytes uniform4fv_arb = 12
uniform4_bytes uniform4i64_arb = 36
uniform4_bytes uniform4i64_nv = 36
uniform4_bytes uniform4i64v_arb = 12
uniform4_bytes uniform4i64v_nv = 12
uniform4_bytes uniform4i = 20
uniform4_bytes uniform4i_arb = 20
uniform4_bytes uniform4iv = 12
uniform4_bytes uniform4iv_arb = 12
uniform4_bytes uniform4ui64_arb = 36
uniform4_bytes uniform4ui64_nv = 36
uniform4_bytes uniform4ui64v_arb = 12
uniform4_bytes uniform4ui64v_nv = 12
uniform4_bytes uniform4ui = 20
uniform4_bytes uniform4ui_ext = 20
uniform4_bytes uniform4uiv = 12
uniform4_bytes uniform4uiv_ext = 12

-- The wrappers.
unfoldable pub uniform4_entry : Uniform4 → (ℕ → ℕ) → Entry
uniform4_entry uniform4d _ = queued 9 []
uniform4_entry uniform4dv a = queued 3 ((4 * a 1 * 8) ∷ [])
uniform4_entry uniform4f _ = queued 5 []
uniform4_entry uniform4f_arb _ = queued 5 []
uniform4_entry uniform4fv a = queued 3 ((4 * a 1 * 4) ∷ [])
uniform4_entry uniform4fv_arb a = queued 3 ((4 * a 1 * 4) ∷ [])
uniform4_entry uniform4i64_arb _ = trapped 9 []
uniform4_entry uniform4i64_nv _ = trapped 9 []
uniform4_entry uniform4i64v_arb _ = trapped 3 []
uniform4_entry uniform4i64v_nv _ = trapped 3 []
uniform4_entry uniform4i _ = queued 5 []
uniform4_entry uniform4i_arb _ = queued 5 []
uniform4_entry uniform4iv a = queued 3 ((4 * a 1 * 4) ∷ [])
uniform4_entry uniform4iv_arb a = queued 3 ((4 * a 1 * 4) ∷ [])
uniform4_entry uniform4ui64_arb _ = trapped 9 []
uniform4_entry uniform4ui64_nv _ = trapped 9 []
uniform4_entry uniform4ui64v_arb _ = trapped 3 []
uniform4_entry uniform4ui64v_nv _ = trapped 3 []
uniform4_entry uniform4ui _ = queued 5 []
uniform4_entry uniform4ui_ext _ = queued 5 []
uniform4_entry uniform4uiv a = queued 3 ((4 * a 1 * 4) ∷ [])
uniform4_entry uniform4uiv_ext a = queued 3 ((4 * a 1 * 4) ∷ [])

-- `datacb` behind processArgs.
unfoldable pub uniform4_datacb : Uniform4 → (ℕ → ℕ) → ℕ
uniform4_datacb uniform4dv a = 4 * a 1 * 8
uniform4_datacb uniform4fv a = 4 * a 1 * 4
uniform4_datacb uniform4fv_arb a = 4 * a 1 * 4
uniform4_datacb uniform4iv a = 4 * a 1 * 4
uniform4_datacb uniform4iv_arb a = 4 * a 1 * 4
uniform4_datacb uniform4uiv a = 4 * a 1 * 4
uniform4_datacb uniform4uiv_ext a = 4 * a 1 * 4
uniform4_datacb _ _ = 0

pub uniform4-Agrees :
    (f : Uniform4) (a : ℕ → ℕ)
    → Agrees (uniform4_entry f a) (uniform4_bytes f) (uniform4_datacb f a)
unfolding uniform4_entry uniform4_bytes uniform4_datacb
uniform4-Agrees uniform4d a = (refl, refl)
uniform4-Agrees uniform4dv a = (refl, sent-whole (4 * a 1 * 8) (omega arith))
uniform4-Agrees uniform4f a = (refl, refl)
uniform4-Agrees uniform4f_arb a = (refl, refl)
uniform4-Agrees uniform4fv a = (refl, sent-whole (4 * a 1 * 4) (omega arith))
uniform4-Agrees uniform4fv_arb a = (refl, sent-whole (4 * a 1 * 4) (omega arith))
uniform4-Agrees uniform4i64_arb a = (refl, refl)
uniform4-Agrees uniform4i64_nv a = (refl, refl)
uniform4-Agrees uniform4i64v_arb a = (refl, refl)
uniform4-Agrees uniform4i64v_nv a = (refl, refl)
uniform4-Agrees uniform4i a = (refl, refl)
uniform4-Agrees uniform4i_arb a = (refl, refl)
uniform4-Agrees uniform4iv a = (refl, sent-whole (4 * a 1 * 4) (omega arith))
uniform4-Agrees uniform4iv_arb a = (refl, sent-whole (4 * a 1 * 4) (omega arith))
uniform4-Agrees uniform4ui64_arb a = (refl, refl)
uniform4-Agrees uniform4ui64_nv a = (refl, refl)
uniform4-Agrees uniform4ui64v_arb a = (refl, refl)
uniform4-Agrees uniform4ui64v_nv a = (refl, refl)
uniform4-Agrees uniform4ui a = (refl, refl)
uniform4-Agrees uniform4ui_ext a = (refl, refl)
uniform4-Agrees uniform4uiv a = (refl, sent-whole (4 * a 1 * 4) (omega arith))
uniform4-Agrees uniform4uiv_ext a = (refl, sent-whole (4 * a 1 * 4) (omega arith))
