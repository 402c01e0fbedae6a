-- ===== src/Calls/Uniform2.antt =====
-- The functions glUniform2* of wrappers/mesa/src/wrapgl32.c, their rows of qemu-1/hw/mesa/mglfptbl.h,
-- and their cases of processArgs of qemu-1/hw/mesa/mesapt_mm.c.
use qemu_3dfx.Common.{ℕ, refl, [], ◌∷◌, ◌*◌, arith}
use qemu_3dfx.Calls.{Entry, queued, trapped, Agrees}
use qemu_3dfx.Calls.Words.{sent-whole}

-- The enumerators, by the functions' names.
pub data Uniform2 : Type 0 where
  uniform2d uniform2dv uniform2f : Uniform2
  uniform2f_arb uniform2fv uniform2fv_arb : Uniform2
  uniform2i64_arb uniform2i64_nv uniform2i64v_arb : Uniform2
  uniform2i64v_nv uniform2i uniform2i_arb : Uniform2
  uniform2iv uniform2iv_arb uniform2ui64_arb : Uniform2
  uniform2ui64_nv uniform2ui64v_arb uniform2ui64v_nv : Uniform2
  uniform2ui uniform2ui_ext uniform2uiv : Uniform2
  uniform2uiv_ext : Uniform2

-- The bytes that the table has behind the @ of the symbol.
unfoldable pub uniform2_bytes : Uniform2 → ℕ
uniform2_bytes uniform2d = 20
uniform2_bytes uniform2dv = 12
uniform2_bytes uniform2f = 12
uniform2_bytes uniform2f_arb = 12
uniform2_bytes uniform2fv = 12
uniform2_bytes uniform2fv_arb = 12
uniform2_bytes uniform2i64_arb = 20
uniform2_bytes uniform2i64_nv = 20
uniform2_bytes uniform2i64v_arb = 12
uniform2_bytes uniform2i64v_nv = 12
uniform2_bytes uniform2i = 12
uniform2_bytes uniform2i_arb = 12
uniform2_bytes uniform2iv = 12
uniform2_bytes uniform2iv_arb = 12
uniform2_bytes uniform2ui64_arb = 20
uniform2_bytes uniform2ui64_nv = 20
uniform2_bytes uniform2ui64v_arb = 12
uniform2_bytes uniform2ui64v_nv = 12
uniform2_bytes uniform2ui = 12
uniform2_bytes uniform2ui_ext = 12
uniform2_bytes uniform2uiv = 12
uniform2_bytes uniform2uiv_ext = 12

-- The wrappers.
unfoldable pub uniform2_entry : Uniform2 → (ℕ → ℕ) → Entry
uniform2_entry uniform2d _ = queued 5 []
uniform2_entry uniform2dv a = queued 3 ((2 * a 1 * 8) ∷ [])
uniform2_entry uniform2f _ = queued 3 []
uniform2_entry uniform2f_arb _ = queued 3 []
uniform2_entry uniform2fv a = queued 3 ((2 * a 1 * 4) ∷ [])
uniform2_entry uniform2fv_arb a = queued 3 ((2 * a 1 * 4) ∷ [])
uniform2_entry uniform2i64_arb _ = trapped 5 []
uniform2_entry uniform2i64_nv _ = trapped 5 []
uniform2_entry uniform2i64v_arb _ = trapped 3 []
uniform2_entry uniform2i64v_nv _ = trapped 3 []
uniform2_entry uniform2i _ = queued 3 []
uniform2_entry uniform2i_arb _ = queued 3 []
uniform2_entry uniform2iv a = queued 3 ((2 * a 1 * 4) ∷ [])
uniform2_entry uniform2iv_arb a = queued 3 ((2 * a 1 * 4) ∷ [])
uniform2_entry uniform2ui64_arb _ = trapped 5 []
uniform2_entry uniform2ui64_nv _ = trapped 5 []
uniform2_entry uniform2ui64v_arb _ = trapped 3 []
uniform2_entry uniform2ui64v_nv _ = trapped 3 []
uniform2_entry uniform2ui _ = queued 3 []
uniform2_entry uniform2ui_ext _ = queued 3 []
uniform2_entry uniform2uiv a = queued 3 ((2 * a 1 * 4) ∷ [])
uniform2_entry uniform2uiv_ext a = queued 3 ((2 * a 1 * 4) ∷ [])

-- `datacb` behind processArgs.
unfoldable pub uniform2_datacb : Uniform2 → (ℕ → ℕ) → ℕ
uniform2_datacb uniform2dv a = 2 * a 1 * 8
uniform2_datacb uniform2fv a = 2 * a 1 * 4
uniform2_datacb uniform2fv_arb a = 2 * a 1 * 4
uniform2_datacb uniform2iv a = 2 * a 1 * 4
uniform2_datacb uniform2iv_arb a = 2 * a 1 * 4
uniform2_datacb uniform2uiv a = 2 * a 1 * 4
uniform2_datacb uniform2uiv_ext a = 2 * a 1 * 4
uniform2_datacb _ _ = 0

pub uniform2-Agrees :
    (f : Uniform2) (a : ℕ → ℕ)
    → Agrees (uniform2_entry f a) (uniform2_bytes f) (uniform2_datacb f a)
unfolding uniform2_entry uniform2_bytes uniform2_datacb
uniform2-Agrees uniform2d a = (refl, refl)
uniform2-Agrees uniform2dv a = (refl, sent-whole (2 * a 1 * 8) (omega arith))
uniform2-Agrees uniform2f a = (refl, refl)
uniform2-Agrees uniform2f_arb a = (refl, refl)
uniform2-Agrees uniform2fv a = (refl, sent-whole (2 * a 1 * 4) (omega arith))
uniform2-Agrees uniform2fv_arb a = (refl, sent-whole (2 * a 1 * 4) (omega arith))
uniform2-Agrees uniform2i64_arb a = (refl, refl)
uniform2-Agrees uniform2i64_nv a = (refl, refl)
uniform2-Agrees uniform2i64v_arb a = (refl, refl)
uniform2-Agrees uniform2i64v_nv a = (refl, refl)
uniform2-Agrees uniform2i a = (refl, refl)
uniform2-Agrees uniform2i_arb a = (refl, refl)
uniform2-Agrees uniform2iv a = (refl, sent-whole (2 * a 1 * 4) (omega arith))
uniform2-Agrees uniform2iv_arb a = (refl, sent-whole (2 * a 1 * 4) (omega arith))
uniform2-Agrees uniform2ui64_arb a = (refl, refl)
uniform2-Agrees uniform2ui64_nv a = (refl, refl)
uniform2-Agrees uniform2ui64v_arb a = (refl, refl)
uniform2-Agrees uniform2ui64v_nv a = (refl, refl)
uniform2-Agrees uniform2ui a = (refl, refl)
uniform2-Agrees uniform2ui_ext a = (refl, refl)
uniform2-Agrees uniform2uiv a = (refl, sent-whole (2 * a 1 * 4) (omega arith))
uniform2-Agrees uniform2uiv_ext a = (refl, sent-whole (2 * a 1 * 4) (omega arith))
