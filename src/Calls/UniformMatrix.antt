-- ===== src/Calls/UniformMatrix.antt =====
-- The functions glUniformMatrix* of wrappers/mesa/src/wrapgl32.c, their rows of qemu-1/hw/mesa/mglfptbl.h,
-- and their cases of processArgs of qemu-1/hw/mesa/mesapt_mm.c.
use qemu_3dfx.Common.{ℕ, refl, [], ◌∷◌, ◌*◌, arith}
use qemu_3dfx.Calls.{Entry, queued, aligned, Agrees}
use qemu_3dfx.Calls.Words.{sent-aligned, sent-whole}

-- The enumerators, by the functions' names.
pub data UniformMatrix : Type 0 where
  uniform_matrix2dv uniform_matrix2fv uniform_matrix2fv_arb : UniformMatrix
  uniform_matrix2x3dv uniform_matrix2x3fv uniform_matrix2x4dv : UniformMatrix
  uniform_matrix2x4fv uniform_matrix3dv uniform_matrix3fv : UniformMatrix
  uniform_matrix3fv_arb uniform_matrix3x2dv uniform_matrix3x2fv : UniformMatrix
  uniform_matrix3x4dv uniform_matrix3x4fv uniform_matrix4dv : UniformMatrix
  uniform_matrix4fv uniform_matrix4fv_arb uniform_matrix4x2dv : UniformMatrix
  uniform_matrix4x2fv uniform_matrix4x3dv uniform_matrix4x3fv : UniformMatrix

-- The bytes that the table has behind the @ of the symbol.
unfoldable pub uniform_matrix_bytes : UniformMatrix → ℕ
uniform_matrix_bytes uniform_matrix2dv = 16
uniform_matrix_bytes uniform_matrix2fv = 16
uniform_matrix_bytes uniform_matrix2fv_arb = 16
uniform_matrix_bytes uniform_matrix2x3dv = 16
uniform_matrix_bytes uniform_matrix2x3fv = 16
uniform_matrix_bytes uniform_matrix2x4dv = 16
uniform_matrix_bytes uniform_matrix2x4fv = 16
uniform_matrix_bytes uniform_matrix3dv = 16
uniform_matrix_bytes uniform_matrix3fv = 16
uniform_matrix_bytes uniform_matrix3fv_arb = 16
uniform_matrix_bytes uniform_matrix3x2dv = 16
uniform_matrix_bytes uniform_matrix3x2fv = 16
uniform_matrix_bytes uniform_matrix3x4dv = 16
uniform_matrix_bytes uniform_matrix3x4fv = 16
uniform_matrix_bytes uniform_matrix4dv = 16
uniform_matrix_bytes uniform_matrix4fv = 16
uniform_matrix_bytes uniform_matrix4fv_arb = 16
uniform_matrix_bytes uniform_matrix4x2dv = 16
uniform_matrix_bytes uniform_matrix4x2fv = 16
uniform_matrix_bytes uniform_matrix4x3dv = 16
uniform_matrix_bytes uniform_matrix4x3fv = 16

-- The wrappers.
unfoldable pub uniform_matrix_entry : UniformMatrix → (ℕ → ℕ) → Entry
uniform_matrix_entry uniform_matrix2dv a = queued 4 ((4 * a 1 * 8) ∷ [])
uniform_matrix_entry uniform_matrix2fv a = queued 4 ((4 * a 1 * 4) ∷ [])
uniform_matrix_entry uniform_matrix2fv_arb a = queued 4 ((4 * a 1 * 4) ∷ [])
uniform_matrix_entry uniform_matrix2x3dv a = queued 4 ((6 * a 1 * 8) ∷ [])
uniform_matrix_entry uniform_matrix2x3fv a = queued 4 ((6 * a 1 * 4) ∷ [])
uniform_matrix_entry uniform_matrix2x4dv a = queued 4 ((8 * a 1 * 8) ∷ [])
uniform_matrix_entry uniform_matrix2x4fv a = queued 4 ((8 * a 1 * 4) ∷ [])
uniform_matrix_entry uniform_matrix3dv a = queued 4 ((9 * a 1 * 8) ∷ [])
uniform_matrix_entry uniform_matrix3fv a = queued 4 ((aligned (9 * a 1 * 4)) ∷ [])
uniform_matrix_entry uniform_matrix3fv_arb a = queued 4 ((aligned (9 * a 1 * 4)) ∷ [])
uniform_matrix_entry uniform_matrix3x2dv a = queued 4 ((6 * a 1 * 8) ∷ [])
uniform_matrix_entry uniform_matrix3x2fv a = queued 4 ((6 * a 1 * 4) ∷ [])
uniform_matrix_entry uniform_matrix3x4dv a = queued 4 ((12 * a 1 * 8) ∷ [])
uniform_matrix_entry uniform_matrix3x4fv a = queued 4 ((12 * a 1 * 4) ∷ [])
uniform_matrix_entry uniform_matrix4dv a = queued 4 ((16 * a 1 * 8) ∷ [])
uniform_matrix_entry uniform_matrix4fv a = queued 4 ((16 * a 1 * 4) ∷ [])
uniform_matrix_entry uniform_matrix4fv_arb a = queued 4 ((16 * a 1 * 4) ∷ [])
uniform_matrix_entry uniform_matrix4x2dv a = queued 4 ((8 * a 1 * 8) ∷ [])
uniform_matrix_entry uniform_matrix4x2fv a = queued 4 ((8 * a 1 * 4) ∷ [])
uniform_matrix_entry uniform_matrix4x3dv a = queued 4 ((12 * a 1 * 8) ∷ [])
uniform_matrix_entry uniform_matrix4x3fv a = queued 4 ((12 * a 1 * 4) ∷ [])

-- `datacb` behind processArgs.
unfoldable pub uniform_matrix_datacb : UniformMatrix → (ℕ → ℕ) → ℕ
uniform_matrix_datacb uniform_matrix2dv a = 4 * a 1 * 8
uniform_matrix_datacb uniform_matrix2fv a = 4 * a 1 * 4
uniform_matrix_datacb uniform_matrix2fv_arb a = 4 * a 1 * 4
uniform_matrix_datacb uniform_matrix2x3dv a = 6 * a 1 * 8
uniform_matrix_datacb uniform_matrix2x3fv a = 6 * a 1 * 4
uniform_matrix_datacb uniform_matrix2x4dv a = 8 * a 1 * 8
uniform_matrix_datacb uniform_matrix2x4fv a = 8 * a 1 * 4
uniform_matrix_datacb uniform_matrix3dv a = 9 * a 1 * 8
uniform_matrix_datacb uniform_matrix3fv a = aligned (9 * a 1 * 4)
uniform_matrix_datacb uniform_matrix3fv_arb a = aligned (9 * a 1 * 4)
uniform_matrix_datacb uniform_matrix3x2dv a = 6 * a 1 * 8
uniform_matrix_datacb uniform_matrix3x2fv a = 6 * a 1 * 4
uniform_matrix_datacb uniform_matrix3x4dv a = 12 * a 1 * 8
uniform_matrix_datacb uniform_matrix3x4fv a = 12 * a 1 * 4
uniform_matrix_datacb uniform_matrix4dv a = 16 * a 1 * 8
uniform_matrix_datacb uniform_matrix4fv a = 16 * a 1 * 4
uniform_matrix_datacb uniform_matrix4fv_arb a = 16 * a 1 * 4
uniform_matrix_datacb uniform_matrix4x2dv a = 8 * a 1 * 8
uniform_matrix_datacb uniform_matrix4x2fv a = 8 * a 1 * 4
uniform_matrix_datacb uniform_matrix4x3dv a = 12 * a 1 * 8
uniform_matrix_datacb uniform_matrix4x3fv a = 12 * a 1 * 4

pub uniform_matrix-Agrees :
    (f : UniformMatrix) (a : ℕ → ℕ)
    → Agrees (uniform_matrix_entry f a) (uniform_matrix_bytes f) (uniform_matrix_datacb f a)
unfolding uniform_matrix_entry uniform_matrix_bytes uniform_matrix_datacb
uniform_matrix-Agrees uniform_matrix2dv a = (refl, sent-whole (4 * a 1 * 8) (omega arith))
uniform_matrix-Agrees uniform_matrix2fv a = (refl, sent-whole (4 * a 1 * 4) (omega arith))
uniform_matrix-Agrees uniform_matrix2fv_arb a = (refl, sent-whole (4 * a 1 * 4) (omega arith))
uniform_matrix-Agrees uniform_matrix2x3dv a = (refl, sent-whole (6 * a 1 * 8) (omega arith))
uniform_matrix-Agrees uniform_matrix2x3fv a = (refl, sent-whole (6 * a 1 * 4) (omega arith))
uniform_matrix-Agrees uniform_matrix2x4dv a = (refl, sent-whole (8 * a 1 * 8) (omega arith))
uniform_matrix-Agrees uniform_matrix2x4fv a = (refl, sent-whole (8 * a 1 * 4) (omega arith))
uniform_matrix-Agrees uniform_matrix3dv a = (refl, sent-whole (9 * a 1 * 8) (omega arith))
uniform_matrix-Agrees uniform_matrix3fv a = (refl, sent-aligned (9 * a 1 * 4))
uniform_matrix-Agrees uniform_matrix3fv_arb a = (refl, sent-aligned (9 * a 1 * 4))
uniform_matrix-Agrees uniform_matrix3x2dv a = (refl, sent-whole (6 * a 1 * 8) (omega arith))
uniform_matrix-Agrees uniform_matrix3x2fv a = (refl, sent-whole (6 * a 1 * 4) (omega arith))
uniform_matrix-Agrees uniform_matrix3x4dv a = (refl, sent-whole (12 * a 1 * 8) (omega arith))
uniform_matrix-Agrees uniform_matrix3x4fv a = (refl, sent-whole (12 * a 1 * 4) (omega arith))
uniform_matrix-Agrees uniform_matrix4dv a = (refl, sent-whole (16 * a 1 * 8) (omega arith))
uniform_matrix-Agrees uniform_matrix4fv a = (refl, sent-whole (16 * a 1 * 4) (omega arith))
uniform_matrix-Agrees uniform_matrix4fv_arb a = (refl, sent-whole (16 * a 1 * 4) (omega arith))
uniform_matrix-Agrees uniform_matrix4x2dv a = (refl, sent-whole (8 * a 1 * 8) (omega arith))
uniform_matrix-Agrees uniform_matrix4x2fv a = (refl, sent-whole (8 * a 1 * 4) (omega arith))
uniform_matrix-Agrees uniform_matrix4x3dv a = (refl, sent-whole (12 * a 1 * 8) (omega arith))
uniform_matrix-Agrees uniform_matrix4x3fv a = (refl, sent-whole (12 * a 1 * 4) (omega arith))
