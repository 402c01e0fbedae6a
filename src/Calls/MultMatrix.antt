-- ===== src/Calls/MultMatrix.antt =====
-- The functions glMultMatrix* of wrappers/mesa/src/wrapgl32.c, their rows of qemu-1/hw/mesa/mglfptbl.h,
-- and their cases of processArgs of qemu-1/hw/mesa/mesapt_mm.c.
use qemu_3dfx.Common.{ℕ, refl, [], ◌∷◌, ◌*◌}
use qemu_3dfx.Calls.{Entry, queued, trapped, Agrees}

-- The enumerators, by the functions' names.
pub data MultMatrix : Type 0 where
  mult_matrixd mult_matrixf mult_matrixx_oes : MultMatrix

-- The bytes that the table has behind the @ of the symbol.
unfoldable pub mult_matrix_bytes : MultMatrix → ℕ
mult_matrix_bytes mult_matrixd = 4
mult_matrix_bytes mult_matrixf = 4
mult_matrix_bytes mult_matrixx_oes = 4

-- The wrappers.
unfoldable pub mult_matrix_entry : MultMatrix → (ℕ → ℕ) → Entry
mult_matrix_entry mult_matrixd _ = queued 1 ((16 * 8) ∷ [])
mult_matrix_entry mult_matrixf _ = queued 1 ((16 * 4) ∷ [])
mult_matrix_entry mult_matrixx_oes _ = trapped 1 []

-- `datacb` behind processArgs.
unfoldable pub mult_matrix_datacb : MultMatrix → (ℕ → ℕ) → ℕ
mult_matrix_datacb mult_matrixd _ = 16 * 8
mult_matrix_datacb mult_matrixf _ = 16 * 4
mult_matrix_datacb _ _ = 0

pub mult_matrix-Agrees :
    (f : MultMatrix) (a : ℕ → ℕ)
    → Agrees (mult_matrix_entry f a) (mult_matrix_bytes f) (mult_matrix_datacb f a)
unfolding mult_matrix_entry mult_matrix_bytes mult_matrix_datacb
mult_matrix-Agrees mult_matrixd a = (refl, refl)
mult_matrix-Agrees mult_matrixf a = (refl, refl)
mult_matrix-Agrees mult_matrixx_oes a = (refl, refl)
