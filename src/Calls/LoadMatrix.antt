-- ===== src/Calls/LoadMatrix.antt =====
-- The functions glLoadMatrix* of wrappers/mesa/src/wrapgl32.c, their rows of qemu-1/hw/mesa/mglfptbl.h,
-- and their cases of processArgs of qemu-1/hw/mesa/mesapt_mm.c.
use qemu_3dfx.Common.{ℕ, refl, [], ◌∷◌, ◌*◌}
use qemu_3dfx.Calls.{Entry, queued, trapped, Agrees}

-- The enumerators, by the functions' names.
pub data LoadMatrix : Type 0 where
  load_matrixd load_matrixf load_matrixx_oes : LoadMatrix

-- The bytes that the table has behind the @ of the symbol.
unfoldable pub load_matrix_bytes : LoadMatrix → ℕ
load_matrix_bytes load_matrixd = 4
load_matrix_bytes load_matrixf = 4
load_matrix_bytes load_matrixx_oes = 4

-- The wrappers.
unfoldable pub load_matrix_entry : LoadMatrix → (ℕ → ℕ) → Entry
load_matrix_entry load_matrixd _ = queued 1 ((16 * 8) ∷ [])
load_matrix_entry load_matrixf _ = queued 1 ((16 * 4) ∷ [])
load_matrix_entry load_matrixx_oes _ = trapped 1 []

-- `datacb` behind processArgs.
unfoldable pub load_matrix_datacb : LoadMatrix → (ℕ → ℕ) → ℕ
load_matrix_datacb load_matrixd _ = 16 * 8
load_matrix_datacb load_matrixf _ = 16 * 4
load_matrix_datacb _ _ = 0

pub load_matrix-Agrees :
    (f : LoadMatrix) (a : ℕ → ℕ)
    → Agrees (load_matrix_entry f a) (load_matrix_bytes f) (load_matrix_datacb f a)
unfolding load_matrix_entry load_matrix_bytes load_matrix_datacb
load_matrix-Agrees load_matrixd a = (refl, refl)
load_matrix-Agrees load_matrixf a = (refl, refl)
load_matrix-Agrees load_matrixx_oes a = (refl, refl)
