-- ===== src/Calls/EvalCoord.antt =====
-- The functions glEvalCoord* of wrappers/mesa/src/wrapgl32.c, their rows of qemu-1/hw/mesa/mglfptbl.h,
-- and their cases of processArgs of qemu-1/hw/mesa/mesapt_mm.c.
use qemu_3dfx.Common.{ℕ, refl, [], ◌∷◌, ◌*◌}
use qemu_3dfx.Calls.{Entry, queued, trapped, aligned, Agrees}

-- The enumerators, by the functions' names.
pub data EvalCoord : Type 0 where
  eval_coord1d eval_coord1dv eval_coord1f : EvalCoord
  eval_coord1fv eval_coord1x_oes eval_coord1xv_oes : EvalCoord
  eval_coord2d eval_coord2dv eval_coord2f : EvalCoord
  eval_coord2fv eval_coord2x_oes eval_coord2xv_oes : EvalCoord

-- The bytes that the table has behind the @ of the symbol.
unfoldable pub eval_coord_bytes : EvalCoord → ℕ
eval_coord_bytes eval_coord1d = 8
eval_coord_bytes eval_coord1dv = 4
eval_coord_bytes eval_coord1f = 4
eval_coord_bytes eval_coord1fv = 4
eval_coord_bytes eval_coord1x_oes = 4
eval_coord_bytes eval_coord1xv_oes = 4
eval_coord_bytes eval_coord2d = 16
eval_coord_bytes eval_coord2dv = 4
eval_coord_bytes eval_coord2f = 8
eval_coord_bytes eval_coord2fv = 4
eval_coord_bytes eval_coord2x_oes = 8
eval_coord_bytes eval_coord2xv_oes = 4

-- The wrappers.
unfoldable pub eval_coord_entry : EvalCoord → (ℕ → ℕ) → Entry
eval_coord_entry eval_coord1d _ = queued 2 []
eval_coord_entry eval_coord1dv _ = queued 1 (8 ∷ [])
eval_coord_entry eval_coord1f _ = queued 1 []
eval_coord_entry eval_coord1fv _ = queued 1 ((aligned 4) ∷ [])
eval_coord_entry eval_coord1x_oes _ = trapped 1 []
eval_coord_entry eval_coord1xv_oes _ = trapped 1 []
eval_coord_entry eval_coord2d _ = queued 4 []
eval_coord_entry eval_coord2dv _ = queued 1 ((2 * 8) ∷ [])
eval_coord_entry eval_coord2f _ = queued 2 []
eval_coord_entry eval_coord2fv _ = queued 1 ((2 * 4) ∷ [])
eval_coord_entry eval_coord2x_oes _ = trapped 2 []
eval_coord_entry eval_coord2xv_oes _ = trapped 1 []

-- `datacb` behind processArgs.
unfoldable pub eval_coord_datacb : EvalCoord → (ℕ → ℕ) → ℕ
eval_coord_datacb eval_coord1dv _ = aligned 1
eval_coord_datacb eval_coord1fv _ = aligned 1
eval_coord_datacb eval_coord2dv _ = 2 * 8
eval_coord_datacb eval_coord2fv _ = aligned 1
eval_coord_datacb _ _ = 0

pub eval_coord-Agrees :
    (f : EvalCoord) (a : ℕ → ℕ)
    → Agrees (eval_coord_entry f a) (eval_coord_bytes f) (eval_coord_datacb f a)
unfolding eval_coord_entry eval_coord_bytes eval_coord_datacb
eval_coord-Agrees eval_coord1d a = (refl, refl)
eval_coord-Agrees eval_coord1dv a = (refl, refl)
eval_coord-Agrees eval_coord1f a = (refl, refl)
eval_coord-Agrees eval_coord1fv a = (refl, refl)
eval_coord-Agrees eval_coord1x_oes a = (refl, refl)
eval_coord-Agrees eval_coord1xv_oes a = (refl, refl)
eval_coord-Agrees eval_coord2d a = (refl, refl)
eval_coord-Agrees eval_coord2dv a = (refl, refl)
eval_coord-Agrees eval_coord2f a = (refl, refl)
eval_coord-Agrees eval_coord2fv a = (refl, refl)
eval_coord-Agrees eval_coord2x_oes a = (refl, refl)
eval_coord-Agrees eval_coord2xv_oes a = (refl, refl)
