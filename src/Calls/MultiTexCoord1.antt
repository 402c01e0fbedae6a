-- ===== src/Calls/MultiTexCoord1.antt =====
-- The functions glMultiTexCoord1* of wrappers/mesa/src/wrapgl32.c, their rows of qemu-1/hw/mesa/mglfptbl.h,
-- and their cases of processArgs of qemu-1/hw/mesa/mesapt_mm.c.
use qemu_3dfx.Common.{ℕ, refl, [], ◌∷◌}
use qemu_3dfx.Calls.{Entry, queued, trapped, aligned, Agrees}

-- The enumerators, by the functions' names.
pub data MultiTexCoord1 : Type 0 where
  multi_tex_coord1b_oes multi_tex_coord1bv_oes multi_tex_coord1d : MultiTexCoord1
  multi_tex_coord1d_arb multi_tex_coord1dv multi_tex_coord1dv_arb : MultiTexCoord1
  multi_tex_coord1f multi_tex_coord1f_arb multi_tex_coord1fv : MultiTexCoord1
  multi_tex_coord1fv_arb multi_tex_coord1h_nv multi_tex_coord1hv_nv : MultiTexCoord1
  multi_tex_coord1i multi_tex_coord1i_arb multi_tex_coord1iv : MultiTexCoord1
  multi_tex_coord1iv_arb multi_tex_coord1s multi_tex_coord1s_arb : MultiTexCoord1
  multi_tex_coord1sv multi_tex_coord1sv_arb multi_tex_coord1x_oes : MultiTexCoord1
  multi_tex_coord1xv_oes : MultiTexCoord1

-- The bytes that the table has behind the @ of the symbol.
unfoldable pub multi_tex_coord1_bytes : MultiTexCoord1 → ℕ
multi_tex_coord1_bytes multi_tex_coord1b_oes = 8
multi_tex_coord1_bytes multi_tex_coord1bv_oes = 8
multi_tex_coord1_bytes multi_tex_coord1d = 12
multi_tex_coord1_bytes multi_tex_coord1d_arb = 12
multi_tex_coord1_bytes multi_tex_coord1dv = 8
multi_tex_coord1_bytes multi_tex_coord1dv_arb = 8
multi_tex_coord1_bytes multi_tex_coord1f = 8
multi_tex_coord1_bytes multi_tex_coord1f_arb = 8
multi_tex_coord1_bytes multi_tex_coord1fv = 8
multi_tex_coord1_bytes multi_tex_coord1fv_arb = 8
multi_tex_coord1_bytes multi_tex_coord1h_nv = 8
multi_tex_coord1_bytes multi_tex_coord1hv_nv = 8
multi_tex_coord1_bytes multi_tex_coord1i = 8
multi_tex_coord1_bytes multi_tex_coord1i_arb = 8
multi_tex_coord1_bytes multi_tex_coord1iv = 8
multi_tex_coord1_bytes multi_tex_coord1iv_arb = 8
multi_tex_coord1_bytes multi_tex_coord1s = 8
multi_tex_coord1_bytes multi_tex_coord1s_arb = 8
multi_tex_coord1_bytes multi_tex_coord1sv = 8
multi_tex_coord1_bytes multi_tex_coord1sv_arb = 8
multi_tex_coord1_bytes multi_tex_coord1x_oes = 8
multi_tex_coord1_bytes multi_tex_coord1xv_oes = 8

-- The wrappers.
unfoldable pub multi_tex_coord1_entry : MultiTexCoord1 → (ℕ → ℕ) → Entry
multi_tex_coord1_entry multi_tex_coord1b_oes _ = trapped 2 []
multi_tex_coord1_entry multi_tex_coord1bv_oes _ = trapped 2 []
multi_tex_coord1_entry multi_tex_coord1d _ = queued 3 []
multi_tex_coord1_entry multi_tex_coord1d_arb _ = queued 3 []
multi_tex_coord1_entry multi_tex_coord1dv _ = queued 2 (8 ∷ [])
multi_tex_coord1_entry multi_tex_coord1dv_arb _ = queued 2 (8 ∷ [])
multi_tex_coord1_entry multi_tex_coord1f _ = queued 2 []
multi_tex_coord1_entry multi_tex_coord1f_arb _ = queued 2 []
multi_tex_coord1_entry multi_tex_coord1fv _ = queued 2 ((aligned 4) ∷ [])
multi_tex_coord1_entry multi_tex_coord1fv_arb _ = queued 2 ((aligned 4) ∷ [])
multi_tex_coord1_entry multi_tex_coord1h_nv _ = trapped 2 []
multi_tex_coord1_entry multi_tex_coord1hv_nv _ = trapped 2 []
multi_tex_coord1_entry multi_tex_coord1i _ = queued 2 []
multi_tex_coord1_entry multi_tex_coord1i_arb _ = queued 2 []
multi_tex_coord1_entry multi_tex_coord1iv _ = queued 2 ((aligned 4) ∷ [])
multi_tex_coord1_entry multi_tex_coord1iv_arb _ = queued 2 ((aligned 4) ∷ [])
multi_tex_coord1_entry multi_tex_coord1s _ = queued 2 []
multi_tex_coord1_entry multi_tex_coord1s_arb _ = queued 2 []
multi_tex_coord1_entry multi_tex_coord1sv _ = queued 2 ((aligned 2) ∷ [])
multi_tex_coord1_entry multi_tex_coord1sv_arb _ = queued 2 ((aligned 2) ∷ [])
multi_tex_coord1_entry multi_tex_coord1x_oes _ = trapped 2 []
multi_tex_coord1_entry multi_tex_coord1xv_oes _ = trapped 2 []

-- `datacb` behind processArgs.
unfoldable pub multi_tex_coord1_datacb : MultiTexCoord1 → (ℕ → ℕ) → ℕ
multi_tex_coord1_datacb multi_tex_coord1dv _ = aligned 1
multi_tex_coord1_datacb multi_tex_coord1dv_arb _ = aligned 1
multi_tex_coord1_datacb multi_tex_coord1fv _ = aligned 1
multi_tex_coord1_datacb multi_tex_coord1fv_arb _ = aligned 1
multi_tex_coord1_datacb multi_tex_coord1iv _ = aligned 1
multi_tex_coord1_datacb multi_tex_coord1iv_arb _ = aligned 1
multi_tex_coord1_datacb multi_tex_coord1sv _ = aligned 1
multi_tex_coord1_datacb multi_tex_coord1sv_arb _ = aligned 1
multi_tex_coord1_datacb _ _ = 0

pub multi_tex_coord1-Agrees :
    (f : MultiTexCoord1) (a : ℕ → ℕ)
    → Agrees (multi_tex_coord1_entry f a) (multi_tex_coord1_bytes f) (multi_tex_coord1_datacb f a)
unfolding multi_tex_coord1_entry multi_tex_coord1_bytes multi_tex_coord1_datacb
multi_tex_coord1-Agrees multi_tex_coord1b_oes a = (refl, refl)
multi_tex_coord1-Agrees multi_tex_coord1bv_oes a = (refl, refl)
multi_tex_coord1-Agrees multi_tex_coord1d a = (refl, refl)
multi_tex_coord1-Agrees multi_tex_coord1d_arb a = (refl, refl)
multi_tex_coord1-Agrees multi_tex_coord1dv a = (refl, refl)
multi_tex_coord1-Agrees multi_tex_coord1dv_arb a = (refl, refl)
multi_tex_coord1-Agrees multi_tex_coord1f a = (refl, refl)
multi_tex_coord1-Agrees multi_tex_coord1f_arb a = (refl, refl)
multi_tex_coord1-Agrees multi_tex_coord1fv a = (refl, refl)
multi_tex_coord1-Agrees multi_tex_coord1fv_arb a = (refl, refl)
multi_tex_coord1-Agrees multi_tex_coord1h_nv a = (refl, refl)
multi_tex_coord1-Agrees multi_tex_coord1hv_nv a = (refl, refl)
multi_tex_coord1-Agrees multi_tex_coord1i a = (refl, refl)
multi_tex_coord1-Agrees multi_tex_coord1i_arb a = (refl, refl)
multi_tex_coord1-Agrees multi_tex_coord1iv a = (refl, refl)
multi_tex_coord1-Agrees multi_tex_coord1iv_arb a = (refl, refl)
multi_tex_coord1-Agrees multi_tex_coord1s a = (refl, refl)
multi_tex_coord1-Agrees multi_tex_coord1s_arb a = (refl, refl)
multi_tex_coord1-Agrees multi_tex_coord1sv a = (refl, refl)
multi_tex_coord1-Agrees multi_tex_coord1sv_arb a = (refl, refl)
multi_tex_coord1-Agrees multi_tex_coord1x_oes a = (refl, refl)
multi_tex_coord1-Agrees multi_tex_coord1xv_oes a = (refl, refl)
