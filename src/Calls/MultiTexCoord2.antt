-- ===== src/Calls/MultiTexCoord2.antt =====
-- The functions glMultiTexCoord2* of wrappers/mesa/src/wrapgl32.c, their rows of qemu-1/hw/mesa/mglfptbl.h,
-- and their cases of processArgs of qemu-1/hw/mesa/mesapt_mm.c.
use qemu_3dfx.Common.{ℕ, refl, [], ◌∷◌, ◌*◌}
use qemu_3dfx.Calls.{Entry, queued, trapped, aligned, Agrees}

-- The enumerators, by the functions' names.
pub data MultiTexCoord2 : Type 0 where
  multi_tex_coord2b_oes multi_tex_coord2bv_oes multi_tex_coord2d : MultiTexCoord2
  multi_tex_coord2d_arb multi_tex_coord2dv multi_tex_coord2dv_arb : MultiTexCoord2
  multi_tex_coord2f multi_tex_coord2f_arb multi_tex_coord2fv : MultiTexCoord2
  multi_tex_coord2fv_arb multi_tex_coord2h_nv multi_tex_coord2hv_nv : MultiTexCoord2
  multi_tex_coord2i multi_tex_coord2i_arb multi_tex_coord2iv : MultiTexCoord2
  multi_tex_coord2iv_arb multi_tex_coord2s multi_tex_coord2s_arb : MultiTexCoord2
  multi_tex_coord2sv multi_tex_coord2sv_arb multi_tex_coord2x_oes : MultiTexCoord2
  multi_tex_coord2xv_oes : MultiTexCoord2

-- The bytes that the table has behind the @ of the symbol.
unfoldable pub multi_tex_coord2_bytes : MultiTexCoord2 → ℕ
multi_tex_coord2_bytes multi_tex_coord2b_oes = 12
multi_tex_coord2_bytes multi_tex_coord2bv_oes = 8
multi_tex_coord2_bytes multi_tex_coord2d = 20
multi_tex_coord2_bytes multi_tex_coord2d_arb = 20
multi_tex_coord2_bytes multi_tex_coord2dv = 8
multi_tex_coord2_bytes multi_tex_coord2dv_arb = 8
multi_tex_coord2_bytes multi_tex_coord2f = 12
multi_tex_coord2_bytes multi_tex_coord2f_arb = 12
multi_tex_coord2_bytes multi_tex_coord2fv = 8
multi_tex_coord2_bytes multi_tex_coord2fv_arb = 8
multi_tex_coord2_bytes multi_tex_coord2h_nv = 12
multi_tex_coord2_bytes multi_tex_coord2hv_nv = 8
multi_tex_coord2_bytes multi_tex_coord2i = 12
multi_tex_coord2_bytes multi_tex_coord2i_arb = 12
multi_tex_coord2_bytes multi_tex_coord2iv = 8
multi_tex_coord2_bytes multi_tex_coord2iv_arb = 8
multi_tex_coord2_bytes multi_tex_coord2s = 12
multi_tex_coord2_bytes multi_tex_coord2s_arb = 12
multi_tex_coord2_bytes multi_tex_coord2sv = 8
multi_tex_coord2_bytes multi_tex_coord2sv_arb = 8
multi_tex_coord2_bytes multi_tex_coord2x_oes = 12
multi_tex_coord2_bytes multi_tex_coord2xv_oes = 8

-- The wrappers.
unfoldable pub multi_tex_coord2_entry : MultiTexCoord2 → (ℕ → ℕ) → Entry
multi_tex_coord2_entry multi_tex_coord2b_oes _ = trapped 3 []
multi_tex_coord2_entry multi_tex_coord2bv_oes _ = trapped 2 []
multi_tex_coord2_entry multi_tex_coord2d _ = queued 5 []
multi_tex_coord2_entry multi_tex_coord2d_arb _ = queued 5 []
multi_tex_coord2_entry multi_tex_coord2dv _ = queued 2 ((2 * 8) ∷ [])
multi_tex_coord2_entry multi_tex_coord2dv_arb _ = queued 2 ((2 * 8) ∷ [])
multi_tex_coord2_entry multi_tex_coord2f _ = queued 3 []
multi_tex_coord2_entry multi_tex_coord2f_arb _ = queued 3 []
multi_tex_coord2_entry multi_tex_coord2fv _ = queued 2 ((2 * 4) ∷ [])
multi_tex_coord2_entry multi_tex_coord2fv_arb _ = queued 2 ((2 * 4) ∷ [])
multi_tex_coord2_entry multi_tex_coord2h_nv _ = trapped 3 []
multi_tex_coord2_entry multi_tex_coord2hv_nv _ = trapped 2 []
multi_tex_coord2_entry multi_tex_coord2i _ = queued 3 []
multi_tex_coord2_entry multi_tex_coord2i_arb _ = queued 3 []
multi_tex_coord2_entry multi_tex_coord2iv _ = queued 2 ((2 * 4) ∷ [])
multi_tex_coord2_entry multi_tex_coord2iv_arb _ = queued 2 ((2 * 4) ∷ [])
multi_tex_coord2_entry multi_tex_coord2s _ = queued 3 []
multi_tex_coord2_entry multi_tex_coord2s_arb _ = queued 3 []
multi_tex_coord2_entry multi_tex_coord2sv _ = queued 2 ((aligned (2 * 2)) ∷ [])
multi_tex_coord2_entry multi_tex_coord2sv_arb _ = queued 2 ((aligned (2 * 2)) ∷ [])
multi_tex_coord2_entry multi_tex_coord2x_oes _ = trapped 3 []
multi_tex_coord2_entry multi_tex_coord2xv_oes _ = trapped 2 []

-- `datacb` behind processArgs.
unfoldable pub multi_tex_coord2_datacb : MultiTexCoord2 → (ℕ → ℕ) → ℕ
multi_tex_coord2_datacb multi_tex_coord2dv _ = 2 * 8
multi_tex_coord2_datacb multi_tex_coord2dv_arb _ = 2 * 8
multi_tex_coord2_datacb multi_tex_coord2fv _ = aligned 1
multi_tex_coord2_datacb multi_tex_coord2fv_arb _ = aligned 1
multi_tex_coord2_datacb multi_tex_coord2iv _ = aligned 1
multi_tex_coord2_datacb multi_tex_coord2iv_arb _ = aligned 1
multi_tex_coord2_datacb multi_tex_coord2sv _ = aligned 1
multi_tex_coord2_datacb multi_tex_coord2sv_arb _ = aligned 1
multi_tex_coord2_datacb _ _ = 0

pub multi_tex_coord2-Agrees :
    (f : MultiTexCoord2) (a : ℕ → ℕ)
    → Agrees (multi_tex_coord2_entry f a) (multi_tex_coord2_bytes f) (multi_tex_coord2_datacb f a)
unfolding multi_tex_coord2_entry multi_tex_coord2_bytes multi_tex_coord2_datacb
multi_tex_coord2-Agrees multi_tex_coord2b_oes a = (refl, refl)
multi_tex_coord2-Agrees multi_tex_coord2bv_oes a = (refl, refl)
multi_tex_coord2-Agrees multi_tex_coord2d a = (refl, refl)
multi_tex_coord2-Agrees multi_tex_coord2d_arb a = (refl, refl)
multi_tex_coord2-Agrees multi_tex_coord2dv a = (refl, refl)
multi_tex_coord2-Agrees multi_tex_coord2dv_arb a = (refl, refl)
multi_tex_coord2-Agrees multi_tex_coord2f a = (refl, refl)
multi_tex_coord2-Agrees multi_tex_coord2f_arb a = (refl, refl)
multi_tex_coord2-Agrees multi_tex_coord2fv a = (refl, refl)
multi_tex_coord2-Agrees multi_tex_coord2fv_arb a = (refl, refl)
multi_tex_coord2-Agrees multi_tex_coord2h_nv a = (refl, refl)
multi_tex_coord2-Agrees multi_tex_coord2hv_nv a = (refl, refl)
multi_tex_coord2-Agrees multi_tex_coord2i a = (refl, refl)
multi_tex_coord2-Agrees multi_tex_coord2i_arb a = (refl, refl)
multi_tex_coord2-Agrees multi_tex_coord2iv a = (refl, refl)
multi_tex_coord2-Agrees multi_tex_coord2iv_arb a = (refl, refl)
multi_tex_coord2-Agrees multi_tex_coord2s a = (refl, refl)
multi_tex_coord2-Agrees multi_tex_coord2s_arb a = (refl, refl)
multi_tex_coord2-Agrees multi_tex_coord2sv a = (refl, refl)
multi_tex_coord2-Agrees multi_tex_coord2sv_arb a = (refl, refl)
multi_tex_coord2-Agrees multi_tex_coord2x_oes a = (refl, refl)
multi_tex_coord2-Agrees multi_tex_coord2xv_oes a = (refl, refl)
