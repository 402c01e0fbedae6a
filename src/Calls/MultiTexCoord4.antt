-- ===== src/Calls/MultiTexCoord4.antt =====
-- The functions glMultiTexCoord4* of wrappers/mesa/src/wrapgl32.c, their rows of qemu-1/hw/mesa/mglfptbl.h,
-- and their cases of processArgs of qemu-1/hw/mesa/mesapt_mm.c.
use qemu_3dfx.Common.{ℕ, refl, [], ◌∷◌, ◌*◌}
use qemu_3dfx.Calls.{Entry, queued, trapped, aligned, Agrees}

-- The enumerators, by the functions' names.
pub data MultiTexCoord4 : Type 0 where
  multi_tex_coord4b_oes multi_tex_coord4bv_oes multi_tex_coord4d : MultiTexCoord4
  multi_tex_coord4d_arb multi_tex_coord4dv multi_tex_coord4dv_arb : MultiTexCoord4
  multi_tex_coord4f multi_tex_coord4f_arb multi_tex_coord4fv : MultiTexCoord4
  multi_tex_coord4fv_arb multi_tex_coord4h_nv multi_tex_coord4hv_nv : MultiTexCoord4
  multi_tex_coord4i multi_tex_coord4i_arb multi_tex_coord4iv : MultiTexCoord4
  multi_tex_coord4iv_arb multi_tex_coord4s multi_tex_coord4s_arb : MultiTexCoord4
  multi_tex_coord4sv multi_tex_coord4sv_arb multi_tex_coord4x_oes : MultiTexCoord4
  multi_tex_coord4xv_oes : MultiTexCoord4

-- The bytes that the table has behind the @ of the symbol.
unfoldable pub multi_tex_coord4_bytes : MultiTexCoord4 → ℕ
multi_tex_coord4_bytes multi_tex_coord4b_oes = 20
multi_tex_coord4_bytes multi_tex_coord4bv_oes = 8
multi_tex_coord4_bytes multi_tex_coord4d = 36
multi_tex_coord4_bytes multi_tex_coord4d_arb = 36
multi_tex_coord4_bytes multi_tex_coord4dv = 8
multi_tex_coord4_bytes multi_tex_coord4dv_arb = 8
multi_tex_coord4_bytes multi_tex_coord4f = 20
multi_tex_coord4_bytes multi_tex_coord4f_arb = 20
multi_tex_coord4_bytes multi_tex_coord4fv = 8
multi_tex_coord4_bytes multi_tex_coord4fv_arb = 8
multi_tex_coord4_bytes multi_tex_coord4h_nv = 20
multi_tex_coord4_bytes multi_tex_coord4hv_nv = 8
multi_tex_coord4_bytes multi_tex_coord4i = 20
multi_tex_coord4_bytes multi_tex_coord4i_arb = 20
multi_tex_coord4_bytes multi_tex_coord4iv = 8
multi_tex_coord4_bytes multi_tex_coord4iv_arb = 8
multi_tex_coord4_bytes multi_tex_coord4s = 20
multi_tex_coord4_bytes multi_tex_coord4s_arb = 20
multi_tex_coord4_bytes multi_tex_coord4sv = 8
multi_tex_coord4_bytes multi_tex_coord4sv_arb = 8
multi_tex_coord4_bytes multi_tex_coord4x_oes = 20
multi_tex_coord4_bytes multi_tex_coord4xv_oes = 8

-- The wrappers.
unfoldable pub multi_tex_coord4_entry : MultiTexCoord4 → (ℕ → ℕ) → Entry
multi_tex_coord4_entry multi_tex_coord4b_oes _ = trapped 5 []
multi_tex_coord4_entry multi_tex_coord4bv_oes _ = trapped 2 []
multi_tex_coord4_entry multi_tex_coord4d _ = queued 9 []
multi_tex_coord4_entry multi_tex_coord4d_arb _ = queued 9 []
multi_tex_coord4_entry multi_tex_coord4dv _ = queued 2 ((4 * 8) ∷ [])
multi_tex_coord4_entry multi_tex_coord4dv_arb _ = queued 2 ((4 * 8) ∷ [])
multi_tex_coord4_entry multi_tex_coord4f _ = queued 5 []
multi_tex_coord4_entry multi_tex_coord4f_arb _ = queued 5 []
multi_tex_coord4_entry multi_tex_coord4fv _ = queued 2 ((4 * 4) ∷ [])
multi_tex_coord4_entry multi_tex_coord4fv_arb _ = queued 2 ((4 * 4) ∷ [])
multi_tex_coord4_entry multi_tex_coord4h_nv _ = trapped 5 []
multi_tex_coord4_entry multi_tex_coord4hv_nv _ = trapped 2 []
multi_tex_coord4_entry multi_tex_coord4i _ = queued 5 []
multi_tex_coord4_entry multi_tex_coord4i_arb _ = queued 5 []
multi_tex_coord4_entry multi_tex_coord4iv _ = queued 2 ((4 * 4) ∷ [])
multi_tex_coord4_entry multi_tex_coord4iv_arb _ = queued 2 ((4 * 4) ∷ [])
multi_tex_coord4_entry multi_tex_coord4s _ = queued 5 []
multi_tex_coord4_entry multi_tex_coord4s_arb _ = queued 5 []
multi_tex_coord4_entry multi_tex_coord4sv _ = queued 2 ((4 * 2) ∷ [])
multi_tex_coord4_entry multi_tex_coord4sv_arb _ = queued 2 ((4 * 2) ∷ [])
multi_tex_coord4_entry multi_tex_coord4x_oes _ = trapped 5 []
multi_tex_coord4_entry multi_tex_coord4xv_oes _ = trapped 2 []

-- `datacb` behind processArgs.
unfoldable pub multi_tex_coord4_datacb : MultiTexCoord4 → (ℕ → ℕ) → ℕ
multi_tex_coord4_datacb multi_tex_coord4dv _ = 4 * 8
multi_tex_coord4_datacb multi_tex_coord4dv_arb _ = 4 * 8
multi_tex_coord4_datacb multi_tex_coord4fv _ = 4 * 4
multi_tex_coord4_datacb multi_tex_coord4fv_arb _ = 4 * 4
multi_tex_coord4_datacb multi_tex_coord4iv _ = 4 * 4
multi_tex_coord4_datacb multi_tex_coord4iv_arb _ = 4 * 4
multi_tex_coord4_datacb multi_tex_coord4sv _ = aligned 1
multi_tex_coord4_datacb multi_tex_coord4sv_arb _ = aligned 1
multi_tex_coord4_datacb _ _ = 0

pub multi_tex_coord4-Agrees :
    (f : MultiTexCoord4) (a : ℕ → ℕ)
    → Agrees (multi_tex_coord4_entry f a) (multi_tex_coord4_bytes f) (multi_tex_coord4_datacb f a)
unfolding multi_tex_coord4_entry multi_tex_coord4_bytes multi_tex_coord4_datacb
multi_tex_coord4-Agrees multi_tex_coord4b_oes a = (refl, refl)
multi_tex_coord4-Agrees multi_tex_coord4bv_oes a = (refl, refl)
multi_tex_coord4-Agrees multi_tex_coord4d a = (refl, refl)
multi_tex_coord4-Agrees multi_tex_coord4d_arb a = (refl, refl)
multi_tex_coord4-Agrees multi_tex_coord4dv a = (refl, refl)
multi_tex_coord4-Agrees multi_tex_coord4dv_arb a = (refl, refl)
multi_tex_coord4-Agrees multi_tex_coord4f a = (refl, refl)
multi_tex_coord4-Agrees multi_tex_coord4f_arb a = (refl, refl)
multi_tex_coord4-Agrees multi_tex_coord4fv a = (refl, refl)
multi_tex_coord4-Agrees multi_tex_coord4fv_arb a = (refl, refl)
multi_tex_coord4-Agrees multi_tex_coord4h_nv a = (refl, refl)
multi_tex_coord4-Agrees multi_tex_coord4hv_nv a = (refl, refl)
multi_tex_coord4-Agrees multi_tex_coord4i a = (refl, refl)
multi_tex_coord4-Agrees multi_tex_coord4i_arb a = (refl, refl)
multi_tex_coord4-Agrees multi_tex_coord4iv a = (refl, refl)
multi_tex_coord4-Agrees multi_tex_coord4iv_arb a = (refl, refl)
multi_tex_coord4-Agrees multi_tex_coord4s a = (refl, refl)
multi_tex_coord4-Agrees multi_tex_coord4s_arb a = (refl, refl)
multi_tex_coord4-Agrees multi_tex_coord4sv a = (refl, refl)
multi_tex_coord4-Agrees multi_tex_coord4sv_arb a = (refl, refl)
multi_tex_coord4-Agrees multi_tex_coord4x_oes a = (refl, refl)
multi_tex_coord4-Agrees multi_tex_coord4xv_oes a = (refl, refl)
