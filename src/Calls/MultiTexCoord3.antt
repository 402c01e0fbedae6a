-- ===== src/Calls/MultiTexCoord3.antt =====
-- The functions glMultiTexCoord3* of wrappers/mesa/src/wrapgl32.c, their rows of qemu-1/hw/mesa/mglfptbl.h,
-- and their cases of processArgs of qemu-1/hw/mesa/mesapt_mm.c.
use qemu_3dfx.Common.{ℕ, refl, [], ◌∷◌, ◌*◌}
use qemu_3dfx.Calls.{Entry, queued, trapped, aligned, Agrees}

-- The enumerators, by the functions' names.
pub data MultiTexCoord3 : Type 0 where
  multi_tex_coord3b_oes multi_tex_coord3bv_oes multi_tex_coord3d : MultiTexCoord3
  multi_tex_coord3d_arb multi_tex_coord3dv multi_tex_coord3dv_arb : MultiTexCoord3
  multi_tex_coord3f multi_tex_coord3f_arb multi_tex_coord3fv : MultiTexCoord3
  multi_tex_coord3fv_arb multi_tex_coord3h_nv multi_tex_coord3hv_nv : MultiTexCoord3
  multi_tex_coord3i multi_tex_coord3i_arb multi_tex_coord3iv : MultiTexCoord3
  multi_tex_coord3iv_arb multi_tex_coord3s multi_tex_coord3s_arb : MultiTexCoord3
  multi_tex_coord3sv multi_tex_coord3sv_arb multi_tex_coord3x_oes : MultiTexCoord3
  multi_tex_coord3xv_oes : MultiTexCoord3

-- The bytes that the table has behind the @ of the symbol.
unfoldable pub multi_tex_coord3_bytes : MultiTexCoord3 → ℕ
multi_tex_coord3_bytes multi_tex_coord3b_oes = 16
multi_tex_coord3_bytes multi_tex_coord3bv_oes = 8
multi_tex_coord3_bytes multi_tex_coord3d = 28
multi_tex_coord3_bytes multi_tex_coord3d_arb = 28
multi_tex_coord3_bytes multi_tex_coord3dv = 8
multi_tex_coord3_bytes multi_tex_coord3dv_arb = 8
multi_tex_coord3_bytes multi_tex_coord3f = 16
multi_tex_coord3_bytes multi_tex_coord3f_arb = 16
multi_tex_coord3_bytes multi_tex_coord3fv = 8
multi_tex_coord3_bytes multi_tex_coord3fv_arb = 8
multi_tex_coord3_bytes multi_tex_coord3h_nv = 16
multi_tex_coord3_bytes multi_tex_coord3hv_nv = 8
multi_tex_coord3_bytes multi_tex_coord3i = 16
multi_tex_coord3_bytes multi_tex_coord3i_arb = 16
multi_tex_coord3_bytes multi_tex_coord3iv = 8
multi_tex_coord3_bytes multi_tex_coord3iv_arb = 8
multi_tex_coord3_bytes multi_tex_coord3s = 16
multi_tex_coord3_bytes multi_tex_coord3s_arb = 16
multi_tex_coord3_bytes multi_tex_coord3sv = 8
multi_tex_coord3_bytes multi_tex_coord3sv_arb = 8
multi_tex_coord3_bytes multi_tex_coord3x_oes = 16
multi_tex_coord3_bytes multi_tex_coord3xv_oes = 8

-- The wrappers.
unfoldable pub multi_tex_coord3_entry : MultiTexCoord3 → (ℕ → ℕ) → Entry
multi_tex_coord3_entry multi_tex_coord3b_oes _ = trapped 4 []
multi_tex_coord3_entry multi_tex_coord3bv_oes _ = trapped 2 []
multi_tex_coord3_entry multi_tex_coord3d _ = queued 7 []
multi_tex_coord3_entry multi_tex_coord3d_arb _ = queued 7 []
multi_tex_coord3_entry multi_tex_coord3dv _ = queued 2 ((3 * 8) ∷ [])
multi_tex_coord3_entry multi_tex_coord3dv_arb _ = queued 2 ((3 * 8) ∷ [])
multi_tex_coord3_entry multi_tex_coord3f _ = queued 4 []
multi_tex_coord3_entry multi_tex_coord3f_arb _ = queued 4 []
multi_tex_coord3_entry multi_tex_coord3fv _ = queued 2 ((aligned (3 * 4)) ∷ [])
multi_tex_coord3_entry multi_tex_coord3fv_arb _ = queued 2 ((aligned (3 * 4)) ∷ [])
multi_tex_coord3_entry multi_tex_coord3h_nv _ = trapped 4 []
multi_tex_coord3_entry multi_tex_coord3hv_nv _ = trapped 2 []
multi_tex_coord3_entry multi_tex_coord3i _ = queued 4 []
multi_tex_coord3_entry multi_tex_coord3i_arb _ = queued 4 []
multi_tex_coord3_entry multi_tex_coord3iv _ = queued 2 ((aligned (3 * 4)) ∷ [])
multi_tex_coord3_entry multi_tex_coord3iv_arb _ = queued 2 ((aligned (3 * 4)) ∷ [])
multi_tex_coord3_entry multi_tex_coord3s _ = queued 4 []
multi_tex_coord3_entry multi_tex_coord3s_arb _ = queued 4 []
multi_tex_coord3_entry multi_tex_coord3sv _ = queued 2 ((aligned (3 * 2)) ∷ [])
multi_tex_coord3_entry multi_tex_coord3sv_arb _ = queued 2 ((aligned (3 * 2)) ∷ [])
multi_tex_coord3_entry multi_tex_coord3x_oes _ = trapped 4 []
multi_tex_coord3_entry multi_tex_coord3xv_oes _ = trapped 2 []

-- `datacb` behind processArgs.
unfoldable pub multi_tex_coord3_datacb : MultiTexCoord3 → (ℕ → ℕ) → ℕ
multi_tex_coord3_datacb multi_tex_coord3dv _ = 3 * 8
multi_tex_coord3_datacb multi_tex_coord3dv_arb _ = 3 * 8
multi_tex_coord3_datacb multi_tex_coord3fv _ = aligned (3 * 4)
multi_tex_coord3_datacb multi_tex_coord3fv_arb _ = aligned (3 * 4)
multi_tex_coord3_datacb multi_tex_coord3iv _ = aligned (3 * 4)
multi_tex_coord3_datacb multi_tex_coord3iv_arb _ = aligned (3 * 4)
multi_tex_coord3_datacb multi_tex_coord3sv _ = aligned 1
multi_tex_coord3_datacb multi_tex_coord3sv_arb _ = aligned 1
multi_tex_coord3_datacb _ _ = 0

pub multi_tex_coord3-Agrees :
    (f : MultiTexCoord3) (a : ℕ → ℕ)
    → Agrees (multi_tex_coord3_entry f a) (multi_tex_coord3_bytes f) (multi_tex_coord3_datacb f a)
unfolding multi_tex_coord3_entry multi_tex_coord3_bytes multi_tex_coord3_datacb
multi_tex_coord3-Agrees multi_tex_coord3b_oes a = (refl, refl)
multi_tex_coord3-Agrees multi_tex_coord3bv_oes a = (refl, refl)
multi_tex_coord3-Agrees multi_tex_coord3d a = (refl, refl)
multi_tex_coord3-Agrees multi_tex_coord3d_arb a = (refl, refl)
multi_tex_coord3-Agrees multi_tex_coord3dv a = (refl, refl)
multi_tex_coord3-Agrees multi_tex_coord3dv_arb a = (refl, refl)
multi_tex_coord3-Agrees multi_tex_coord3f a = (refl, refl)
multi_tex_coord3-Agrees multi_tex_coord3f_arb a = (refl, refl)
multi_tex_coord3-Agrees multi_tex_coord3fv a = (refl, refl)
multi_tex_coord3-Agrees multi_tex_coord3fv_arb a = (refl, refl)
multi_tex_coord3-Agrees multi_tex_coord3h_nv a = (refl, refl)
multi_tex_coord3-Agrees multi_tex_coord3hv_nv a = (refl, refl)
multi_tex_coord3-Agrees multi_tex_coord3i a = (refl, refl)
multi_tex_coord3-Agrees multi_tex_coord3i_arb a = (refl, refl)
multi_tex_coord3-Agrees multi_tex_coord3iv a = (refl, refl)
multi_tex_coord3-Agrees multi_tex_coord3iv_arb a = (refl, refl)
multi_tex_coord3-Agrees multi_tex_coord3s a = (refl, refl)
multi_tex_coord3-Agrees multi_tex_coord3s_arb a = (refl, refl)
multi_tex_coord3-Agrees multi_tex_coord3sv a = (refl, refl)
multi_tex_coord3-Agrees multi_tex_coord3sv_arb a = (refl, refl)
multi_tex_coord3-Agrees multi_tex_coord3x_oes a = (refl, refl)
multi_tex_coord3-Agrees multi_tex_coord3xv_oes a = (refl, refl)
