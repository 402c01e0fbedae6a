-- ===== src/Calls/SecondaryColor3.antt =====
-- The functions glSecondaryColor3* of wrappers/mesa/src/wrapgl32.c, their rows of qemu-1/hw/mesa/mglfptbl.h,
-- and their cases of processArgs of qemu-1/hw/mesa/mesapt_mm.c.
use qemu_3dfx.Common.{ℕ, refl, [], ◌∷◌, ◌*◌}
use qemu_3dfx.Calls.{Entry, queued, trapped, aligned, Agrees}

-- The enumerators, by the functions' names.
pub data SecondaryColor3 : Type 0 where
  secondary_color3b secondary_color3b_ext secondary_color3bv : SecondaryColor3
  secondary_color3bv_ext secondary_color3d secondary_color3d_ext : SecondaryColor3
  secondary_color3dv secondary_color3dv_ext secondary_color3f : SecondaryColor3
  secondary_color3f_ext secondary_color3fv secondary_color3fv_ext : SecondaryColor3
  secondary_color3h_nv secondary_color3hv_nv secondary_color3i : SecondaryColor3
  secondary_color3i_ext secondary_color3iv secondary_color3iv_ext : SecondaryColor3
  secondary_color3s secondary_color3s_ext secondary_color3sv : SecondaryColor3
  secondary_color3sv_ext secondary_color3ub secondary_color3ub_ext : SecondaryColor3
  secondary_color3ubv secondary_color3ubv_ext secondary_color3ui : SecondaryColor3
  secondary_color3ui_ext secondary_color3uiv secondary_color3uiv_ext : SecondaryColor3
  secondary_color3us secondary_color3us_ext secondary_color3usv : SecondaryColor3
  secondary_color3usv_ext : SecondaryColor3

-- The bytes that the table has behind the @ of the symbol.
unfoldable pub secondary_color3_bytes : SecondaryColor3 → ℕ
secondary_color3_bytes secondary_color3b = 12
secondary_color3_bytes secondary_color3b_ext = 12
secondary_color3_bytes secondary_color3bv = 4
secondary_color3_bytes secondary_color3bv_ext = 4
secondary_color3_bytes secondary_color3d = 24
secondary_color3_bytes secondary_color3d_ext = 24
secondary_color3_bytes secondary_color3dv = 4
secondary_color3_bytes secondary_color3dv_ext = 4
secondary_color3_bytes secondary_color3f = 12
secondary_color3_bytes secondary_color3f_ext = 12
secondary_color3_bytes secondary_color3fv = 4
secondary_color3_bytes secondary_color3fv_ext = 4
secondary_color3_bytes secondary_color3h_nv = 12
secondary_color3_bytes secondary_color3hv_nv = 4
secondary_color3_bytes secondary_color3i = 12
secondary_color3_bytes secondary_color3i_ext = 12
secondary_color3_bytes secondary_color3iv = 4
secondary_color3_bytes secondary_color3iv_ext = 4
secondary_color3_bytes secondary_color3s = 12
secondary_color3_bytes secondary_color3s_ext = 12
secondary_color3_bytes secondary_color3sv = 4
secondary_color3_bytes secondary_color3sv_ext = 4
secondary_color3_bytes secondary_color3ub = 12
secondary_color3_bytes secondary_color3ub_ext = 12
secondary_color3_bytes secondary_color3ubv = 4
secondary_color3_bytes secondary_color3ubv_ext = 4
secondary_color3_bytes secondary_color3ui = 12
secondary_color3_bytes secondary_color3ui_ext = 12
secondary_color3_bytes secondary_color3uiv = 4
secondary_color3_bytes secondary_color3uiv_ext = 4
secondary_color3_bytes secondary_color3us = 12
secondary_color3_bytes secondary_color3us_ext = 12
secondary_color3_bytes secondary_color3usv = 4
secondary_color3_bytes secondary_color3usv_ext = 4

-- The wrappers.
unfoldable pub secondary_color3_entry : SecondaryColor3 → (ℕ → ℕ) → Entry
secondary_color3_entry secondary_color3b _ = queued 3 []
secondary_color3_entry secondary_color3b_ext _ = queued 3 []
secondary_color3_entry secondary_color3bv _ = queued 1 ((aligned (3 * 1)) ∷ [])
secondary_color3_entry secondary_color3bv_ext _ = queued 1 ((aligned (3 * 1)) ∷ [])
secondary_color3_entry secondary_color3d _ = queued 6 []
secondary_color3_entry secondary_color3d_ext _ = queued 6 []
secondary_color3_entry secondary_color3dv _ = queued 1 ((3 * 8) ∷ [])
secondary_color3_entry secondary_color3dv_ext _ = queued 1 ((3 * 8) ∷ [])
secondary_color3_entry secondary_color3f _ = queued 3 []
secondary_color3_entry secondary_color3f_ext _ = queued 3 []
secondary_color3_entry secondary_color3fv _ = queued 1 ((aligned (3 * 4)) ∷ [])
secondary_color3_entry secondary_color3fv_ext _ = queued 1 ((aligned (3 * 4)) ∷ [])
secondary_color3_entry secondary_color3h_nv _ = trapped 3 []
secondary_color3_entry secondary_color3hv_nv _ = trapped 1 []
secondary_color3_entry secondary_color3i _ = queued 3 []
secondary_color3_entry secondary_color3i_ext _ = queued 3 []
secondary_color3_entry secondary_color3iv _ = queued 1 ((aligned (3 * 4)) ∷ [])
secondary_color3_entry secondary_color3iv_ext _ = queued 1 ((aligned (3 * 4)) ∷ [])
secondary_color3_entry secondary_color3s _ = queued 3 []
secondary_color3_entry secondary_color3s_ext _ = queued 3 []
secondary_color3_entry secondary_color3sv _ = queued 1 ((aligned (3 * 2)) ∷ [])
secondary_color3_entry secondary_color3sv_ext _ = queued 1 ((aligned (3 * 2)) ∷ [])
secondary_color3_entry secondary_color3ub _ = queued 3 []
secondary_color3_entry secondary_color3ub_ext _ = queued 3 []
secondary_color3_entry secondary_color3ubv _ = queued 1 ((aligned (3 * 1)) ∷ [])
secondary_color3_entry secondary_color3ubv_ext _ = queued 1 ((aligned (3 * 1)) ∷ [])
secondary_color3_entry secondary_color3ui _ = queued 3 []
secondary_color3_entry secondary_color3ui_ext _ = queued 3 []
secondary_color3_entry secondary_color3uiv _ = queued 1 ((aligned (3 * 4)) ∷ [])
secondary_color3_entry secondary_color3uiv_ext _ = queued 1 ((aligned (3 * 4)) ∷ [])
secondary_color3_entry secondary_color3us _ = queued 3 []
secondary_color3_entry secondary_color3us_ext _ = queued 3 []
secondary_color3_entry secondary_color3usv _ = queued 1 ((aligned (3 * 2)) ∷ [])
secondary_color3_entry secondary_color3usv_ext _ = queued 1 ((aligned (3 * 2)) ∷ [])

-- `datacb` behind processArgs.
unfoldable pub secondary_color3_datacb : SecondaryColor3 → (ℕ → ℕ) → ℕ
secondary_color3_datacb secondary_color3bv _ = aligned 1
secondary_color3_datacb secondary_color3bv_ext _ = aligned 1
secondary_color3_datacb secondary_color3dv _ = 3 * 8
secondary_color3_datacb secondary_color3dv_ext _ = 3 * 8
secondary_color3_datacb secondary_color3fv _ = aligned (3 * 4)
secondary_color3_datacb secondary_color3fv_ext _ = aligned (3 * 4)
secondary_color3_datacb secondary_color3iv _ = aligned (3 * 4)
secondary_color3_datacb secondary_color3iv_ext _ = aligned (3 * 4)
secondary_color3_datacb secondary_color3sv _ = aligned 1
secondary_color3_datacb secondary_color3sv_ext _ = aligned 1
secondary_color3_datacb secondary_color3ubv _ = aligned 1
secondary_color3_datacb secondary_color3ubv_ext _ = aligned 1
secondary_color3_datacb secondary_color3uiv _ = aligned (3 * 4)
secondary_color3_datacb secondary_color3uiv_ext _ = aligned (3 * 4)
secondary_color3_datacb secondary_color3usv _ = aligned 1
secondary_color3_datacb secondary_color3usv_ext _ = aligned 1
secondary_color3_datacb _ _ = 0

pub secondary_color3-Agrees :
    (f : SecondaryColor3) (a : ℕ → ℕ)
    → Agrees (secondary_color3_entry f a) (secondary_color3_bytes f) (secondary_color3_datacb f a)
unfolding secondary_color3_entry secondary_color3_bytes secondary_color3_datacb
secondary_color3-Agrees secondary_color3b a = (refl, refl)
secondary_color3-Agrees secondary_color3b_ext a = (refl, refl)
secondary_color3-Agrees secondary_color3bv a = (refl, refl)
secondary_color3-Agrees secondary_color3bv_ext a = (refl, refl)
secondary_color3-Agrees secondary_color3d a = (refl, refl)
secondary_color3-Agrees secondary_color3d_ext a = (refl, refl)
secondary_color3-Agrees secondary_color3dv a = (refl, refl)
secondary_color3-Agrees secondary_color3dv_ext a = (refl, refl)
secondary_color3-Agrees secondary_color3f a = (refl, refl)
secondary_color3-Agrees secondary_color3f_ext a = (refl, refl)
secondary_color3-Agrees secondary_color3fv a = (refl, refl)
secondary_color3-Agrees secondary_color3fv_ext a = (refl, refl)
secondary_color3-Agrees secondary_color3h_nv a = (refl, refl)
secondary_color3-Agrees secondary_color3hv_nv a = (refl, refl)
secondary_color3-Agrees secondary_color3i a = (refl, refl)
secondary_color3-Agrees secondary_color3i_ext a = (refl, refl)
secondary_color3-Agrees secondary_color3iv a = (refl, refl)
secondary_color3-Agrees secondary_color3iv_ext a = (refl, refl)
secondary_color3-Agrees secondary_color3s a = (refl, refl)
secondary_color3-Agrees secondary_color3s_ext a = (refl, refl)
secondary_color3-Agrees secondary_color3sv a = (refl, refl)
secondary_color3-Agrees secondary_color3sv_ext a = (refl, refl)
secondary_color3-Agrees secondary_color3ub a = (refl, refl)
secondary_color3-Agrees secondary_color3ub_ext a = (refl, refl)
secondary_color3-Agrees secondary_color3ubv a = (refl, refl)
secondary_color3-Agrees secondary_color3ubv_ext a = (refl, refl)
secondary_color3-Agrees secondary_color3ui a = (refl, refl)
secondary_color3-Agrees secondary_color3ui_ext a = (refl, refl)
secondary_color3-Agrees secondary_color3uiv a = (refl, refl)
secondary_color3-Agrees secondary_color3uiv_ext a = (refl, refl)
secondary_color3-Agrees secondary_color3us a = (refl, refl)
secondary_color3-Agrees secondary_color3us_ext a = (refl, refl)
secondary_color3-Agrees secondary_color3usv a = (refl, refl)
secondary_color3-Agrees secondary_color3usv_ext a = (refl, refl)
