-- ===== src/Calls/TexCoord1.antt =====
-- The functions glTexCoord1* of wrappers/mesa/src/wrapgl32.c, their rows of qemu-1/hw/mesa/mglfptbl.h,
-- and their cases of processArgs of qemu-1/hw/mesa/mesapt_mm.c.
use qemu_3dfx.Common.{ℕ, ◌≡◌, refl, [], ◌∷◌, Bool, true, false}
use qemu_3dfx.Calls.{Entry, queued, trapped, aligned, Agrees}

-- The enumerators, by the functions' names.
pub data TexCoord1 : Type 0 where
  tex_coord1b_oes tex_coord1bv_oes tex_coord1d : TexCoord1
  tex_coord1dv tex_coord1f tex_coord1fv : TexCoord1
  tex_coord1h_nv tex_coord1hv_nv tex_coord1i : TexCoord1
  tex_coord1iv tex_coord1s tex_coord1sv : TexCoord1
  tex_coord1x_oes tex_coord1xv_oes : TexCoord1

-- The bytes that the table has behind the @ of the symbol.
unfoldable pub tex_coord1_bytes : TexCoord1 → ℕ
tex_coord1_bytes tex_coord1b_oes = 4
tex_coord1_bytes tex_coord1bv_oes = 4
tex_coord1_bytes tex_coord1d = 8
tex_coord1_bytes tex_coord1dv = 4
tex_coord1_bytes tex_coord1f = 4
tex_coord1_bytes tex_coord1fv = 4
tex_coord1_bytes tex_coord1h_nv = 4
tex_coord1_bytes tex_coord1hv_nv = 4
tex_coord1_bytes tex_coord1i = 4
tex_coord1_bytes tex_coord1iv = 4
tex_coord1_bytes tex_coord1s = 4
tex_coord1_bytes tex_coord1sv = 4
tex_coord1_bytes tex_coord1x_oes = 4
tex_coord1_bytes tex_coord1xv_oes = 4

-- The wrappers.
unfoldable pub tex_coord1_entry : TexCoord1 → (ℕ → ℕ) → Entry
tex_coord1_entry tex_coord1b_oes _ = trapped 1 []
tex_coord1_entry tex_coord1bv_oes _ = trapped 1 []
tex_coord1_entry tex_coord1d _ = queued 2 []
tex_coord1_entry tex_coord1dv _ = queued 1 (8 ∷ [])
tex_coord1_entry tex_coord1f _ = queued 1 []
tex_coord1_entry tex_coord1fv _ = queued 1 ((aligned 4) ∷ [])
tex_coord1_entry tex_coord1h_nv _ = trapped 1 []
tex_coord1_entry tex_coord1hv_nv _ = trapped 1 []
tex_coord1_entry tex_coord1i _ = queued 1 []
tex_coord1_entry tex_coord1iv _ = queued 1 ((aligned 4) ∷ [])
tex_coord1_entry tex_coord1s _ = queued 1 []
tex_coord1_entry tex_coord1sv _ = queued 1 ((aligned 2) ∷ [])
tex_coord1_entry tex_coord1x_oes _ = trapped 1 []
tex_coord1_entry tex_coord1xv_oes _ = trapped 1 []

-- `datacb` behind processArgs.
unfoldable pub tex_coord1_datacb : TexCoord1 → (ℕ → ℕ) → ℕ
tex_coord1_datacb _ _ = 0

-- The calls for which both sides agree.
abbrev pub tex_coord1_handled : TexCoord1 → (ℕ → ℕ) → Bool
tex_coord1_handled tex_coord1dv _ = false
tex_coord1_handled tex_coord1fv _ = false
tex_coord1_handled tex_coord1iv _ = false
tex_coord1_handled tex_coord1sv _ = false
tex_coord1_handled _ _ = true

pub tex_coord1-Agrees :
    (f : TexCoord1) (a : ℕ → ℕ)
    → tex_coord1_handled f a ≡ true
    → Agrees (tex_coord1_entry f a) (tex_coord1_bytes f) (tex_coord1_datacb f a)
unfolding tex_coord1_entry tex_coord1_bytes tex_coord1_datacb
tex_coord1-Agrees tex_coord1b_oes a h = (refl, refl)
tex_coord1-Agrees tex_coord1bv_oes a h = (refl, refl)
tex_coord1-Agrees tex_coord1d a h = (refl, refl)
tex_coord1-Agrees tex_coord1dv a h = cc
tex_coord1-Agrees tex_coord1f a h = (refl, refl)
tex_coord1-Agrees tex_coord1fv a h = cc
tex_coord1-Agrees tex_coord1h_nv a h = (refl, refl)
tex_coord1-Agrees tex_coord1hv_nv a h = (refl, refl)
tex_coord1-Agrees tex_coord1i a h = (refl, refl)
tex_coord1-Agrees tex_coord1iv a h = cc
tex_coord1-Agrees tex_coord1s a h = (refl, refl)
tex_coord1-Agrees tex_coord1sv a h = cc
tex_coord1-Agrees tex_coord1x_oes a h = (refl, refl)
tex_coord1-Agrees tex_coord1xv_oes a h = (refl, refl)
