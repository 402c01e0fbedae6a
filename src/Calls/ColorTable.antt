-- ===== src/Calls/ColorTable.antt =====
-- The functions glColorTable* of wrappers/mesa/src/wrapgl32.c, their rows of qemu-1/hw/mesa/mglfptbl.h,
-- and their cases of processArgs of qemu-1/hw/mesa/mesapt_mm.c.
use qemu_3dfx.Common.{ℕ, ◌≡◌, refl, [], ◌∷◌, ◌*◌, Bool, true, false}
use qemu_3dfx.Sizes.{szgldata, szglname}
use qemu_3dfx.Calls.{Entry, queued, trapped, aligned, Agrees}
use qemu_3dfx.Calls.Words.{sent-aligned}

-- The enumerators, by the functions' names.
pub data ColorTable : Type 0 where
  color_table color_table_ext color_table_parameterfv : ColorTable
  color_table_parameterfv_sgi color_table_parameteriv color_table_parameteriv_sgi : ColorTable
  color_table_sgi : ColorTable

-- The bytes that the table has behind the @ of the symbol.
unfoldable pub color_table_bytes : ColorTable → ℕ
color_table_bytes color_table = 24
color_table_bytes color_table_ext = 24
color_table_bytes color_table_parameterfv = 12
color_table_bytes color_table_parameterfv_sgi = 12
color_table_bytes color_table_parameteriv = 12
color_table_bytes color_table_parameteriv_sgi = 12
color_table_bytes color_table_sgi = 24

-- The wrappers.
unfoldable pub color_table_entry : ColorTable → (ℕ → ℕ) → Entry
color_table_entry color_table a = queued 6 ((aligned (a 2 * szgldata (a 3) (a 4))) ∷ [])
color_table_entry color_table_ext a = queued 6 ((aligned (a 2 * szgldata (a 3) (a 4))) ∷ [])
color_table_entry color_table_parameterfv a = queued 3 ((aligned (szglname (a 1) * 4)) ∷ [])
color_table_entry color_table_parameterfv_sgi _ = trapped 3 []
color_table_entry color_table_parameteriv a = queued 3 ((aligned (szglname (a 1) * 4)) ∷ [])
color_table_entry color_table_parameteriv_sgi _ = trapped 3 []
color_table_entry color_table_sgi _ = trapped 6 []

-- `datacb` behind processArgs.
unfoldable pub color_table_datacb : ColorTable → (ℕ → ℕ) → ℕ
color_table_datacb color_table a = aligned (a 2 * szgldata (a 3) (a 4))
color_table_datacb color_table_ext a = aligned (a 2 * szgldata (a 3) (a 4))
color_table_datacb _ _ = 0

-- The calls for which both sides agree.
abbrev pub color_table_handled : ColorTable → (ℕ → ℕ) → Bool
color_table_handled color_table_parameterfv _ = false
color_table_handled color_table_parameteriv _ = false
color_table_handled _ _ = true

pub color_table-Agrees :
    (f : ColorTable) (a : ℕ → ℕ)
    → color_table_handled f a ≡ true
    → Agrees (color_table_entry f a) (color_table_bytes f) (color_table_datacb f a)
unfolding color_table_entry color_table_bytes color_table_datacb
color_table-Agrees color_table a h = (refl, sent-aligned (a 2 * szgldata (a 3) (a 4)))
color_table-Agrees color_table_ext a h = (refl, sent-aligned (a 2 * szgldata (a 3) (a 4)))
color_table-Agrees color_table_parameterfv a h = cc
color_table-Agrees color_table_parameterfv_sgi a h = (refl, refl)
color_table-Agrees color_table_parameteriv a h = cc
color_table-Agrees color_table_parameteriv_sgi a h = (refl, refl)
color_table-Agrees color_table_sgi a h = (refl, refl)
