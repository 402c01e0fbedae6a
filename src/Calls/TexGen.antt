-- ===== src/Calls/TexGen.antt =====
-- The functions glTexGen* of wrappers/mesa/src/wrapgl32.c, their rows of qemu-1/hw/mesa/mglfptbl.h,
-- and their cases of processArgs of qemu-1/hw/mesa/mesapt_mm.c.
use qemu_3dfx.Common.{ℕ, refl, [], ◌∷◌, ◌*◌}
use qemu_3dfx.Sizes.{szglname}
use qemu_3dfx.Calls.{Entry, queued, trapped, aligned, Agrees}
use qemu_3dfx.Calls.Words.{sent-raw, sent-aligned}

-- The enumerators, by the functions' names.
pub data TexGen : Type 0 where
  tex_gend tex_gendv tex_genf : TexGen
  tex_genfv tex_geni tex_geniv : TexGen
  tex_genx_oes tex_genxv_oes : TexGen

-- The bytes that the table has behind the @ of the symbol.
unfoldable pub tex_gen_bytes : TexGen → ℕ
tex_gen_bytes tex_gend = 16
tex_gen_bytes tex_gendv = 12
tex_gen_bytes tex_genf = 12
tex_gen_bytes tex_genfv = 12
tex_gen_bytes tex_geni = 12
tex_gen_bytes tex_geniv = 12
tex_gen_bytes tex_genx_oes = 12
tex_gen_bytes tex_genxv_oes = 12

-- The wrappers.
unfoldable pub tex_gen_entry : TexGen → (ℕ → ℕ) → Entry
tex_gen_entry tex_gend _ = queued 4 []
tex_gen_entry tex_gendv a = queued 3 ((szglname (a 1) * 8) ∷ [])
tex_gen_entry tex_genf _ = queued 3 []
tex_gen_entry tex_genfv a = queued 3 ((aligned (szglname (a 1) * 4)) ∷ [])
tex_gen_entry tex_geni _ = queued 3 []
tex_gen_entry tex_geniv a = queued 3 ((aligned (szglname (a 1) * 4)) ∷ [])
tex_gen_entry tex_genx_oes _ = trapped 3 []
tex_gen_entry tex_genxv_oes _ = trapped 3 []

-- `datacb` behind processArgs.
unfoldable pub tex_gen_datacb : TexGen → (ℕ → ℕ) → ℕ
tex_gen_datacb tex_gendv a = aligned (szglname (a 1) * 8)
tex_gen_datacb tex_genfv a = aligned (szglname (a 1) * 4)
tex_gen_datacb tex_geniv a = aligned (szglname (a 1) * 4)
tex_gen_datacb _ _ = 0

pub tex_gen-Agrees :
    (f : TexGen) (a : ℕ → ℕ) → Agrees (tex_gen_entry f a) (tex_gen_bytes f) (tex_gen_datacb f a)
unfolding tex_gen_entry tex_gen_bytes tex_gen_datacb
tex_gen-Agrees tex_gend a = (refl, refl)
tex_gen-Agrees tex_gendv a = (refl, sent-raw (szglname (a 1) * 8))
tex_gen-Agrees tex_genf a = (refl, refl)
tex_gen-Agrees tex_genfv a = (refl, sent-aligned (szglname (a 1) * 4))
tex_gen-Agrees tex_geni a = (refl, refl)
tex_gen-Agrees tex_geniv a = (refl, sent-aligned (szglname (a 1) * 4))
tex_gen-Agrees tex_genx_oes a = (refl, refl)
tex_gen-Agrees tex_genxv_oes a = (refl, refl)
