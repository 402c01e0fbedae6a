-- ===== src/Calls/BindSampler.antt =====
-- The functions glBindSampler* of wrappers/mesa/src/wrapgl32.c, their rows of qemu-1/hw/mesa/mglfptbl.h,
-- and their cases of processArgs of qemu-1/hw/mesa/mesapt_mm.c.
use qemu_3dfx.Common.{ℕ, refl, [], ◌∷◌, ◌*◌}
use qemu_3dfx.Calls.{Entry, queued, aligned, Agrees}
use qemu_3dfx.Calls.Words.{sent-raw}

-- The enumerators, by the functions' names.
pub data BindSampler : Type 0 where
  bind_sampler bind_samplers : BindSampler

-- The bytes that the table has behind the @ of the symbol.
unfoldable pub bind_sampler_bytes : BindSampler → ℕ
bind_sampler_bytes bind_sampler = 8
bind_sampler_bytes bind_samplers = 12

-- The wrappers.
unfoldable pub bind_sampler_entry : BindSampler → (ℕ → ℕ) → Entry
bind_sampler_entry bind_sampler _ = queued 2 []
bind_sampler_entry bind_samplers a = queued 3 ((a 1 * 4) ∷ [])

-- `datacb` behind processArgs.
unfoldable pub bind_sampler_datacb : BindSampler → (ℕ → ℕ) → ℕ
bind_sampler_datacb bind_samplers a = aligned (a 1 * 4)
bind_sampler_datacb _ _ = 0

pub bind_sampler-Agrees :
    (f : BindSampler) (a : ℕ → ℕ)
    → Agrees (bind_sampler_entry f a) (bind_sampler_bytes f) (bind_sampler_datacb f a)
unfolding bind_sampler_entry bind_sampler_bytes bind_sampler_datacb
bind_sampler-Agrees bind_sampler a = (refl, refl)
bind_sampler-Agrees bind_samplers a = (refl, sent-raw (a 1 * 4))
