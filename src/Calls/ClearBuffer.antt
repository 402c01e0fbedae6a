-- ===== src/Calls/ClearBuffer.antt =====
-- The functions glClearBuffer* of wrappers/mesa/src/wrapgl32.c, their rows of qemu-1/hw/mesa/mglfptbl.h,
-- and their cases of processArgs of qemu-1/hw/mesa/mesapt_mm.c.
use qemu_3dfx.Common.{ℕ, ◌≡◌, refl, [], ◌∷◌, ◌*◌, arith, if◌then◌else◌, ◌==◌, Bool, true}
use qemu_3dfx.Calls.{Entry, queued, Agrees}

-- The enumerators, by the functions' names.
pub data ClearBuffer : Type 0 where
  clear_bufferfi clear_bufferfv clear_bufferiv : ClearBuffer
  clear_bufferuiv : ClearBuffer

-- The bytes that the table has behind the @ of the symbol.
unfoldable pub clear_buffer_bytes : ClearBuffer → ℕ
clear_buffer_bytes clear_bufferfi = 16
clear_buffer_bytes clear_bufferfv = 12
clear_buffer_bytes clear_bufferiv = 12
clear_buffer_bytes clear_bufferuiv = 12

-- The wrappers.
unfoldable pub clear_buffer_entry : ClearBuffer → (ℕ → ℕ) → Entry
clear_buffer_entry clear_bufferfi _ = queued 4 []
clear_buffer_entry clear_bufferfv a = queued 3 ((if a 0 == 0x1800 then 4 * 4 else 4) ∷ [])
clear_buffer_entry clear_bufferiv a = queued 3 ((if a 0 == 0x1800 then 4 * 4 else 4) ∷ [])
clear_buffer_entry clear_bufferuiv a = queued 3 ((if a 0 == 0x1800 then 4 * 4 else 4) ∷ [])

-- `datacb` behind processArgs.
unfoldable pub clear_buffer_datacb : ClearBuffer → (ℕ → ℕ) → ℕ
clear_buffer_datacb clear_bufferfv a = if a 0 == 0x1800 then 4 * 4 else 4
clear_buffer_datacb clear_bufferiv a = if a 0 == 0x1800 then 4 * 4 else 4
clear_buffer_datacb clear_bufferuiv a = if a 0 == 0x1800 then 4 * 4 else 4
clear_buffer_datacb _ _ = 0

-- The calls for which both sides agree.
abbrev pub clear_buffer_handled : ClearBuffer → (ℕ → ℕ) → Bool
clear_buffer_handled clear_bufferfv a = a 0 == 0x1800
clear_buffer_handled clear_bufferiv a = a 0 == 0x1800
clear_buffer_handled clear_bufferuiv a = a 0 == 0x1800
clear_buffer_handled _ _ = true

pub clear_buffer-Agrees :
    (f : ClearBuffer) (a : ℕ → ℕ)
    → clear_buffer_handled f a ≡ true
    → Agrees (clear_buffer_entry f a) (clear_buffer_bytes f) (clear_buffer_datacb f a)
unfolding clear_buffer_entry clear_buffer_bytes clear_buffer_datacb
clear_buffer-Agrees clear_bufferfi a h = (refl, refl)
clear_buffer-Agrees clear_bufferfv a h = ground arith
clear_buffer-Agrees clear_bufferiv a h = ground arith
clear_buffer-Agrees clear_bufferuiv a h = ground arith
