-- ===== src/Calls/TextureBuffer.antt =====
-- The functions glTextureBuffer* of wrappers/mesa/src/wrapgl32.c, their rows of qemu-1/hw/mesa/mglfptbl.h,
-- and their cases of processArgs of qemu-1/hw/mesa/mesapt_mm.c.
use qemu_3dfx.Common.{ℕ, ◌≡◌, refl, [], Bool, true, false}
use qemu_3dfx.Calls.{Entry, queued, trapped, Agrees}

-- The enumerators, by the functions' names.
pub data TextureBuffer : Type 0 where
  texture_buffer texture_buffer_ext texture_buffer_range : TextureBuffer
  texture_buffer_range_ext : TextureBuffer

-- The bytes that the table has behind the @ of the symbol.
unfoldable pub texture_buffer_bytes : TextureBuffer → ℕ
texture_buffer_bytes texture_buffer = 12
texture_buffer_bytes texture_buffer_ext = 16
texture_buffer_bytes texture_buffer_range = 20
texture_buffer_bytes texture_buffer_range_ext = 24

-- The wrappers.
unfoldable pub texture_buffer_entry : TextureBuffer → (ℕ → ℕ) → Entry
texture_buffer_entry texture_buffer _ = queued 3 []
texture_buffer_entry texture_buffer_ext _ = queued 3 []
texture_buffer_entry texture_buffer_range _ = trapped 5 []
texture_buffer_entry texture_buffer_range_ext _ = trapped 6 []

-- `datacb` behind processArgs.
unfoldable pub texture_buffer_datacb : TextureBuffer → (ℕ → ℕ) → ℕ
texture_buffer_datacb _ _ = 0

-- The calls for which both sides agree.
abbrev pub texture_buffer_handled : TextureBuffer → (ℕ → ℕ) → Bool
texture_buffer_handled texture_buffer_ext _ = false
texture_buffer_handled _ _ = true

pub texture_buffer-Agrees :
    (f : TextureBuffer) (a : ℕ → ℕ)
    → texture_buffer_handled f a ≡ true
    → Agrees (texture_buffer_entry f a) (texture_buffer_bytes f) (texture_buffer_datacb f a)
unfolding texture_buffer_entry texture_buffer_bytes texture_buffer_datacb
texture_buffer-Agrees texture_buffer a h = (refl, refl)
texture_buffer-Agrees texture_buffer_ext a h = cc
texture_buffer-Agrees texture_buffer_range a h = (refl, refl)
texture_buffer-Agrees texture_buffer_range_ext a h = (refl, refl)
