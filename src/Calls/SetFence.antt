-- ===== src/Calls/SetFence.antt =====
-- The functions glSetFence* of wrappers/mesa/src/wrapgl32.c, their rows of qemu-1/hw/mesa/mglfptbl.h,
-- and their cases of processArgs of qemu-1/hw/mesa/mesapt_mm.c.
use qemu_3dfx.Common.{ℕ, ◌≡◌, refl, [], Bool, true, false}
use qemu_3dfx.Calls.{Entry, queued, Agrees}

-- The enumerators, by the functions' names.
pub data SetFence : Type 0 where
  set_fence_apple set_fence_nv : SetFence

-- The bytes that the table has behind the @ of the symbol.
unfoldable pub set_fence_bytes : SetFence → ℕ
set_fence_bytes set_fence_apple = 4
set_fence_bytes set_fence_nv = 8

-- The wrappers.
unfoldable pub set_fence_entry : SetFence → (ℕ → ℕ) → Entry
set_fence_entry set_fence_apple _ = queued 1 []
set_fence_entry set_fence_nv _ = queued 1 []

-- `datacb` behind processArgs.
unfoldable pub set_fence_datacb : SetFence → (ℕ → ℕ) → ℕ
set_fence_datacb _ _ = 0

-- The calls for which both sides agree.
abbrev pub set_fence_handled : SetFence → (ℕ → ℕ) → Bool
set_fence_handled set_fence_nv _ = false
set_fence_handled _ _ = true

pub set_fence-Agrees :
    (f : SetFence) (a : ℕ → ℕ)
    → set_fence_handled f a ≡ true
    → Agrees (set_fence_entry f a) (set_fence_bytes f) (set_fence_datacb f a)
unfolding set_fence_entry set_fence_bytes set_fence_datacb
set_fence-Agrees set_fence_apple a h = (refl, refl)
set_fence-Agrees set_fence_nv a h = cc
