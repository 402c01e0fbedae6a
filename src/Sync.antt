-- ===== src/Sync.antt =====
-- qemu-1/hw/mesa/mglmapbo.c, the sync objects: a linked list that gives each host sync pointer
-- a 32-bit handle for the guest. The list is in the order of its `next` pointers.
pub mod Handles
mod Examples
use qemu_3dfx.Common.{ℕ, ◌%◌, ◌^◌, Bool, true, false, List, [], ◌∷◌, ◌==◌, if◌then◌else◌}

-- `SYNCO`, its `next` pointer left out.
pub record SyncObj : Type 0 where
  pub sync : ℕ
  pub g_sync : ℕ

abbrev pub int32_max : ℕ
int32_max = 2147483647

-- `InitSyncObj` frees every element and leaves the list empty.
pub init_sync_obj : List SyncObj → List SyncObj
init_sync_obj [] = []
init_sync_obj (p ∷ next) = init_sync_obj next

-- `_mm_crc32_u64` is an instruction of the processor, not code of the repository.
module _ (crc32_u64 : ℕ → ℕ → ℕ) where
  -- A fresh element: its `g_sync` was zeroed by `g_new0` when the sum is taken.
  pub new_sync_obj : ℕ → SyncObj
  new_sync_obj s = record { sync = s; g_sync = crc32_u64 0 s % 2 ^ 32 }

  -- The walk to the element that holds `sync`, or the append behind the last one.
  pub add_walk : ℕ → List SyncObj → ℕ × List SyncObj
  unfolding new_sync_obj
  add_walk s [] = ((new_sync_obj s).g_sync, new_sync_obj s ∷ [])
  add_walk s (p ∷ next) =
      let (g, next') = add_walk s next in
      if p.sync == s then (p.g_sync, p ∷ next) else (g, p ∷ next')

  -- `AddSyncObj`
  pub add_sync_obj : ℕ → List SyncObj → ℕ × List SyncObj
  add_sync_obj s psynco = if s == 0 then (0, psynco) else add_walk s psynco

-- `LookupSyncObj`
pub lookup_sync_obj : ℕ → List SyncObj → ℕ
lookup_sync_obj g [] = int32_max
lookup_sync_obj g (p ∷ next) = if p.g_sync == g then p.sync else lookup_sync_obj g next

-- The unlinking of `DeleteSyncObj`: the first element that holds `sync` goes.
pub delete_walk : ℕ → List SyncObj → List SyncObj
delete_walk s [] = []
delete_walk s (p ∷ next) = if p.sync == s then next else p ∷ delete_walk s next

-- `DeleteSyncObj`, which hands its argument back.
pub delete_sync_obj : ℕ → List SyncObj → ℕ × List SyncObj
delete_sync_obj s psynco = (s, delete_walk s psynco)
