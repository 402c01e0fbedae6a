-- ===== src/Sync/Examples.antt =====
-- Tests of the sync objects, and the theorems of Sync/Handles at inputs.
use qemu_3dfx.Common.{ℕ, ◌≡◌, refl, List, [], ◌∷◌, arith, ◌==◌, if◌then◌else◌}
use qemu_3dfx.Sync.{
  SyncObj, int32_max, init_sync_obj, new_sync_obj, add_walk, add_sync_obj, lookup_sync_obj,
  delete_sync_obj,
}
use qemu_3dfx.Sync.Handles.{IsTable, handle, lookup-add, lookup-delete, add_twice}

-- A stand-in for the processor's checksum.
abbrev sum : ℕ → ℕ → ℕ
sum seed s = s

abbrev two : List SyncObj
two = record { sync = 40; g_sync = 40 } ∷ record { sync = 48; g_sync = 48 } ∷ []

unknown_handle : lookup_sync_obj 41 two ≡ int32_max
unfolding lookup_sync_obj
unknown_handle = refl

added_last : add_sync_obj sum 56 two ≡ (
  56,
  record { sync = 40; g_sync = 40 }
      ∷ record { sync = 48; g_sync = 48 }
      ∷ record { sync = 56; g_sync = 56 }
      ∷ [],
)
unfolding add_sync_obj add_walk new_sync_obj
added_last = refl

initialised : init_sync_obj two ≡ []
unfolding init_sync_obj
initialised = refl

-- The first pointer of an empty list.
first : lookup_sync_obj 56 (add_sync_obj sum 56 []).1 ≡ 56
unfolding add_sync_obj add_walk new_sync_obj lookup_sync_obj
first = refl

lookup-add_example :
    ((add_sync_obj sum 56 two).0 ≡ handle sum 56)
    × (lookup_sync_obj 48 (add_sync_obj sum 56 two).1
        ≡ (if 48 == (add_sync_obj sum 56 two).0 then 56 else lookup_sync_obj 48 two))
    × IsTable sum (add_sync_obj sum 56 two).1
lookup-add_example = lookup-add sum 56 48 two (omega arith) (omega arith) (omega arith)

lookup-delete_example :
    ((delete_sync_obj 48 two).0 ≡ 48)
    × (lookup_sync_obj (handle sum 48) (delete_sync_obj 48 two).1 ≡ int32_max)
    × (lookup_sync_obj 40 (delete_sync_obj 48 two).1 ≡ lookup_sync_obj 40 two)
    × IsTable sum (delete_sync_obj 48 two).1
lookup-delete_example = lookup-delete sum 48 40 two (omega arith) (omega arith) (omega arith)

add_twice_example : add_sync_obj sum 48 (add_sync_obj sum 48 two).1 ≡ add_sync_obj sum 48 two
add_twice_example = add_twice sum 48 two
