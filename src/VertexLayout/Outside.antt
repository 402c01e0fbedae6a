-- ===== src/VertexLayout/Outside.antt =====
-- Parameters that `vlut` has no place for.
use qemu_3dfx.Common.{ℕ, ◌/◌, ◌%◌, ◌≤◌, ◌<◌, ◌≡◌, ◌≢◌, [], ◌∷◌, arith, ==_of_ne, length, refl}
use qemu_3dfx.VertexLayout.{gr_param_idx, no_layout, vlut_writes}

-- Behind the end, at an index that is no negative int.
abbrev pub IsBehind : ℕ → Type 0
IsBehind i = (length no_layout ≤ i) × (i < 0x80000000)

index-IsBehind :
    (param : ℕ)
    → 0x80 ≤ param
    → param < 0x7fffff00
    → param / 0x10 % 0x10 ≢ 0
    → IsBehind (gr_param_idx param)
unfolding gr_param_idx
index-IsBehind param far top set = ground arith

only_write :
    (param offs mode : ℕ)
    → 0x80 ≤ param
    → mode ≢ 0
    → vlut_writes param offs mode ≡ (gr_param_idx param, offs) ∷ []
unfolding vlut_writes
only_write param offs mode far on =
    rw (==_of_ne mode 0 on, ==_of_ne param 0x30 (omega arith), ==_of_ne param 0x20 (omega arith))
      refl

-- For a parameter from 0x80 up to 0x7fffff00 whose bits 4 to 7 are not all 0, and a mode other than
-- 0, vlut_vvars makes one assignment: it stores the offset at an index behind the end of `vlut`.
pub param_outside :
    (param offs mode : ℕ)
    → 0x80 ≤ param
    → param < 0x7fffff00
    → param / 0x10 % 0x10 ≢ 0
    → mode ≢ 0
    → (vlut_writes param offs mode ≡ (gr_param_idx param, offs) ∷ [])
      × IsBehind (gr_param_idx param)
param_outside param offs mode far top set on =
    (only_write param offs mode far on, index-IsBehind param far top set)
