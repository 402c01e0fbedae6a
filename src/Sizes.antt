-- ===== src/Sizes.antt =====
-- qemu-1/hw/mesa/szgldata.c: the bytes of a pixel or of a vertex array element, and the number of
-- values of a GL parameter. A GL constant is its number.
mod Pixels
mod Names
pub mod Bounds
mod Examples
use qemu_3dfx.Common.{ℕ, ◌*◌, ◌/◌, Bool, true, false, List, [], ◌∷◌, ◌==◌, if◌then◌else◌}
pub use Pixels.{gltype, glformat, packed_types}
pub use Names.{glpname}

-- The loop of `sztype`, `szformat` and `szpname`: the size in the first row with the key, or 1 at
-- the closing row.
pub size_of : ℕ → List (ℕ × ℕ) → ℕ
size_of key [] = 1
size_of key ((k, n) ∷ rows) = if key == k then n else size_of key rows

pub sztype : ℕ → ℕ
unfolding size_of
sztype type = size_of type gltype

pub szformat : ℕ → ℕ
unfolding size_of
szformat format = size_of format glformat

pub szpname : ℕ → ℕ
unfolding size_of
szpname pname = size_of pname glpname

pub one_of : ℕ → List ℕ → Bool
one_of key [] = false
one_of key (k ∷ ks) = if key == k then true else one_of key ks

-- The switch of `szgldata`.
pub is_packed : ℕ → Bool
unfolding one_of
is_packed type = one_of type packed_types

unfoldable pub szgldata : ℕ → ℕ → ℕ
unfolding sztype szformat is_packed
szgldata format type =
    let ret = szformat format * sztype type in if is_packed type then ret / szformat format else ret

unfoldable pub szglname : ℕ → ℕ
unfolding szpname
szglname pname = szpname pname
