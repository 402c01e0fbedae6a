-- ===== src/VertexCache.antt =====
-- qemu-1/hw/mesa/mglvarry.c, the host memory behind the guest's vertex arrays: a linked list of
-- allocations, each for a range of guest addresses.
pub mod Bounds
mod Examples
use qemu_3dfx.Common.{
  ℕ, ◌+◌, ◌-◌, ◌*◌, ◌/◌, ◌%◌, ◌^◌, Bool, ◌&&◌, ◌||◌, Option, none, some, List, [], ◌∷◌, ltb, leb,
  ◌==◌, if◌then◌else◌,
}

-- `VERTARRY`: the guest range, and the length of the allocation at `ptr`.
pub record VertArry : Type 0 where
  pub tag_lo : ℕ
  pub tag_hi : ℕ
  pub bytes : ℕ

-- `PAGE_SIZE`
abbrev pub page_size : ℕ
page_size = 0x1000

-- `uint32_t` subtraction
abbrev pub sub32 : ℕ → ℕ → ℕ
sub32 a b = (a + 2 ^ 32 - b) % 2 ^ 32

-- What a look-up hands out: the element, the offset of the pointer in its allocation as the code
-- computes it, and the room behind the pointer.
pub record Slice : Type 0 where
  pub block : VertArry
  pub offset : ℕ
  pub room : ℕ

-- The test of the walk.
pub covers : VertArry → ℕ → ℕ → Bool
covers p handle size =
    ((leb p.tag_lo handle || p.tag_lo == page_size) && ltb handle p.tag_hi)
    && leb (size / 2) (sub32 p.tag_hi handle)

-- A new element for the handle.
pub alloc : ℕ → ℕ → VertArry
alloc handle size =
    let lo = if ltb size handle then handle - size else page_size in
    record { tag_lo = lo; tag_hi = (lo + size * 2 % 2 ^ 32) % 2 ^ 32; bytes = size * 2 % 2 ^ 32 }

pub slice : VertArry → ℕ → Slice
slice p handle = record { block = p; offset = sub32 handle p.tag_lo; room = sub32 p.tag_hi handle }

-- The walk to the first element that covers the handle, or the append behind the last one.
pub walk : ℕ → ℕ → List VertArry → VertArry × List VertArry
unfolding covers alloc
walk handle size [] = (alloc handle size, alloc handle size ∷ [])
walk handle size (p ∷ next) =
    let (q, next') = walk handle size next in
    if covers p handle size then (p, p ∷ next) else (q, p ∷ next')

-- `LookupVertArry`; `none` is the null pointer, for which `room` is not written.
unfoldable pub lookup_vert_arry : ℕ → ℕ → List VertArry → Option Slice × List VertArry
unfolding walk slice
lookup_vert_arry handle size vertex_arry =
    if handle == 0
    then (none, vertex_arry)
    else (let (p, rest) = walk handle size vertex_arry in (some (slice p handle), rest))

-- `FreeVertArry`: the number of elements freed, and the empty list.
pub free_vert_arry : ℕ → List VertArry → ℕ × List VertArry
free_vert_arry cnt [] = (cnt, [])
free_vert_arry cnt (p ∷ next) = free_vert_arry (cnt + 1) next
