-- ===== src/VertexCache/Bounds.antt =====
-- Every pointer that mglvarry.c hands out for an address above the first page lies in its
-- allocation, with the room that it reports; one for the first page does not.
use qemu_3dfx.Common.{
  ℕ, ◌+◌, ◌*◌, ◌/◌, ◌≤◌, ◌<◌, ◌^◌, ◌≡◌, refl, inl, inr, some, List, [], ◌∷◌, arith, true, All,
  Bool-cases, ==_of_ne,
}
use qemu_3dfx.VertexCache.{VertArry, page_size, Slice, covers, alloc, slice, walk, lookup_vert_arry}

-- The allocation is as long as the guest range, which does not wrap.
abbrev pub IsBlock : VertArry → Type 0
IsBlock p = (p.tag_lo + p.bytes ≡ p.tag_hi) × (p.tag_hi < 2 ^ 32)

-- The pointer lies in the allocation, which ends where the room ends.
abbrev pub InBlock : Slice → Type 0
InBlock s = (s.offset < s.block.bytes) × (s.offset + s.room ≡ s.block.bytes)

-- The address is above the first page, and the range of a new allocation does not wrap.
abbrev pub Fits : ℕ → ℕ → Type 0
Fits handle size = (page_size ≤ handle) × (0 < size) × (handle + size * 2 < 2 ^ 32)

alloc-IsBlock : (handle size : ℕ) → Fits handle size → IsBlock (alloc handle size)
unfolding alloc
alloc-IsBlock handle size f = ground arith

slice-alloc :
    (handle size : ℕ)
    → Fits handle size
    → InBlock (slice (alloc handle size) handle)
      × (size / 2 ≤ (slice (alloc handle size) handle).room)
unfolding alloc slice
slice-alloc handle size f = ground arith

slice-covers :
    (p : VertArry) (handle size : ℕ)
    → IsBlock p
    → Fits handle size
    → covers p handle size ≡ true
    → InBlock (slice p handle) × (size / 2 ≤ (slice p handle).room)
unfolding covers slice
slice-covers p handle size b f h = ground arith

walk-InBlock :
    (handle size : ℕ) (l : List VertArry)
    → All IsBlock l
    → Fits handle size
    → let (p, rest) = walk handle size l in
      InBlock (slice p handle) × (size / 2 ≤ (slice p handle).room) × All IsBlock rest
unfolding walk
walk-InBlock handle size [] b f =
    let h = slice-alloc handle size f in (h.0, h.1, (alloc-IsBlock handle size f, tt))
walk-InBlock handle size (p ∷ next) b f = elim (Bool-cases (covers p handle size)) [
  | inl e ↦ rw e (let h = slice-covers p handle size b.0 f e in (h.0, h.1, b))
  | inr e ↦ rw e (let ih = walk-InBlock handle size next b.1 f in (ih.0, ih.1, (b.0, ih.2)))
]

-- For an address above the first page, whose allocation would not wrap, a look-up in a list of
-- sound allocations gives a pointer inside an allocation that ends where the reported room ends,
-- with at least half the asked size left; and the list stays sound.
pub lookup-InBlock :
    (handle size : ℕ) (l : List VertArry)
    → All IsBlock l
    → Fits handle size
    → (s : Slice) × ((lookup_vert_arry handle size l).0 ≡ some s)
      × InBlock s
      × (size / 2 ≤ s.room)
      × All IsBlock (lookup_vert_arry handle size l).1
unfolding lookup_vert_arry
lookup-InBlock handle size l b f = rw (==_of_ne handle 0 (omega arith)) (
    let h = walk-InBlock handle size l b f in
    (slice (walk handle size l).0 handle, refl, h.0, h.1, h.2))

-- A non-zero address in the first page that is at most the asked size gets, from the empty list, a
-- pointer past the end of the allocation, together with room for more than the whole of it.
pub lookup_first_page :
    (handle size : ℕ)
    → 0 < handle
    → handle < page_size
    → handle ≤ size
    → size * 2 + page_size < 2 ^ 32
    → (s : Slice) × ((lookup_vert_arry handle size []).0 ≡ some s)
      × (s.block.bytes < s.offset)
      × (s.block.bytes < s.room)
unfolding lookup_vert_arry
lookup_first_page handle size p q r h =
    rw (==_of_ne handle 0 (omega arith))
      (slice (alloc handle size) handle, refl, ground arith, ground arith)
