-- ===== src/VertexStream/Window.antt =====
-- `vtxarry_push` of mesapt_mm.c writes inside the room behind the array's pointer, and with a pointer
-- of mglvarry.c inside its allocation, whatever start, distance and length the guest gives.
use qemu_3dfx.Common.{
  ℕ, ◌+◌, ◌-◌, ◌≤◌, ◌<◌, ◌≡◌, refl, ◌⊎◌, inl, inr, Option, none, some, List, All, arith, Bool-cases,
  ltb, leb,
}
use qemu_3dfx.Common.Int.{ℤ, pos, negsuc, ◌*ℤ◌}
use qemu_3dfx.VertexCache.{VertArry, Slice, lookup_vert_arry}
use qemu_3dfx.VertexCache.Bounds.{IsBlock, Fits, lookup-InBlock}
use qemu_3dfx.VertexStream.{push_at, vtxarry_push}

-- Nothing was copied and 1 returned, for a negative offset or length or an offset behind the room;
-- or bytes from the offset on: all of them and 0 returned, or those that fit and 1.
abbrev pub Pushed : ℕ → ℤ → ℤ → ℕ × Option (ℕ × ℕ) → Type 0
Pushed room at len (ret, none) =
    (ret ≡ 1)
    × (((n : ℕ) × (at ≡ negsuc n))
        ⊎ (((n : ℕ) × (len ≡ negsuc n)) ⊎ ((n : ℕ) × (at ≡ pos n) × (room ≤ n))))
Pushed room at len (ret, some (d, n)) =
    (at ≡ pos d)
    × (d + n ≤ room)
    × (((ret ≡ 0) × (len ≡ pos n))
        ⊎ ((ret ≡ 1) × ((k : ℕ) × (len ≡ pos k) × (n < k)) × (d + n ≡ room)))

push_at-Pushed : (room : ℕ) (at len : ℤ) → Pushed room at len (push_at room at len)
unfolding push_at
push_at-Pushed room (negsuc d) len = (refl, inl (d, refl))
push_at-Pushed room (pos d) (negsuc l) = (refl, inr (inl (l, refl)))
push_at-Pushed room (pos d) (pos len) = elim (Bool-cases (leb room d)) [
  | inl e ↦ rw e (refl, inr (inr (d, refl, ground arith)))
  | inr e ↦ rw e (elim (Bool-cases (ltb (room - d) len)) [
    | inl f ↦ rw f (refl, ground arith, inr (refl, (len, refl, ground arith), ground arith))
    | inr f ↦ rw f (refl, ground arith, inl (refl, refl))
  ])
]

-- vtxarry_push either copies nothing and returns 1, and then the offset `cb_elem * start` is below
-- zero or behind the room, or the length is below zero; or it copies from that offset on, inside the
-- room: the whole length and returns 0, or as much as fits, which is less, and returns 1.
pub vtxarry_push-Pushed :
    (room : ℕ) (cb_elem start len : ℤ)
    → Pushed room (cb_elem *ℤ start) len (vtxarry_push room cb_elem start len)
unfolding vtxarry_push
vtxarry_push-Pushed room cb_elem start len = push_at-Pushed room (cb_elem *ℤ start) len

-- The end of what was copied, from the array's pointer on.
abbrev pub copied_end : ℕ × Option (ℕ × ℕ) → ℕ
copied_end (ret, none) = 0
copied_end (ret, some (d, n)) = d + n

Pushed-end :
    (room : ℕ) (at len : ℤ) (r : ℕ × Option (ℕ × ℕ)) → Pushed room at len r → copied_end r ≤ room
Pushed-end room at len (ret, none) p = omega arith
Pushed-end room at len (ret, some (d, n)) p = p.1

-- For an address above the first page, whose allocation would not wrap, what a look-up gives and
-- vtxarry_push then copies to ends inside the allocation, for every start, distance and length.
pub push_in_block :
    (handle size : ℕ) (l : List VertArry) (cb_elem start len : ℤ)
    → All IsBlock l
    → Fits handle size
    → (s : Slice) × ((lookup_vert_arry handle size l).0 ≡ some s)
      × (s.offset + copied_end (vtxarry_push s.room cb_elem start len) ≤ s.block.bytes)
push_in_block handle size l cb_elem start len b f =
    let found = lookup-InBlock handle size l b f in
    (
      found.0,
      found.1,
      omega (
        arith,
        found.2.1,
        Pushed-end found.0.room (cb_elem *ℤ start) len _
            (vtxarry_push-Pushed found.0.room cb_elem start len),
      ),
    )
