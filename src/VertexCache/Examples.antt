-- ===== src/VertexCache/Examples.antt =====
-- Tests of the vertex array memory, and the theorems of VertexCache/Bounds at inputs.
use qemu_3dfx.Common.{◌≡◌, refl, ◌≤◌, ◌<◌, List, [], ◌∷◌, arith, some, All}
use qemu_3dfx.VertexCache.{VertArry, Slice, lookup_vert_arry, free_vert_arry}
use qemu_3dfx.VertexCache.Bounds.{IsBlock, InBlock, lookup-InBlock, lookup_first_page}

abbrev one : List VertArry
one = record { tag_lo = 0x10000; tag_hi = 0x30000; bytes = 0x20000 } ∷ []

reused :
    (lookup_vert_arry 0x12345 0x10000 one).0
    ≡ some (record {
      block = record { tag_lo = 0x10000; tag_hi = 0x30000; bytes = 0x20000 };
      offset = 0x2345;
      room = 0x1dcbb;
    })
unfolding lookup_vert_arry
reused = refl

freed : free_vert_arry 0 one ≡ (1, [])
unfolding free_vert_arry
freed = refl

lookup-InBlock_example :
    (s : Slice) × ((lookup_vert_arry 0x50000 0x10000 one).0 ≡ some s)
    × InBlock s
    × (0x8000 ≤ s.room)
    × All IsBlock (lookup_vert_arry 0x50000 0x10000 one).1
lookup-InBlock_example = lookup-InBlock 0x50000 0x10000 one (omega arith) (omega arith)

lookup_first_page_example :
    (s : Slice) × ((lookup_vert_arry 0x10 0x10000 []).0 ≡ some s)
    × (s.block.bytes < s.offset)
    × (s.block.bytes < s.room)
lookup_first_page_example =
    lookup_first_page 0x10 0x10000 (omega arith) (omega arith) (omega arith) (omega arith)
