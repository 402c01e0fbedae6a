-- ===== src/Buffer/Examples.antt =====
-- Tests of the buffer objects, and the theorems of Buffer/Registry and Buffer/Placement at inputs.
use qemu_3dfx.Common.{ℕ, ◌+◌, ◌<◌, ◌≡◌, refl, ◌⊎◌, List, [], ◌∷◌, arith, some, All, length}
use qemu_3dfx.Buffer.{MapBufo, mbufo_size, bufo_sz, lookup_buf_obj, free_buf_obj, map_buf_obj_gpa}
use qemu_3dfx.Buffer.Registry.{IsRegistry, find, held, lookup_refines, free_refines}
use qemu_3dfx.Buffer.Placement.{before, Disjoint, map-Disjoint, map_window, map_overlaps}

abbrev object_at : ℕ → ℕ → ℕ → ℕ → MapBufo
object_at i hva gpa mapsz = record {
  idx = i;
  lvl = 0;
  tgt = 0;
  ocpy = 0;
  hva = hva;
  gpa = gpa;
  mused = 0;
  mapsz = mapsz;
  offst = 0;
  range = 0;
  acc = 0;
}

-- One object at the bottom of the window, and one that asks for the same page.
abbrev first : MapBufo
first = object_at 1 0x10000000 0 0x2000

abbrev second : MapBufo
second = object_at 2 0x20001000 0 0x1000

abbrev both : List MapBufo
both = first ∷ second ∷ []

-- The first object once more, with half a page at its end.
abbrev ragged : MapBufo
ragged = object_at 1 0x10000000 0 0x2800

abbrev ragged_both : List MapBufo
ragged_both = ragged ∷ second ∷ []

moved_up : (map_buf_obj_gpa 0x1000 second both).1.gpa ≡ 0x2000
unfolding map_buf_obj_gpa
moved_up = refl

lookup_refines_example :
    ((lookup_buf_obj 2 both).0 ≡ second)
    × (find 1 (lookup_buf_obj 2 both).1 ≡ some first)
    × IsRegistry (lookup_buf_obj 2 both).1
lookup_refines_example = lookup_refines 2 1 both (omega arith)

free_refines_example :
    (find 2 (free_buf_obj 1 both).1 ≡ some second)
    × IsRegistry (free_buf_obj 1 both).1
    × ((free_buf_obj 1 both).0 ≡ length (free_buf_obj 1 both).1)
    × ((free_buf_obj 1 both).0 + held (find 1 both) ≡ 2)
free_refines_example = free_refines 1 2 both (omega arith)

map-Disjoint_example : All (Disjoint 0x1000 (map_buf_obj_gpa 0x1000 second both).1) (before 2 both)
unfolding map_buf_obj_gpa
map-Disjoint_example =
    map-Disjoint 0x1000 second both (omega arith) (omega arith) (omega arith) (omega arith)

map_window_example :
    ((map_buf_obj_gpa 0x1000 second both).0 ≡ 1)
    × ((map_buf_obj_gpa 0x1000 second both).1.gpa < mbufo_size)
    × (((map_buf_obj_gpa 0x1000 second both).1.gpa ≡ 0x1000)
        ⊎ (((map_buf_obj_gpa 0x1000 second both).1.gpa
                + bufo_sz 0x1000 (map_buf_obj_gpa 0x1000 second both).1
              < mbufo_size)
            ⊎ ((map_buf_obj_gpa 0x1000 second both).1.gpa ≡ 0)))
map_window_example = map_window 0x1000 second both (omega arith) (omega arith) (omega arith)

map_overlaps_example : ¬ Disjoint 0x1000 (map_buf_obj_gpa 0x1000 second ragged_both).1 ragged
map_overlaps_example =
    map_overlaps 0x1000 second ragged ragged_both refl (omega arith) (omega arith) (omega arith)
      (omega arith) (omega arith) (omega arith) (omega arith) (omega arith)
