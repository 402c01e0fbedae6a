-- ===== src/Buffer/Registry.antt =====
-- The list of mapped buffer objects as a finite map from indices: mglmapbo.c, LookupBufObj and
-- FreeBufObj.
use qemu_3dfx.Common.{
  ℕ, ◌+◌, ◌≡◌, refl, ◌≢◌, inl, inr, Option, none, some, List, [], ◌∷◌, arith, ◌==◌, if◌then◌else◌,
  length, All, Bool-cases,
}
use qemu_3dfx.Buffer.{
  MapBufo, new_buf_obj, lookup_buf_obj, unlink_buf_obj, count_buf_obj, free_buf_obj,
}

abbrev pub NoIdx : ℕ → List MapBufo → Type 0
NoIdx i = All (λ p. p.idx ≢ i)

-- No two elements share an index.
abbrev pub IsRegistry : List MapBufo → Type 0
IsRegistry [] = Unit
IsRegistry (p ∷ next) = NoIdx p.idx next × IsRegistry next

-- The abstract view: the object that an index stands for.
abbrev pub find : ℕ → List MapBufo → Option MapBufo
find i [] = none
find i (p ∷ next) = if i == p.idx then some p else find i next

-- An index that stands for nothing gives a zeroed object.
abbrev pub object : ℕ → Option MapBufo → MapBufo
object i none = new_buf_obj i
object i (some b) = b

NoIdx-lookup : (i j : ℕ) (l : List MapBufo) → i ≢ j → NoIdx j l → NoIdx j (lookup_buf_obj i l).1
unfolding lookup_buf_obj
NoIdx-lookup i j [] ne n = (ne, tt)
NoIdx-lookup i j (p ∷ next) ne n = ground (arith, NoIdx-lookup i j next ne n.1)

lookup-IsRegistry : (i : ℕ) (l : List MapBufo) → IsRegistry l → IsRegistry (lookup_buf_obj i l).1
unfolding lookup_buf_obj
lookup-IsRegistry i [] v = (tt, tt)
lookup-IsRegistry i (p ∷ next) v = elim (Bool-cases (i == p.idx)) [
  | inl e ↦ rw e v
  | inr e ↦ rw e (NoIdx-lookup i p.idx next (ground arith) v.0, lookup-IsRegistry i next v.1)
]

lookup_object : (i : ℕ) (l : List MapBufo) → (lookup_buf_obj i l).0 ≡ object i (find i l)
unfolding lookup_buf_obj
lookup_object i [] = refl
lookup_object i (p ∷ next) = ground (arith, lookup_object i next)

find-lookup :
    (i j : ℕ) (l : List MapBufo)
    → find j (lookup_buf_obj i l).1 ≡ (if i == j then some (object i (find i l)) else find j l)
unfolding lookup_buf_obj new_buf_obj
find-lookup i j [] = ground arith
find-lookup i j (p ∷ next) = ground (arith, find-lookup i j next)

find-none : (i : ℕ) (l : List MapBufo) → NoIdx i l → find i l ≡ none
find-none i [] n = refl
find-none i (p ∷ next) n = ground (arith, find-none i next n.1)

NoIdx-unlink : (i j : ℕ) (l : List MapBufo) → NoIdx j l → NoIdx j (unlink_buf_obj i l)
unfolding unlink_buf_obj
NoIdx-unlink i j [] n = tt
NoIdx-unlink i j (p ∷ next) n = ground (arith, NoIdx-unlink i j next n.1)

unlink-IsRegistry : (i : ℕ) (l : List MapBufo) → IsRegistry l → IsRegistry (unlink_buf_obj i l)
unfolding unlink_buf_obj
unlink-IsRegistry i [] v = tt
unlink-IsRegistry i (p ∷ next) v =
    ground (arith, unlink-IsRegistry i next v.1, NoIdx-unlink i p.idx next v.0)

find-unlink :
    (i j : ℕ) (l : List MapBufo)
    → IsRegistry l
    → find j (unlink_buf_obj i l) ≡ (if i == j then none else find j l)
unfolding unlink_buf_obj
find-unlink i j [] v = ground arith
find-unlink i j (p ∷ next) v = ground (arith, find-unlink i j next v.1, find-none p.idx next v.0)

count_lem : (cnt : ℕ) (l : List MapBufo) → count_buf_obj cnt l ≡ cnt + length l
unfolding count_buf_obj
count_lem cnt [] = omega arith
count_lem cnt (p ∷ next) = omega (arith, count_lem (cnt + 1) next)

-- One for an index that is in the list, none for another.
abbrev pub held : Option MapBufo → ℕ
held none = 0
held (some b) = 1

length-unlink :
    (i : ℕ) (l : List MapBufo) → length (unlink_buf_obj i l) + held (find i l) ≡ length l
unfolding unlink_buf_obj
length-unlink i [] = omega arith
length-unlink i (p ∷ next) = ground (arith, length-unlink i next)

-- LookupBufObj returns the object of its index, a zeroed one if there was none; from then on the
-- index stands for it, every other index for what it stood for; and indices stay distinct.
pub lookup_refines :
    (i j : ℕ) (l : List MapBufo)
    → IsRegistry l
    → ((lookup_buf_obj i l).0 ≡ object i (find i l))
      × (find j (lookup_buf_obj i l).1 ≡ (if i == j then some (object i (find i l)) else find j l))
      × IsRegistry (lookup_buf_obj i l).1
lookup_refines i j l v = (lookup_object i l, find-lookup i j l, lookup-IsRegistry i l v)

-- After FreeBufObj of an index, that index stands for nothing, every other for what it stood for;
-- indices stay distinct; and the result is the number of elements left, one less than before if
-- the index was in the list and else the same.
pub free_refines :
    (i j : ℕ) (l : List MapBufo)
    → IsRegistry l
    → (find j (free_buf_obj i l).1 ≡ (if i == j then none else find j l))
      × IsRegistry (free_buf_obj i l).1
      × ((free_buf_obj i l).0 ≡ length (free_buf_obj i l).1)
      × ((free_buf_obj i l).0 + held (find i l) ≡ length l)
unfolding free_buf_obj
free_refines i j l v = (
  find-unlink i j l v,
  unlink-IsRegistry i l v,
  omega (arith, count_lem 0 (unlink_buf_obj i l)),
  omega (arith, count_lem 0 (unlink_buf_obj i l), length-unlink i l),
)
