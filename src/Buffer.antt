-- ===== src/Buffer.antt =====
-- qemu-1/hw/mesa/mglmapbo.c and mglmapbo.h, the buffer objects that the guest has mapped: a linked
-- list of `mapbufo_t`, and the choice of a guest address for each.
-- A pointer to an element is the element's `idx`, which no two elements share.
pub mod Registry
pub mod Placement
mod Examples
use qemu_3dfx.Common.{
  ℕ, zero, suc, ◌+◌, ◌-◌, ◌*◌, ◌/◌, ◌%◌, ◌^◌, Bool, true, false, ◌||◌, List, [], ◌∷◌, ltb, leb,
  ◌==◌, if◌then◌else◌, length,
}

-- `mapbufo_t`
pub record MapBufo : Type 0 where
  pub idx : ℕ
  pub lvl : ℕ
  pub tgt : ℕ
  pub ocpy : ℕ
  pub hva : ℕ
  pub gpa : ℕ
  pub mused : ℕ
  pub mapsz : ℕ
  pub offst : ℕ
  pub range : ℕ
  pub acc : ℕ

-- `MBUFO_SIZE`, and `ALIGNBO`.
abbrev pub mbufo_size : ℕ
mbufo_size = 0x8000000

abbrev pub alignbo : ℕ → ℕ
alignbo x = if x % 16 == 0 then x else (x / 16 + 1) * 16 % 2 ^ 32

-- A fresh element: `g_new0`, then its index.
pub new_buf_obj : ℕ → MapBufo
new_buf_obj i = record {
  idx = i;
  lvl = 0;
  tgt = 0;
  ocpy = 0;
  hva = 0;
  gpa = 0;
  mused = 0;
  mapsz = 0;
  offst = 0;
  range = 0;
  acc = 0;
}

-- `InitBufObj` frees every element and leaves the list empty.
pub init_buf_obj : List MapBufo → List MapBufo
init_buf_obj [] = []
init_buf_obj (p ∷ next) = init_buf_obj next

-- `LookupBufObj`: the element with the index, appended if there is none.
pub lookup_buf_obj : ℕ → List MapBufo → MapBufo × List MapBufo
unfolding new_buf_obj
lookup_buf_obj i [] = (new_buf_obj i, new_buf_obj i ∷ [])
lookup_buf_obj i (p ∷ next) =
    let (b, next') = lookup_buf_obj i next in if i == p.idx then (p, p ∷ next) else (b, p ∷ next')

-- The unlinking in `FreeBufObj`.
pub unlink_buf_obj : ℕ → List MapBufo → List MapBufo
unlink_buf_obj i [] = []
unlink_buf_obj i (p ∷ next) = if i == p.idx then next else p ∷ unlink_buf_obj i next

-- The count at its end.
pub count_buf_obj : ℕ → List MapBufo → ℕ
count_buf_obj cnt [] = cnt
count_buf_obj cnt (p ∷ next) = count_buf_obj (cnt + 1) next

-- `FreeBufObj`
pub free_buf_obj : ℕ → List MapBufo → ℕ × List MapBufo
unfolding unlink_buf_obj count_buf_obj
free_buf_obj i pbufo = let rest = unlink_buf_obj i pbufo in (count_buf_obj 0 rest, rest)

-- The choice behind the loop, `nat` the address that `hva` suggests and `sz` the size.
pub place : ℕ → ℕ → ℕ → ℕ → ℕ
place lo hi nat sz =
    if ltb ((nat + sz) % 2 ^ 64) lo || leb hi nat
    then nat
    else if ltb sz lo
    then lo - sz
    else if ltb ((hi + sz) % 2 ^ 64) mbufo_size
    then hi
    else 0

-- `psz` is `qemu_real_host_page_size()`, a power of two, so that `x & (psz - 1)` is `x % psz`.
module _ (psz : ℕ) where
  -- `x & qemu_real_host_page_mask()`
  abbrev pub page_down : ℕ → ℕ
  page_down x = x - x % psz

  -- `curr_sz`, a `uint32_t`
  abbrev pub curr_sz : MapBufo → ℕ
  curr_sz c = (c.mapsz + c.hva % psz % 2 ^ 32) % 2 ^ 32

  -- `bufo_sz`, a `uint32_t`
  abbrev pub bufo_sz : MapBufo → ℕ
  bufo_sz b = (alignbo b.mapsz + b.hva % psz % 2 ^ 32) % 2 ^ 32

  -- `(curr->bo.gpa + curr_sz) & qemu_real_host_page_mask()`
  abbrev pub curr_end : MapBufo → ℕ
  curr_end c = page_down ((c.gpa + curr_sz c) % 2 ^ 64)

  -- The loop over the elements before the one with index `i`: `addr_lo`, `addr_hi` and `ret`.
  pub scan : ℕ → ℕ → ℕ → ℕ → List MapBufo → ℕ × ℕ × ℕ
  scan i lo hi ret [] = (lo, hi, ret)
  scan i lo hi ret (c ∷ next) =
      let rest =
        scan i (if ltb (page_down c.gpa) lo then page_down c.gpa else lo)
          (if ltb hi (curr_end c) then curr_end c else hi) (ret + 1) next in
      if i == c.idx then (lo, hi, ret) else rest

  -- `MapBufObjGpa`: the number of elements in front, and the object with its address. For the first
  -- element of the list the loop makes no round and the suggested address stays.
  pub map_buf_obj_gpa : MapBufo → List MapBufo → ℕ × MapBufo
  unfolding scan place
  map_buf_obj_gpa b pbufo =
      let (lo, hi, ret) = scan b.idx (mbufo_size - 1) 0 0 pbufo in
      let nat = b.hva % mbufo_size in
      (ret, record b { gpa = if ret == 0 then nat else place lo hi nat (bufo_sz b) })
