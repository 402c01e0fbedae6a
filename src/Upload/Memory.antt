-- ===== src/Upload/Memory.antt =====
-- memcpy between memories, and the chunks of the loops that move the data of a buffer object
-- through the shared buffer (wrappers/mesa/src/wrapgl32.c). Memory is a function from addresses to
-- bytes.
use qemu_3dfx.Common.{
  ℕ, suc, ◌+◌, ◌-◌, ◌*◌, ◌≤◌, ◌<◌, ◌≡◌, ◌≢◌, ◌⊎◌, inl, inr, refl, ap, ◌∙◌, sym, ◌&&◌, ltb, leb,
  if◌then◌else◌, arith,
}
use qemu_3dfx.Upload.{fbt_size, to_uint32, place_of, guest_place}

abbrev pub Memory : Type 0
Memory = ℕ → ℕ

-- `memcpy`, from an address of the one memory to an address of the other.
pub memcpy : Memory → ℕ → Memory → ℕ → ℕ → Memory
memcpy to d from s n i = if leb d i && ltb i (d + n) then from (s + (i - d)) else to i

-- `chunk`, of what remains.
abbrev pub chunk_of : ℕ → ℕ
chunk_of remain = if ltb (fbt_size - 0x1000) remain then fbt_size - 0x1000 else remain

-- The application's memory, the shared buffer, the data stream from the host's place in it on, and
-- the buffer object.
pub record Store : Type 0 where
  pub app : Memory
  pub fbtm : Memory
  pub hshm : Memory
  pub object : Memory

-- A function of GL that moves `n` bytes between a pointer and the buffer object at an offset.
abbrev pub Driver : Type 0
Driver = Memory → ℕ → ℕ → Memory → ℕ → Memory

pub copied :
    (to from : Memory) (d s n i : ℕ)
    → d ≤ i
    → i < d + n
    → memcpy to d from s n i ≡ from (s + (i - d))
unfolding memcpy
copied to from d s n i h k = ground arith

kept-below : (to from : Memory) (d s n i : ℕ) → i < d → memcpy to d from s n i ≡ to i
unfolding memcpy
kept-below to from d s n i h = ground arith

kept-above : (to from : Memory) (d s n i : ℕ) → d + n ≤ i → memcpy to d from s n i ≡ to i
unfolding memcpy
kept-above to from d s n i h = ground arith

pub zero-or : (n : ℕ) → (n ≡ 0) ⊎ (n ≢ 0)
zero-or n = ground arith

-- Below, above or in a range.
in_range : (d n i : ℕ) → ((i < d) ⊎ (d + n ≤ i)) ⊎ ((d ≤ i) × (i < d + n))
in_range d n i = ground arith

-- A copy from a memory into which it was copied.
pub through_at :
    (to now via from : Memory) (d p s n : ℕ)
    → ((i : ℕ) → now i ≡ memcpy via p from s n i)
    → (i : ℕ) → memcpy to d now p n i ≡ memcpy to d from s n i
through_at to now via from d p s n e i = elim (in_range d n i) [
  | inl (inl h) ↦ kept-below _ _ d p n i h ∙ sym (kept-below _ _ d s n i h)
  | inl (inr h) ↦ kept-above _ _ d p n i h ∙ sym (kept-above _ _ d s n i h)
  | inr (h, k) ↦
      copied _ _ d p n i h k
      ∙ e (p + (i - d))
      ∙ copied via from p s n (p + (i - d)) (omega arith) (omega arith)
      ∙ ap from (omega arith)
      ∙ sym (copied to from d s n i h k)
]

pub through :
    (to via from : Memory) (d p s n i : ℕ)
    → memcpy to d (memcpy via p from s n) p n i ≡ memcpy to d from s n i
through to via from d p s n i = through_at to (memcpy via p from s n) via from d p s n (λ j. refl) i

part-whole :
    (to from : Memory) (d s c n i : ℕ)
    → c ≤ n
    → i < d + c
    → memcpy to d from s c i ≡ memcpy to d from s n i
unfolding memcpy
part-whole to from d s c n i h k = ground arith

-- A copy in two parts.
pub join :
    (to first from : Memory) (d s c n i : ℕ)
    → c ≤ n
    → first i ≡ memcpy to d from s c i
    → memcpy first (d + c) from (s + c) (n - c) i ≡ memcpy to d from s n i
join to first from d s c n i h e = elim (in_range (d + c) (n - c) i) [
  | inl (inl k) ↦ kept-below _ _ (d + c) (s + c) (n - c) i k ∙ e ∙ part-whole to from d s c n i h k
  | inl (inr k) ↦
      kept-above _ _ (d + c) (s + c) (n - c) i k
      ∙ e
      ∙ kept-above _ _ d s c i (omega arith)
      ∙ sym (kept-above _ _ d s n i (omega arith))
  | inr (k, l) ↦
      copied first from (d + c) (s + c) (n - c) i k l
      ∙ ap from (omega arith)
      ∙ sym (copied to from d s n i (omega arith) (omega arith))
]

pub same_place : (c : ℕ) → c ≤ fbt_size → guest_place c ≡ place_of c
same_place c h = ground arith

pub chunk-bounds :
    (remain fuel : ℕ)
    → remain ≢ 0
    → remain ≤ suc fuel * 0x1fff000
    → (chunk_of remain ≤ remain)
      × (chunk_of remain ≤ fbt_size)
      × (remain - chunk_of remain ≤ fuel * 0x1fff000)
chunk-bounds remain fuel some_left enough = ground arith

-- Nothing is copied.
pub copy_none : (to from : Memory) (d s n i : ℕ) → n ≡ 0 → to i ≡ memcpy to d from s n i
unfolding memcpy
copy_none to from d s n i e = ground arith

pub uint32-fits :
    (n c remain : ℕ) → c ≤ remain → n + remain < 0x100000000 → to_uint32 (n + c) ≡ n + c
uint32-fits n c remain h k = omega arith

pub left-fits :
    (n c remain : ℕ) → c ≤ remain → n + remain < 0x100000000 → n + c + (remain - c) < 0x100000000
left-fits n c remain h k = omega arith
