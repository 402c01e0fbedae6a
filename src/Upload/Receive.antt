-- ===== src/Upload/Receive.antt =====
-- The loops of glGetBufferSubData and glGetBufferSubDataARB (wrappers/mesa/src/wrapgl32.c) with their
-- cases of processArgs (qemu-1/hw/mesa/mesapt_mm.c): the host runs a chunk as soon as its call is written.
use qemu_3dfx.Common.{
  ℕ, zero, suc, ◌+◌, ◌-◌, ◌*◌, ◌≤◌, ◌<◌, ◌≡◌, inl, inr, refl, ap, ◌∙◌, ◌==◌, ==_of_ne,
  if◌then◌else◌, arith,
}
use qemu_3dfx.Upload.{fbt_size, to_uint32, place_of, guest_place}
use qemu_3dfx.Upload.Memory.{
  Memory, memcpy, chunk_of, Driver, Store, through_at, join, zero-or, same_place, chunk-bounds,
  copy_none, uint32-fits, left-fits,
}

-- The round of a chunk of glGetBufferSubData: the call on the host, and the copy by the guest.
pub receive_chunk : Driver → ℕ → ℕ → ℕ → Store → Store
receive_chunk get_data offst chunk ptr s =
    let fbtm = get_data s.fbtm (place_of chunk) chunk s.object offst in
    record s { app = memcpy s.app ptr fbtm (guest_place chunk) chunk; fbtm = fbtm }

-- The loop; `fuel` bounds its rounds.
pub get_buffer_sub_data : Driver → ℕ → ℕ → ℕ → ℕ → Store → ℕ × Store
unfolding receive_chunk
get_buffer_sub_data get_data zero offst remain ptr s = (remain, s)
get_buffer_sub_data get_data (suc fuel) offst remain ptr s =
    let chunk = chunk_of remain in
    let rest =
      get_buffer_sub_data get_data fuel (to_uint32 (offst + chunk)) (remain - chunk)
        (to_uint32 (ptr + chunk)) (receive_chunk get_data offst chunk ptr s) in
    if remain == 0 then (0, s) else rest

-- With nothing left, the application holds the object's bytes from `ptr` on and is unchanged
-- outside.
abbrev pub Received : ℕ → ℕ → ℕ → Store → ℕ × Store → Type 0
Received offst remain ptr s r =
    (r.0 ≡ 0) × ((i : ℕ) → r.1.app i ≡ memcpy s.app ptr s.object offst remain i)

module _ (get_data : Driver)
    (moves : (to : Memory) (d n : ℕ) (from : Memory) (s i : ℕ)
      → get_data to d n from s i ≡ memcpy to d from s n i) where
  receive_chunk-memcpy :
      (offst c ptr : ℕ) (s : Store) (i : ℕ)
      → c ≤ fbt_size
      → (receive_chunk get_data offst c ptr s).app i ≡ memcpy s.app ptr s.object offst c i
  unfolding receive_chunk
  receive_chunk-memcpy offst c ptr s i h =
      ap (λ p. memcpy s.app ptr (get_data s.fbtm (place_of c) c s.object offst) p c i)
        (same_place c h)
      ∙ through_at s.app (get_data s.fbtm (place_of c) c s.object offst) s.fbtm s.object ptr
          (place_of c) offst c (moves s.fbtm (place_of c) c s.object offst) i

  add_round-Received :
      (offst remain ptr c : ℕ) (s : Store) (r : ℕ × Store)
      → c ≤ remain
      → c ≤ fbt_size
      → Received (offst + c) (remain - c) (ptr + c) (receive_chunk get_data offst c ptr s) r
      → Received offst remain ptr s r
  unfolding receive_chunk
  add_round-Received offst remain ptr c s r h k received = (
    received.0,
    λ i.
        received.1 i
        ∙ join s.app (receive_chunk get_data offst c ptr s).app s.object ptr offst c remain i h
            (receive_chunk-memcpy offst c ptr s i k),
  )

  -- If the buffer object's range and the application's stay below 2^32 and `fuel` rounds of 0x1fff000
  -- bytes suffice, then the loop of glGetBufferSubData ends with nothing left, and the
  -- application's memory holds the buffer object's bytes in the range and is unchanged outside.
  pub get_buffer_sub_data_receives :
      (fuel offst remain ptr : ℕ) (s : Store)
      → remain ≤ fuel * 0x1fff000
      → offst + remain < 0x100000000
      → ptr + remain < 0x100000000
      → Received offst remain ptr s (get_buffer_sub_data get_data fuel offst remain ptr s)
  unfolding get_buffer_sub_data
  get_buffer_sub_data_receives zero offst remain ptr s enough o p =
      (omega arith, λ i. copy_none s.app s.object ptr offst remain i (omega arith))
  get_buffer_sub_data_receives (suc fuel) offst remain ptr s enough o p = elim (zero-or remain) [
    | inl e ↦ rw e (refl, λ i. copy_none s.app s.object ptr offst 0 i refl)
    | inr some_left ↦
        let b = chunk-bounds remain fuel some_left enough in
        let c = chunk_of remain in
        let next = receive_chunk get_data offst c ptr s in
        let rest = get_buffer_sub_data get_data fuel (offst + c) (remain - c) (ptr + c) next in
        rw (==_of_ne remain 0 some_left) (
          rw (uint32-fits offst c remain b.0 o) (
            rw (uint32-fits ptr c remain b.0 p) (
              add_round-Received offst remain ptr c s rest b.0 b.1 (
                get_buffer_sub_data_receives fuel _ _ _ next b.2 (left-fits offst _ remain b.0 o)
                  (left-fits ptr _ remain b.0 p)))))
  ]
