-- ===== src/Upload/Chunks.antt =====
-- glBufferSubData and glBufferSubDataARB (wrappers/mesa/src/wrapgl32.c) with their case of processArgs
-- (qemu-1/hw/mesa/mesapt_mm.c): the host runs a chunk as soon as its call is written.
use qemu_3dfx.Common.{
  ℕ, zero, suc, ◌+◌, ◌-◌, ◌*◌, ◌≤◌, ◌<◌, ◌≡◌, ◌≢◌, inl, inr, refl, ap, ◌∙◌, ◌==◌, ==_of_ne,
  if◌then◌else◌, arith,
}
use qemu_3dfx.Upload.{fbt_size, to_uint32, place_of, guest_place, valid}
use qemu_3dfx.Upload.Agreement.{valid-fits}
use qemu_3dfx.Upload.Memory.{
  Memory, memcpy, chunk_of, Driver, Store, through, join, zero-or, same_place, chunk-bounds,
  copy_none, uint32-fits, left-fits,
}

-- The host's part of a chunk, with `s->parg[3]` and `s->parg[2]`: a null pointer stands for data in
-- the data stream.
pub run_chunk : Driver → ℕ → ℕ → ℕ → Store → Memory
run_chunk sub_data offst chunk ptr s =
    if ptr == 0
    then sub_data s.object offst chunk s.hshm 0
    else sub_data s.object offst chunk s.fbtm (place_of (valid chunk ptr))

-- FBTMMCPY of a chunk.
abbrev pub after_copy : ℕ → ℕ → Store → Store
after_copy chunk ptr s = record s { fbtm = memcpy s.fbtm (guest_place chunk) s.app ptr chunk }

-- The round of a chunk of glBufferSubData: the copy by the guest, and the call on the host.
pub send_chunk : Driver → ℕ → ℕ → ℕ → Store → Store
unfolding run_chunk
send_chunk sub_data offst chunk ptr s =
    let sent = after_copy chunk ptr s in
    record sent { object = run_chunk sub_data offst chunk ptr sent }

-- The loop; `fuel` bounds its rounds.
pub send_chunks : Driver → ℕ → ℕ → ℕ → ℕ → Store → ℕ × Store
unfolding send_chunk
send_chunks sub_data zero offst remain ptr s = (remain, s)
send_chunks sub_data (suc fuel) offst remain ptr s =
    let chunk = chunk_of remain in
    let rest =
      send_chunks sub_data fuel (to_uint32 (offst + chunk)) (remain - chunk)
        (to_uint32 (ptr + chunk)) (send_chunk sub_data offst chunk ptr s) in
    if remain == 0 then (0, s) else rest

-- The wrapper, which sends nothing from a null pointer.
unfoldable pub buffer_sub_data : Driver → ℕ → ℕ → ℕ → ℕ → Store → ℕ × Store
unfolding send_chunks
buffer_sub_data sub_data fuel offst remain ptr s =
    if ptr == 0 then (remain, s) else send_chunks sub_data fuel offst remain ptr s

-- With nothing left, the object holds the application's bytes from `offst` on and is unchanged
-- outside.
abbrev pub Sent : ℕ → ℕ → ℕ → Store → ℕ × Store → Type 0
Sent offst remain ptr s r =
    (r.0 ≡ 0) × ((i : ℕ) → r.1.object i ≡ memcpy s.object offst s.app ptr remain i)

else_if_set : (p : ℕ) (x y : Memory) → p ≢ 0 → (if p == 0 then x else y) ≡ y
else_if_set p x y set = rw (==_of_ne p 0 set) refl

module _ (sub_data : Driver)
    (moves : (to : Memory) (d n : ℕ) (from : Memory) (s i : ℕ)
      → sub_data to d n from s i ≡ memcpy to d from s n i) where
  run_chunk-set :
      (offst c ptr : ℕ) (s : Store)
      → c ≤ fbt_size
      → ptr ≢ 0
      → run_chunk sub_data offst c ptr s ≡ sub_data s.object offst c s.fbtm (place_of c)
  unfolding run_chunk
  run_chunk-set offst c ptr s h set =
      else_if_set ptr _ (sub_data s.object offst c s.fbtm (place_of (valid c ptr))) set
      ∙ ap (λ v. sub_data s.object offst c s.fbtm (place_of v)) (valid-fits c ptr h)

  send_chunk-memcpy :
      (offst c ptr : ℕ) (s : Store) (i : ℕ)
      → c ≤ fbt_size
      → ptr ≢ 0
      → (send_chunk sub_data offst c ptr s).object i ≡ memcpy s.object offst s.app ptr c i
  unfolding send_chunk
  send_chunk-memcpy offst c ptr s i h set =
      ap (λ m. m i) (run_chunk-set offst c ptr (after_copy c ptr s) h set)
      ∙ moves s.object offst c _ (place_of c) i
      ∙ ap (λ p. memcpy s.object offst (memcpy s.fbtm p s.app ptr c) (place_of c) c i)
          (same_place c h)
      ∙ through s.object s.fbtm s.app offst (place_of c) ptr c i

  add_round-Sent :
      (offst remain ptr c : ℕ) (s : Store) (r : ℕ × Store)
      → c ≤ remain
      → c ≤ fbt_size
      → ptr ≢ 0
      → Sent (offst + c) (remain - c) (ptr + c) (send_chunk sub_data offst c ptr s) r
      → Sent offst remain ptr s r
  unfolding send_chunk
  add_round-Sent offst remain ptr c s r h k set sent = (
    sent.0,
    λ i.
        sent.1 i
        ∙ join s.object (send_chunk sub_data offst c ptr s).object s.app offst ptr c remain i h
            (send_chunk-memcpy offst c ptr s i k set),
  )

  send_chunks-Sent :
      (fuel offst remain ptr : ℕ) (s : Store)
      → ptr ≢ 0
      → remain ≤ fuel * 0x1fff000
      → offst + remain < 0x100000000
      → ptr + remain < 0x100000000
      → Sent offst remain ptr s (send_chunks sub_data fuel offst remain ptr s)
  unfolding send_chunks
  send_chunks-Sent zero offst remain ptr s set enough o p =
      (omega arith, λ i. copy_none s.object s.app offst ptr remain i (omega arith))
  send_chunks-Sent (suc fuel) offst remain ptr s set enough o p = elim (zero-or remain) [
    | inl e ↦ rw e (refl, λ i. copy_none s.object s.app offst ptr 0 i refl)
    | inr some_left ↦
        let b = chunk-bounds remain fuel some_left enough in
        let c = chunk_of remain in
        let next = send_chunk sub_data offst c ptr s in
        let rest = send_chunks sub_data fuel (offst + c) (remain - c) (ptr + c) next in
        rw (==_of_ne remain 0 some_left) (
          rw (uint32-fits offst c remain b.0 o) (
            rw (uint32-fits ptr c remain b.0 p) (
              add_round-Sent offst remain ptr c s rest b.0 b.1 set (
                send_chunks-Sent fuel _ _ _ next (omega arith) b.2 (left-fits offst _ remain b.0 o)
                  (left-fits ptr _ remain b.0 p)))))
  ]

  -- If the pointer is not null, the buffer object's range and the application's stay below 2^32 and
  -- `fuel` rounds of 0x1fff000 bytes suffice, then glBufferSubData ends with nothing left, and the
  -- buffer object holds the application's bytes in the range and is unchanged outside.
  pub buffer_sub_data_sends :
      (fuel offst remain ptr : ℕ) (s : Store)
      → ptr ≢ 0
      → remain ≤ fuel * 0x1fff000
      → offst + remain < 0x100000000
      → ptr + remain < 0x100000000
      → Sent offst remain ptr s (buffer_sub_data sub_data fuel offst remain ptr s)
  unfolding buffer_sub_data
  buffer_sub_data_sends fuel offst remain ptr s set enough o p =
      rw (==_of_ne ptr 0 set) (send_chunks-Sent fuel offst remain ptr s set enough o p)
