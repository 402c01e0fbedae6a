-- ===== src/Upload/Over.antt =====
-- What the code does with uploads that the shared buffer has no room for.
use qemu_3dfx.Common.{ℕ, ◌+◌, ◌-◌, ◌<◌, ◌≤◌, ◌≡◌, ◌≢◌, ap, ◌∙◌, none, some, ==_of_ne, arith}
use qemu_3dfx.ClientState.{Client}
use qemu_3dfx.VertexStream.{aligned}
use qemu_3dfx.Upload.Agreement.{if_set}
use qemu_3dfx.Upload.{
  buffer_data, tex_sub_image_2d, inside, fbt_size, place_of, guest_place, copy, valid, size,
  skipped, guest_upload, to_uint32, Pointer, given, host_data, host_buffer_data,
}

copy-over : (s : ℕ) → fbt_size < s → copy (guest_place s) s ≡ none
copy-over s h = ground arith

place_of-over : (s p : ℕ) → p ≢ 0 → fbt_size < s → place_of (valid s p) ≡ 0
place_of-over s p set h = ground arith

guest_place-over :
    (s : ℕ) → fbt_size < s → s ≤ 0xfffffff8 → guest_place s ≡ 0x100000000 - (aligned s - fbt_size)
guest_place-over s over top = ground arith

less_uint32 :
    (s skip : ℕ)
    → s ≤ 0xfffffff8
    → skip ≤ s
    → to_uint32 (0x100000000 + s - to_uint32 skip) ≡ s - skip
less_uint32 s skip top less = omega arith

copy-before :
    (s skip : ℕ)
    → fbt_size < s
    → s ≤ 0xfffffff8
    → skip ≤ s
    → s ≤ fbt_size + skip
    → copy (guest_place s) (to_uint32 (0x100000000 + s - to_uint32 skip))
      ≡ some (0x100000000 - (aligned s - fbt_size), s - skip)
copy-before s skip over top less k =
    rw (less_uint32 s skip top less) (rw (guest_place-over s over top) (ground arith))

-- GL reads so many bytes from the pointer, the last of them behind the end of the shared buffer.
abbrev pub ReadsBehind : ℕ × Pointer → Type 0
ReadsBehind (n, given p) = ⊥
ReadsBehind (n, inside place) = fbt_size < place + n

-- For glBufferData with a pointer that is not null and more bytes than the shared buffer has, the
-- guest copies nothing, and the host gives GL the whole size with the start of the shared buffer as
-- the pointer, so that GL reads behind the end of the shared buffer.
pub buffer_data_over :
    (c : Client) (a : ℕ → ℕ)
    → a 2 ≢ 0
    → fbt_size < size buffer_data c a
    → (guest_upload buffer_data c a ≡ none)
      × (host_buffer_data a ≡ (size buffer_data c a, inside 0))
      × ReadsBehind (host_buffer_data a)
unfolding size guest_upload host_buffer_data
buffer_data_over c a set h =
    let start : host_data (a 1) (a 2) ≡ inside 0 =
      if_set (a 2) _ _ set ∙ ap inside (place_of-over (a 1) (a 2) set h) in
    (
      rw (==_of_ne (a 2) 0 set) (copy-over (a 1) h),
      ap (λ p. (a 1, p)) start,
      rw start (omega arith),
    )

-- If no pixel unpack buffer is bound, the rows have more bytes than the shared buffer, and what a
-- part of them leaves out is at least the excess, then glTexSubImage2D copies to a place that is
-- the excess, rounded up, before the start of the buffer (modulo the 32 bits of an address).
pub sub_image_before :
    (c : Client) (a : ℕ → ℕ)
    → c.pix_unpack_buf ≡ 0
    → fbt_size < size tex_sub_image_2d c a
    → size tex_sub_image_2d c a ≤ 0xfffffff8
    → skipped tex_sub_image_2d c a ≤ size tex_sub_image_2d c a
    → size tex_sub_image_2d c a ≤ fbt_size + skipped tex_sub_image_2d c a
    → guest_upload tex_sub_image_2d c a
      ≡ some (
        0x100000000 - (aligned (size tex_sub_image_2d c a) - fbt_size),
        size tex_sub_image_2d c a - skipped tex_sub_image_2d c a,
      )
unfolding size skipped guest_upload
sub_image_before c a b over top less k = rw b (copy-before _ _ over top less k)
