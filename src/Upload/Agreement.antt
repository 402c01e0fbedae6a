-- ===== src/Upload/Agreement.antt =====
-- The guest copies an image to the place from which the host lets GL read it.
use qemu_3dfx.Common.{
  ℕ, ◌+◌, ◌-◌, ◌≤◌, ◌≡◌, ◌≢◌, refl, ap, ◌∙◌, some, ◌==◌, ==_of_ne, if◌then◌else◌, arith,
}
use qemu_3dfx.ClientState.{Client}
use qemu_3dfx.VertexStream.{Copied, aligned}
use qemu_3dfx.Upload.{
  Upload, bitmap, tex_image_1d, tex_image_2d, tex_image_3d, tex_sub_image_1d, tex_sub_image_2d,
  tex_sub_image_3d, compressed_1d, compressed_2d, compressed_8, compressed_10, buffer_data, Pointer,
  inside, fbt_size, to_uint32, place_of, guest_place, copy, valid, host_data, send_image, send_part,
  send_compressed, send_buffer, take_image, take_compressed, size, skipped, pointer, guest_upload,
  host_upload,
}

-- `n` bytes at the place for `s` bytes on both sides, inside the buffer.
abbrev pub Agree : ℕ → ℕ → Copied → Pointer → Type 0
Agree s n copied p =
    (copied ≡ some (fbt_size - aligned s, n))
    × (p ≡ inside (fbt_size - aligned s))
    × (fbt_size - aligned s + n ≤ fbt_size)

place-fits : (s : ℕ) → s ≤ fbt_size → place_of s ≡ fbt_size - aligned s
place-fits s h = ground arith

guest_place-fits : (s : ℕ) → s ≤ fbt_size → guest_place s ≡ fbt_size - aligned s
guest_place-fits s h = ground arith

pub valid-fits : (s p : ℕ) → s ≤ fbt_size → valid s p ≡ s
valid-fits s p h = ground arith

inside-fits : (s n : ℕ) → s ≤ fbt_size → n ≤ s → fbt_size - aligned s + n ≤ fbt_size
inside-fits s n h k = ground arith

copy-fits :
    (s n : ℕ) → s ≤ fbt_size → n ≤ s → copy (guest_place s) n ≡ some (fbt_size - aligned s, n)
copy-fits s n h k = rw (guest_place-fits s h) ground arith

pub if_set : (p : ℕ) (x y : Pointer) → p ≢ 0 → (if p == 0 then x else y) ≡ y
if_set p x y set = rw (==_of_ne p 0 set) refl

-- Nothing is left out of `s` bytes.
whole :
    (s : ℕ) → ◌≡◌ {A = Copied} (some (fbt_size - aligned s, s)) (some (fbt_size - aligned s, s - 0))
whole s = ap (λ n. some (fbt_size - aligned s, n)) (omega arith)

send_image-fits :
    (c : Client) (p s : ℕ)
    → p ≢ 0
    → c.pix_unpack_buf ≡ 0
    → s ≤ fbt_size
    → send_image c p s ≡ some (fbt_size - aligned s, s)
send_image-fits c p s set none_bound h =
    rw (==_of_ne p 0 set) (rw none_bound (copy-fits s s h (omega arith)))

send_part-fits :
    (c : Client) (s skip : ℕ)
    → c.pix_unpack_buf ≡ 0
    → s ≤ fbt_size
    → skip ≤ s
    → send_part c s skip ≡ some (fbt_size - aligned s, s - skip)
send_part-fits c s skip none_bound h k =
    let left : to_uint32 (0x100000000 + s - to_uint32 skip) ≡ s - skip = omega arith in
    rw none_bound (rw left (copy-fits s (s - skip) h (omega arith)))

send_compressed-fits :
    (c : Client) (s : ℕ)
    → c.pix_unpack_buf ≡ 0
    → s ≤ fbt_size
    → send_compressed c s ≡ some (fbt_size - aligned s, s)
send_compressed-fits c s none_bound h = rw none_bound (copy-fits s s h (omega arith))

host_data-fits : (s p : ℕ) → p ≢ 0 → s ≤ fbt_size → host_data s p ≡ inside (fbt_size - aligned s)
host_data-fits s p set h =
    if_set p _ _ set ∙ ap inside (ap (λ v. place_of v) (valid-fits s p h) ∙ place-fits s h)

take_image-fits :
    (c : Client) (p s : ℕ)
    → p ≢ 0
    → c.pix_unpack_buf ≡ 0
    → s ≤ fbt_size
    → take_image c p s ≡ inside (fbt_size - aligned s)
take_image-fits c p s set none_bound h = rw none_bound (host_data-fits s p set h)

take_compressed-fits :
    (c : Client) (p s : ℕ)
    → c.pix_unpack_buf ≡ 0
    → s ≤ fbt_size
    → take_compressed c p s ≡ inside (fbt_size - aligned s)
take_compressed-fits c p s none_bound h =
    rw none_bound (ap inside (rw (valid-fits s p h) (place-fits s h)))

module _ (c : Client) (none_bound : c.pix_unpack_buf ≡ 0) where
  image-Agree :
      (p s : ℕ) → p ≢ 0 → s ≤ fbt_size → Agree s (s - 0) (send_image c p s) (take_image c p s)
  image-Agree p s set h = (
    send_image-fits c p s set none_bound h ∙ whole s,
    take_image-fits c p s set none_bound h,
    inside-fits s (s - 0) h (omega arith),
  )

  part-Agree :
      (p s skip : ℕ)
      → p ≢ 0
      → s ≤ fbt_size
      → skip ≤ s
      → Agree s (s - skip) (send_part c s skip) (take_image c p s)
  part-Agree p s skip set h k = (
    send_part-fits c s skip none_bound h k,
    take_image-fits c p s set none_bound h,
    inside-fits s (s - skip) h (omega arith),
  )

  compressed-Agree :
      (p s : ℕ) → s ≤ fbt_size → Agree s (s - 0) (send_compressed c s) (take_compressed c p s)
  compressed-Agree p s h = (
    send_compressed-fits c s none_bound h ∙ whole s,
    take_compressed-fits c p s none_bound h,
    inside-fits s (s - 0) h (omega arith),
  )

buffer-Agree : (p s : ℕ) → p ≢ 0 → s ≤ fbt_size → Agree s (s - 0) (send_buffer p s) (host_data s p)
buffer-Agree p s set h = (
  rw (==_of_ne p 0 set) (copy-fits s s h (omega arith) ∙ whole s),
  host_data-fits s p set h,
  inside-fits s (s - 0) h (omega arith),
)

-- With no pixel unpack buffer bound and a pointer that is not null, an image or buffer of at most
-- the buffer's size, less a skipped part of at most its size, goes through the buffer: the guest
-- copies it to the place that the host gives to GL, and the bytes lie inside the buffer.
pub upload-Agree :
    (u : Upload) (c : Client) (a : ℕ → ℕ)
    → c.pix_unpack_buf ≡ 0
    → pointer u a ≢ 0
    → size u c a ≤ fbt_size
    → skipped u c a ≤ size u c a
    → Agree (size u c a) (size u c a - skipped u c a) (guest_upload u c a) (host_upload u c a)
unfolding size skipped pointer guest_upload host_upload
upload-Agree bitmap c a b p h k = image-Agree c b (a 6) _ p h
upload-Agree tex_image_1d c a b p h k = image-Agree c b (a 7) _ p h
upload-Agree tex_image_2d c a b p h k = image-Agree c b (a 8) _ p h
upload-Agree tex_image_3d c a b p h k = image-Agree c b (a 9) _ p h
upload-Agree tex_sub_image_1d c a b p h k = part-Agree c b (a 6) _ _ p h k
upload-Agree tex_sub_image_2d c a b p h k = part-Agree c b (a 8) _ _ p h k
upload-Agree tex_sub_image_3d c a b p h k = part-Agree c b (a 10) _ _ p h k
upload-Agree compressed_1d c a b p h k = compressed-Agree c b (a 6) _ h
upload-Agree compressed_2d c a b p h k = compressed-Agree c b (a 7) _ h
upload-Agree compressed_8 c a b p h k = compressed-Agree c b (a 8) _ h
upload-Agree compressed_10 c a b p h k = compressed-Agree c b (a 10) _ h
upload-Agree buffer_data c a b p h k = buffer-Agree (a 2) _ p h
