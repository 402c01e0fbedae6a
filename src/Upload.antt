-- ===== src/Upload.antt =====
-- Data that goes through the large shared buffer `fbtm`: the wrappers of glTexImage*,
-- glTexSubImage*, glCompressedTex*, glBitmap, glBufferData and glBufferSubData of
-- wrappers/mesa/src/wrapgl32.c in the guest, and their cases of processArgs of
-- qemu-1/hw/mesa/mesapt_mm.c on the host. A place is a byte offset into the buffer. An unsigned
-- integer of the code has 32 bits and wraps around.
pub mod Agreement
pub mod Over
pub mod Memory
pub mod Chunks
pub mod Receive
mod Examples
use qemu_3dfx.Common.{
  ℕ, ◌+◌, ◌-◌, ◌*◌, ◌/◌, ◌%◌, Bool, true, false, Option, none, some, ltb, leb, ◌==◌, if◌then◌else◌,
}
use qemu_3dfx.Sizes.{szgldata}
use qemu_3dfx.ClientState.{Client}
use qemu_3dfx.VertexStream.{Copied, aligned}

-- `MGLFBT_SIZE`
abbrev pub fbt_size : ℕ
fbt_size = 0x2000000

abbrev pub to_uint32 : ℕ → ℕ
to_uint32 n = n % 0x100000000

-- `MGLFBT_SIZE - ALIGNED(size)`
abbrev pub place_of : ℕ → ℕ
place_of size = to_uint32 (0x100000000 + fbt_size - to_uint32 (aligned size))

-- `&fbtm[(MGLFBT_SIZE - ALIGNED(size)) >> 2]`
abbrev pub guest_place : ℕ → ℕ
guest_place size = 4 * (place_of size / 4)

-- `FBTMMCPY`
abbrev pub copy : ℕ → ℕ → Copied
copy place n = if leb n fbt_size then some (place, n) else none

-- A pointer for the host GL: a number of the guest's, or a place in the buffer.
pub data Pointer : Type 0 where
  given : ℕ → Pointer
  inside : ℕ → Pointer

-- `SZFBT_VALID(size, p)`
abbrev pub valid : ℕ → ℕ → ℕ
valid size p = if p == 0 then size else if ltb fbt_size size then fbt_size else size

-- The pointer for `size` bytes at the end of the buffer, or null for a null `p`.
abbrev pub host_data : ℕ → ℕ → Pointer
host_data size p = if p == 0 then given 0 else inside (place_of (valid size p))

-- `(szUnpackWidth == 0)? n:szUnpackWidth`, and the height likewise.
abbrev pub row : Client → ℕ → ℕ
row c n = if c.sz_unpack_width == 0 then n else c.sz_unpack_width

abbrev pub column : Client → ℕ → ℕ
column c n = if c.sz_unpack_height == 0 then n else c.sz_unpack_height

-- The upload of a whole image from a pointer that may be null.
abbrev pub send_image : Client → ℕ → ℕ → Copied
send_image c p size =
    if p == 0 then none else if c.pix_unpack_buf == 0 then copy (guest_place size) size else none

-- The upload of a part of an image, less what lies before its first column.
abbrev pub send_part : Client → ℕ → ℕ → Copied
send_part c size skip =
    if c.pix_unpack_buf == 0
    then copy (guest_place size) (to_uint32 (0x100000000 + size - to_uint32 skip))
    else none

abbrev pub skip_of : Client → ℕ → ℕ → ℕ
skip_of c offset bytes = if c.sz_unpack_width == 0 then 0 else offset * bytes

abbrev pub send_compressed : Client → ℕ → Copied
send_compressed c size = if c.pix_unpack_buf == 0 then copy (guest_place size) size else none

abbrev pub send_buffer : ℕ → ℕ → Copied
send_buffer p size = if p == 0 then none else copy (guest_place size) size

-- What the host makes of each: the application's number when a buffer object is bound.
abbrev pub take_image : Client → ℕ → ℕ → Pointer
take_image c p size = if c.pix_unpack_buf == 0 then host_data size p else given p

abbrev pub take_compressed : Client → ℕ → ℕ → Pointer
take_compressed c p size =
    if c.pix_unpack_buf == 0 then inside (place_of (valid size p)) else given p

-- What processArgs gives to the host GL for glBufferData: the size, which is not clamped, and the
-- pointer.
pub host_buffer_data : (ℕ → ℕ) → ℕ × Pointer
host_buffer_data a = (a 1, host_data (a 1) (a 2))

-- The calls; the variants of extensions have the same bodies. `compressed_1d` also sends
-- a part of such an image, `compressed_8` a three-dimensional image or a part of a
-- two-dimensional one, and `compressed_10` a part of a three-dimensional one.
pub data Upload : Type 0 where
  bitmap : Upload
  tex_image_1d : Upload
  tex_image_2d : Upload
  tex_image_3d : Upload
  tex_sub_image_1d : Upload
  tex_sub_image_2d : Upload
  tex_sub_image_3d : Upload
  compressed_1d : Upload
  compressed_2d : Upload
  compressed_8 : Upload
  compressed_10 : Upload
  buffer_data : Upload

-- `szBmp` and `szTex`, or the argument that holds the size.
unfoldable pub size : Upload → Client → (ℕ → ℕ) → ℕ
size bitmap c a = to_uint32 (row c (a 0) * a 1)
size tex_image_1d c a = to_uint32 (row c (a 3) * szgldata (a 5) (a 6))
size tex_image_2d c a = to_uint32 (row c (a 3) * a 4 * szgldata (a 6) (a 7))
size tex_image_3d c a = to_uint32 (row c (a 3) * column c (a 4) * a 5 * szgldata (a 7) (a 8))
size tex_sub_image_1d c a = to_uint32 (row c (a 3) * szgldata (a 4) (a 5))
size tex_sub_image_2d c a = to_uint32 (row c (a 4) * a 5 * szgldata (a 6) (a 7))
size tex_sub_image_3d c a = to_uint32 (row c (a 5) * column c (a 6) * a 7 * szgldata (a 8) (a 9))
size compressed_1d c a = a 5
size compressed_2d c a = a 6
size compressed_8 c a = a 7
size compressed_10 c a = a 9
size buffer_data c a = a 1

-- What a part of an image leaves out.
unfoldable pub skipped : Upload → Client → (ℕ → ℕ) → ℕ
skipped tex_sub_image_1d c a = skip_of c (a 2) (szgldata (a 4) (a 5))
skipped tex_sub_image_2d c a = skip_of c (a 2) (szgldata (a 6) (a 7))
skipped tex_sub_image_3d c a = skip_of c (a 2) (szgldata (a 8) (a 9))
skipped _ c a = 0

-- The argument that holds the pointer.
unfoldable pub pointer : Upload → (ℕ → ℕ) → ℕ
pointer bitmap a = a 6
pointer tex_image_1d a = a 7
pointer tex_image_2d a = a 8
pointer tex_image_3d a = a 9
pointer tex_sub_image_1d a = a 6
pointer tex_sub_image_2d a = a 8
pointer tex_sub_image_3d a = a 10
pointer compressed_1d a = a 6
pointer compressed_2d a = a 7
pointer compressed_8 a = a 8
pointer compressed_10 a = a 10
pointer buffer_data a = a 2

-- What a wrapper copies into the buffer.
unfoldable pub guest_upload : Upload → Client → (ℕ → ℕ) → Copied
guest_upload bitmap c a = send_image c (a 6) (to_uint32 (row c (a 0) * a 1))
guest_upload tex_image_1d c a = send_image c (a 7) (to_uint32 (row c (a 3) * szgldata (a 5) (a 6)))
guest_upload tex_image_2d c a =
    send_image c (a 8) (to_uint32 (row c (a 3) * a 4 * szgldata (a 6) (a 7)))
guest_upload tex_image_3d c a =
    send_image c (a 9) (to_uint32 (row c (a 3) * column c (a 4) * a 5 * szgldata (a 7) (a 8)))
guest_upload tex_sub_image_1d c a =
    send_part c (to_uint32 (row c (a 3) * szgldata (a 4) (a 5)))
      (skip_of c (a 2) (szgldata (a 4) (a 5)))
guest_upload tex_sub_image_2d c a =
    send_part c (to_uint32 (row c (a 4) * a 5 * szgldata (a 6) (a 7)))
      (skip_of c (a 2) (szgldata (a 6) (a 7)))
guest_upload tex_sub_image_3d c a =
    send_part c (to_uint32 (row c (a 5) * column c (a 6) * a 7 * szgldata (a 8) (a 9)))
      (skip_of c (a 2) (szgldata (a 8) (a 9)))
guest_upload compressed_1d c a = send_compressed c (a 5)
guest_upload compressed_2d c a = send_compressed c (a 6)
guest_upload compressed_8 c a = send_compressed c (a 7)
guest_upload compressed_10 c a = send_compressed c (a 9)
guest_upload buffer_data c a = send_buffer (a 2) (a 1)

-- The pointer that processArgs gives to the host GL.
unfoldable pub host_upload : Upload → Client → (ℕ → ℕ) → Pointer
unfolding host_buffer_data
host_upload bitmap c a = take_image c (a 6) (to_uint32 (row c (a 0) * a 1))
host_upload tex_image_1d c a = take_image c (a 7) (to_uint32 (row c (a 3) * szgldata (a 5) (a 6)))
host_upload tex_image_2d c a =
    take_image c (a 8) (to_uint32 (row c (a 3) * a 4 * szgldata (a 6) (a 7)))
host_upload tex_image_3d c a =
    take_image c (a 9) (to_uint32 (row c (a 3) * column c (a 4) * a 5 * szgldata (a 7) (a 8)))
host_upload tex_sub_image_1d c a =
    take_image c (a 6) (to_uint32 (row c (a 3) * szgldata (a 4) (a 5)))
host_upload tex_sub_image_2d c a =
    take_image c (a 8) (to_uint32 (row c (a 4) * a 5 * szgldata (a 6) (a 7)))
host_upload tex_sub_image_3d c a =
    take_image c (a 10) (to_uint32 (row c (a 5) * column c (a 6) * a 7 * szgldata (a 8) (a 9)))
host_upload compressed_1d c a = take_compressed c (a 6) (a 5)
host_upload compressed_2d c a = take_compressed c (a 7) (a 6)
host_upload compressed_8 c a = take_compressed c (a 8) (a 7)
host_upload compressed_10 c a = take_compressed c (a 10) (a 9)
host_upload buffer_data c a = (host_buffer_data a).1
