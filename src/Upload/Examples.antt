-- ===== src/Upload/Examples.antt =====
-- Uploads at concrete inputs.
use qemu_3dfx.Common.{ℕ, ◌+◌, ◌-◌, ◌≡◌, refl, none, some, [], ◌∷◌, get_or, arith}
use qemu_3dfx.Sizes.{szgldata}
use qemu_3dfx.ClientState.{Client, init_client_states}
use qemu_3dfx.VertexStream.{aligned}
use qemu_3dfx.Upload.{
  host_buffer_data, tex_image_2d, tex_sub_image_2d, buffer_data, given, inside, fbt_size,
  guest_upload, host_upload, size, skipped, pointer,
}
use qemu_3dfx.Upload.Agreement.{Agree, upload-Agree}
use qemu_3dfx.Upload.Over.{ReadsBehind, buffer_data_over, sub_image_before}
use qemu_3dfx.Upload.Memory.{memcpy, Store, Driver}
use qemu_3dfx.Upload.Chunks.{Sent, buffer_sub_data, buffer_sub_data_sends}
use qemu_3dfx.Upload.Receive.{Received, get_buffer_sub_data, get_buffer_sub_data_receives}

-- 3 by 5 pixels of GL_RGB and GL_UNSIGNED_BYTE, at the address 0x400000.
abbrev image : ℕ → ℕ
image i = get_or (0xde1 ∷ 0 ∷ 0x1907 ∷ 3 ∷ 5 ∷ 0 ∷ 0x1907 ∷ 0x1401 ∷ 0x400000 ∷ []) i 0

copied_image : guest_upload tex_image_2d init_client_states image ≡ some (fbt_size - 48, 45)
unfolding guest_upload szgldata
copied_image = refl

-- A pixel unpack buffer is bound: the pointer is an offset into it.
abbrev bound : Client
bound = record init_client_states { pix_unpack_buf = 7 }

bound_guest : guest_upload tex_image_2d bound image ≡ none
unfolding guest_upload
bound_guest = refl

bound_host : host_upload tex_image_2d bound image ≡ given 0x400000
unfolding host_upload
bound_host = refl

upload-Agree_example :
    Agree
      (size tex_image_2d init_client_states image)
      (size tex_image_2d init_client_states image - skipped tex_image_2d init_client_states image)
      (guest_upload tex_image_2d init_client_states image)
      (host_upload tex_image_2d init_client_states image)
unfolding size skipped pointer szgldata
upload-Agree_example =
    upload-Agree tex_image_2d init_client_states image refl (omega arith) (omega arith)
      (omega arith)

-- 64 MB.
abbrev large : ℕ → ℕ
large i = get_or (0x8892 ∷ 0x4000000 ∷ 0x400000 ∷ 0x88e4 ∷ []) i 0

buffer_data_over_example :
    (guest_upload buffer_data init_client_states large ≡ none)
    × (host_buffer_data large ≡ (size buffer_data init_client_states large, inside 0))
    × ReadsBehind (host_buffer_data large)
unfolding size
buffer_data_over_example = buffer_data_over init_client_states large (omega arith) (omega arith)

-- 4096 by 2049 pixels of 4 bytes, the last 1 by 2049 of which go to a texture of 8192 columns.
abbrev rows : Client
rows = record init_client_states { sz_unpack_width = 4096 }

abbrev part : ℕ → ℕ
part i = get_or (0xde1 ∷ 0 ∷ 8191 ∷ 0 ∷ 1 ∷ 2049 ∷ 0x1908 ∷ 0x1401 ∷ 0x400000 ∷ []) i 0

sub_image_before_example :
    guest_upload tex_sub_image_2d rows part
    ≡ some (
      0x100000000 - (aligned (size tex_sub_image_2d rows part) - fbt_size),
      size tex_sub_image_2d rows part - skipped tex_sub_image_2d rows part,
    )
unfolding size skipped szgldata
sub_image_before_example =
    sub_image_before rows part refl (omega arith) (omega arith) (omega arith) (omega arith)

before : size tex_sub_image_2d rows part ≡ 0x2000000 + 0x4000
unfolding size szgldata
before = refl

-- A driver that moves what it is told to.
abbrev driver : Driver
driver to d n from s = memcpy to d from s n

abbrev store : Store
store = record { app = λ i. i; fbtm = λ _. 0; hshm = λ _. 2; object = λ _. 1 }

null_pointer : (buffer_sub_data driver 2 5 0x2000000 0 store).0 ≡ 0x2000000
unfolding buffer_sub_data
null_pointer = refl

-- 32 MB take two rounds.
buffer_sub_data_sends_example :
    Sent 5 0x2000000 0x1000 store (buffer_sub_data driver 2 5 0x2000000 0x1000 store)
buffer_sub_data_sends_example =
    buffer_sub_data_sends driver (λ to d n from s i. refl) 2 5 0x2000000 0x1000 store (omega arith)
      (omega arith) (omega arith) (omega arith)

get_buffer_sub_data_receives_example :
    Received 5 0x2000000 0x1000 store (get_buffer_sub_data driver 2 5 0x2000000 0x1000 store)
get_buffer_sub_data_receives_example =
    get_buffer_sub_data_receives driver (λ to d n from s i. refl) 2 5 0x2000000 0x1000 store
      (omega arith) (omega arith) (omega arith)
