-- ===== src/Calls/Examples.antt =====
-- Tests of the calls, and the theorems of Calls at inputs.
use qemu_3dfx.Common.{
  ℕ, ◌+◌, ◌≤◌, ◌==◌, ◌≡◌, refl, List, [], ◌∷◌, arith, All, if◌then◌else◌, set, length, replicate,
}
use qemu_3dfx.Fifo.{num_data}
use qemu_3dfx.Calls.{Agrees}
use qemu_3dfx.Calls.Color3.{color3fv, color3_entry, color3_bytes, color3_datacb}
use qemu_3dfx.Calls.Vertex3.{vertex3sv, vertex3_entry, vertex3_bytes, vertex3_datacb}
use qemu_3dfx.Calls.Delete.{delete_textures, delete_entry, delete_bytes, delete_datacb}
use qemu_3dfx.Calls.Function.{Function, color3, vertex3, delete, bytes, entry, datacb}
use qemu_3dfx.Calls.Agreement.{call-Agrees}
use qemu_3dfx.Calls.Stream.{Call, Place, guest_steps, guest_step, Fits}
use qemu_3dfx.Fifo
use qemu_3dfx.Fifo.{first_fifo, Shared, Device}
use qemu_3dfx.Fifo.Memory.{encode}
use qemu_3dfx.Fifo.Delivery.{Delivered}
use qemu_3dfx.Calls.Delivery.{queue_calls, IsServed, run, first_place, calls-Delivered}

-- The argument words: three of everything.
abbrev three : ℕ → ℕ
three _ = 3

-- glColor3fv, glVertex3sv and glDeleteTextures of three names.
abbrev calls : List Call
calls =
    record { function = color3 color3fv; arg = three }
    ∷ record { function = vertex3 vertex3sv; arg = three }
    ∷ record { function = delete delete_textures; arg = three }
    ∷ []

abbrev start : Place
start = record { i = 24; j = 2 }

-- Four words, two, and four; one argument, one, and two.
guest_place : guest_steps start calls ≡ record { i = 31; j = 12 }
unfolding guest_steps guest_step entry color3_entry vertex3_entry delete_entry
guest_place = refl

call-Agrees_example :
    Agrees
      (entry (delete delete_textures) three)
      (bytes (delete delete_textures))
      (datacb (delete delete_textures) three)
call-Agrees_example = call-Agrees (delete delete_textures) three refl

calls_fit : All Fits calls
unfolding entry color3_entry vertex3_entry delete_entry
calls_fit = ((refl, refl), ((refl, refl), ((refl, refl), tt)))

-- Numbers of the three functions, their arguments and the bytes of their data.
abbrev number : Function → ℕ
number (color3 f) = 0xc6
number (vertex3 f) = 0x9f1
number _ = 0x1b0

abbrev args_cnt : ℕ → ℕ
args_cnt n = if n == 0x1b0 then 2 else 1

abbrev handle : ℕ → qemu_3dfx.Fifo.Call → ℕ → ℕ × ℕ
handle s c j = (s + 1, if c.fenum == 0x9f1 then 8 else 16)

abbrev empty : Shared
empty = record { fifo = set (replicate 64 0) 0 24; data0 = 2 }

abbrev idle : Device args_cnt handle
idle = record { fifo_max = 0; data_max = 0; hshm = 0; calls_run = 0; state = 0 }

calls-IsServed : All (IsServed number args_cnt handle) calls
unfolding bytes datacb color3_bytes vertex3_bytes delete_bytes color3_datacb vertex3_datacb
    delete_datacb
calls-IsServed = ((refl, λ s j. refl), ((refl, λ s j. refl), ((refl, λ s j. refl), tt)))

has_room : first_fifo + length (encode (queue_calls number calls)) ≤ length empty.fifo
unfolding entry color3_entry vertex3_entry delete_entry
has_room = omega arith

calls-Delivered_example :
    Delivered args_cnt handle idle
      (queue_calls number calls)
      (run number args_cnt handle empty idle calls)
    × ((run number args_cnt handle empty idle calls).1.hshm ≡ (guest_steps first_place calls).j)
calls-Delivered_example =
    calls-Delivered number args_cnt handle empty idle calls refl has_room calls_fit calls-IsServed
