-- ===== src/Calls.antt =====
-- What a call of a GL function puts into the queue and into the data stream, and what the host takes
-- out for it: the wrappers of wrappers/mesa/src/wrapgl32.c in the guest, and on the host getNumArgs
-- of qemu-1/hw/mesa/mesagl_impl.c on the table of qemu-1/hw/mesa/mglfptbl.h, and processArgs of
-- qemu-1/hw/mesa/mesapt_mm.c. The functions of one family of names are one module; `a k` is the
-- argument word number k. Sizes are numbers: products that overflow an int are outside the model.
pub mod Words
pub mod Color3
pub mod Color4
pub mod EvalCoord
pub mod MultiTexCoord1
pub mod MultiTexCoord2
pub mod MultiTexCoord3
pub mod MultiTexCoord4
pub mod Normal3
pub mod RasterPos
pub mod Rect
pub mod SecondaryColor3
pub mod TexCoord1
pub mod TexCoord2
pub mod TexCoord3
pub mod TexCoord4
pub mod Vertex2
pub mod Vertex3
pub mod Vertex4
pub mod VertexAttrib1
pub mod VertexAttrib2
pub mod VertexAttrib3
pub mod VertexAttrib4
pub mod VertexAttribs
pub mod Delete
pub mod Uniform1
pub mod Uniform2
pub mod Uniform3
pub mod Uniform4
pub mod UniformMatrix
pub mod Light
pub mod Material
pub mod TexGen
pub mod ClearBuffer
pub mod SetFence
pub mod TextureBuffer
pub mod SamplerParameter
pub mod TexEnv
pub mod PointParameter
pub mod LoadMatrix
pub mod MultMatrix
pub mod PixelMap
pub mod ColorTable
pub mod BindSampler
pub mod Scissor
pub mod Viewport
pub mod DepthRange
pub mod Map1
pub mod Map2
pub mod Function
pub mod Agreement
pub mod Stream
pub mod Delivery
pub mod Shifts
mod Examples
use qemu_3dfx.Common.{ℕ, ◌+◌, ◌*◌, ◌/◌, ◌%◌, ◌≡◌, List, [], ◌∷◌, ◌==◌, if◌then◌else◌}
use qemu_3dfx.Fifo.{num_data}
use qemu_3dfx.VertexStream.{even_up}
pub use qemu_3dfx.VertexStream.{aligned}

-- A wrapper: the argument words that it writes, whether they are queued by FIFO_GLFUNC or trap at
-- once, and the sizes in bytes of what it gives to fifoAddData.
pub data Entry : Type 0 where
  queued : ℕ → List ℕ → Entry
  trapped : ℕ → List ℕ → Entry

abbrev pub words : Entry → ℕ
words (queued n cbs) = n
words (trapped n cbs) = n

abbrev pub sizes : Entry → List ℕ
sizes (queued n cbs) = cbs
sizes (trapped n cbs) = cbs

-- What fifoAddData makes of `mdata[0]`.
abbrev pub add_data : ℕ → ℕ → ℕ
add_data j cb = even_up (j + num_data cb)

abbrev pub add_all : ℕ → List ℕ → ℕ
add_all j [] = j
add_all j (cb ∷ cbs) = add_all (add_data j cb) cbs

-- `getNumArgs`: the number behind the @ of a symbol, in words.
abbrev pub get_num_args : ℕ → ℕ
get_num_args bytes = bytes / 4

-- The words of the data stream that pieces of these sizes take, from an even word on.
abbrev pub sent : List ℕ → ℕ
sent [] = 0
sent (cb ∷ cbs) = even_up (num_data cb) + sent cbs

-- The guest writes as many argument words as the table of the host says, and sends as many words of
-- data as the host takes.
abbrev pub Agrees : Entry → ℕ → ℕ → Type 0
Agrees e bytes datacb = (words e ≡ get_num_args bytes) × (sent (sizes e) ≡ num_data datacb)
