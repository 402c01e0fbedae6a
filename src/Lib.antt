-- ===== src/Lib.antt =====
-- QEMU-3dfx passes OpenGL and Glide calls of a guest to the host GPU. A wrapper in the guest writes
-- each call into a queue in shared memory and its data into a stream behind it, a trap makes the
-- device model of QEMU run the queue, and the device keeps on the host what the calls refer to: the
-- client's vertex arrays, mapped buffer objects and sync objects. This library models that machinery
-- on both sides and proves what makes it correct.
--
-- Common           lists as C arrays, Boolean tests, signed integers, shared lemmas.
-- Fifo             the queue: fifoAddEntry of wrappers/mesa/src/wrapgl32.c in the guest, processFifo of
--                  qemu-1/hw/mesa/mesapt_mm.c on the host. Child modules: what the memory holds
--                  (Memory), and that every call is run (Delivery).
-- Traps            the registers of the device: mesapt_read, mesapt_write and ContextCreateCommon of
--                  qemu-1/hw/mesa/mesapt_mm.c. Order and Safe for the order of the host's calls, Unload
--                  for the end of a process. A trap runs the queue of Fifo.
-- VertexStream     the vertex arrays that a draw call sends: fifoAddData and PushVertexArray of
--                  wrappers/mesa/src/wrapgl32.c, vtxarry_push and PushVertexArray of
--                  qemu-1/hw/mesa/mesapt_mm.c. Child modules: Window for the bounds of the copies,
--                  Agreement for the two sides together, Prepare for PrepVertexArray.
-- Draw             the draw calls: glDrawElements*, glDrawRangeElements*, glDrawArrays and glArrayElement
--                  of wrappers/mesa/src/wrapgl32.c and their cases of processArgs; Range for the range of
--                  the indices, Agreement for the two sides. It uses VertexStream.
-- Calls            what a call of a GL function puts into queue and data stream (the wrappers of
--                  wrappers/mesa/src/wrapgl32.c), and what the host takes out: getNumArgs of
--                  qemu-1/hw/mesa/mesagl_impl.c on the table of qemu-1/hw/mesa/mglfptbl.h, and
--                  `datacb` behind processArgs of qemu-1/hw/mesa/mesapt_mm.c. One module for each
--                  family of names (Color3 for glColor3*); Function puts them together, Agreement
--                  and Stream compare the sides for one call and for a sequence, Delivery puts them
--                  together with the queue of Fifo, Shifts names the calls after which they differ.
-- Upload           data that goes through the large shared buffer: the wrappers of glTexImage*,
--                  glTexSubImage*, glCompressedTex*, glBitmap, glBufferData and glBufferSubData of
--                  wrappers/mesa/src/wrapgl32.c, and their cases of processArgs. Agreement for the
--                  places on both sides, Over for what does not fit, Chunks and Receive for the
--                  loops over the data of a buffer object, on the copies of Memory.
-- ClientState      what both sides remember of the client's GL state: vtxarry_state, vattr2arry_state
--                  and the cases of processFRet of qemu-1/hw/mesa/mesapt_mm.c, and the wrappers of
--                  the same calls of wrappers/mesa/src/wrapgl32.c; Invariant for the host, Sides
--                  for the two together. What is remembered decides what VertexStream sends.
-- VertexCache      LookupVertArry and FreeVertArry of qemu-1/hw/mesa/mglvarry.c, the memory that the
--                  vertex arrays are copied to. VertexStream/Window uses its bounds.
-- Buffer           the mapped buffer objects of qemu-1/hw/mesa/mglmapbo.c: the list as a finite map
--                  (Registry), and the guest addresses that MapBufObjGpa chooses (Placement).
-- Sync             the sync objects of qemu-1/hw/mesa/mglmapbo.c and their handles (Handles).
-- StateBuffer      the saved Glide states and vertex layouts of qemu-0/hw/3dfx/gllstbuf.c (Lookup).
-- VertexLayout     the vertices of Glide 3: qemu-0/hw/3dfx/vertex3x.h, which
--                  wrappers/3dfx/src/gl301dll.c and qemu-0/hw/3dfx/glidept_mm.c include, and the calls
--                  that send them. Size for the size of a vertex, Agreement for the two sides, Outside
--                  for the parameters that the array has no place for.
-- Flight           the flight recorder of qemu-1/hw/mesa/mesagl_flight.c and mesagl_flight.h, its hooks
--                  and flight_flush: the ring (Ring), and the file (Account).
-- Timers           the multimedia timers of wrappers/fxlib/fxtime.c: Earliest for the search of the
--                  callback, Ids and Kill for the ids that applications get, Ends for its end.
-- Sizes            the tables and functions of qemu-1/hw/mesa/szgldata.c, which VertexStream uses.
--
-- A module Examples in each part holds its tests and its theorems at concrete inputs.
--
-- How the models read the code. A linked list is a List in the order of its next pointers, and a
-- pointer to an element is the key that no two elements share. Memory that the code writes is a list
-- of words or is given by offset and length. An unsigned integer of w bits is a number whose
-- wrap-around is written out; vtxarry_push, whose arguments the guest may make negative, takes signed
-- integers; the sizes and positions of PushVertexArray are numbers, so that negative strides and
-- overflowing int products are outside the model (Draw.Fits says which draw calls stay inside it). Messages on stderr and the FVM3DX_FIFO_CHECK and
-- flight recorder hooks are left out of the other parts: they change no other state. The first
-- argument word that InitMesaPTMMBase writes behind the queue, and the number of the trapped call,
-- which processFifo saves and restores, are left out as well.
--
-- The counters of the flight recorder do not wrap around in the model.
--
-- What is a parameter: the checksum instruction behind a sync handle; the host's page size; what the
-- clocks read and the events that are recorded; what g_malloc returns for a state buffer; the table
-- of argument counts that processFifo consults, and the handling of one call (processArgs,
-- doMesaFunc, processFRet), any function of the state, the call and the place of its data that does
-- not write to the queue; the driver's function behind glBufferSubData, which copies what it is told
-- to; what the shared memory holds when a trap comes, and what the host's window system functions
-- answer, any value; what an application does when its timer function is called, any list of calls
-- to set or kill timers.
--
-- Fuel: a run of the timers' callback takes as many rounds as the clock is read. The loops of
-- glBufferSubData and glGetBufferSubData take a round for each chunk of 0x1fff000 bytes. The loop of
-- processFifo takes as much fuel as the first word of the queue counts, and each round moves on by
-- at least one word.
--
-- Not modelled: of the single GL calls all but the arguments and the data named above, the host GL
-- behind them, the window systems, the rest of the Glide device and its wrappers, the threads and
-- locks behind the multimedia timers, and the program patches of wrappers/fxlib.
pub mod Common
pub mod Sync
pub mod Buffer
pub mod VertexCache
pub mod Sizes
pub mod Upload
pub mod VertexStream
pub mod Fifo
pub mod ClientState
pub mod Flight
pub mod StateBuffer
pub mod Calls
pub mod Draw
pub mod Timers
pub mod Traps
pub mod VertexLayout
