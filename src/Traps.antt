-- ===== src/Traps.antt =====
-- The registers by which the guest drives the device: mesapt_read, mesapt_write and
-- ContextCreateCommon of qemu-1/hw/mesa/mesapt_mm.c. What the guest left in the shared memory and what
-- the functions of the host answer are the trap's input. Of the host's functions the order of those
-- that Act names is kept, without MGLForgetCurrent and MGLRestoreCurrent at the start of a write.
-- What the queued calls do, the client state, the mapped buffers, the messages and the statistics
-- stand in other modules or are left out; of the queue and the data stream only the first words.
pub mod Order
pub mod Safe
pub mod Unload
mod Examples
use qemu_3dfx.Common.{
  ℕ, ◌+◌, ◌-◌, ◌*◌, ◌/◌, ◌%◌, Bool, true, false, ◌&&◌, ◌||◌, not, List, [], ◌∷◌, ◌==◌,
  if◌then◌else◌,
}
use qemu_3dfx.Fifo.{first_fifo, first_data}

-- `MESAGL_MAGIC`, and the number of glDebugMessageInsertARB.
abbrev pub magic : ℕ
magic = 0x5b5eb5e5

abbrev pub debug_message_insert : ℕ
debug_message_insert = 0x18c

-- The calls of the host: the functions MGL* with their arguments, the queue's calls (`run_queue`), a
-- trapped call, and `MesaResetClientArrays`. `make_current` also has whether it succeeded.
pub data Act : Type 0 where
  tmp_context : Act
  wnd_release : Act
  create_context : ℕ → Act
  make_current : ℕ → ℕ → Bool → Act
  delete_context : ℕ → Act
  reset_client_arrays : Act
  run_queue : Act
  run_call : ℕ → Act
  swap_buffers : Act
  func_handler : Act
  activate : ℕ → Act

-- The name at the start of the last page of the shared memory, as far as the device knows it.
pub data WglName : Type 0 where
  set_drawable_size : WglName
  create_context_attribs : WglName
  choose_pixel_format : WglName
  another : WglName

-- What a trap finds: `memcmp` with the build's stamp, the first two words of the last page
-- (`page0` also counts for `swapRet[0]`), the name there and the first two words behind it when
-- MGLFuncHandler has run, `fifoptr[1]`, and what the host answers.
pub record Input : Type 0 where
  pub same_build : Bool
  pub init_fails : Bool
  pub page0 : ℕ
  pub name : WglName
  pub args0 : ℕ
  pub args1 : ℕ
  pub fifo1 : ℕ
  pub create_fails : Bool
  pub current_fails : Bool
  pub pixel_format : ℕ
  pub described : ℕ
  pub format_set : Bool
  pub is_valid : Bool
  pub window_ready : ℕ
  pub cache_mb : ℕ
  pub timer_ms : ℕ

-- The fields of `MesaPTState` that the traps keep, the first words of the queue and the data stream,
-- and the calls of the host, the last one first.
pub record PtState : Type 0 where
  pub mgl_context : ℕ
  pub mgl_cntx_current : ℕ
  pub mgl_cntx_att : ℕ
  pub mgl_cntx_wgl : ℕ
  pub reset_pending : Bool
  pub mesa_ver : ℕ
  pub f_ret : ℕ
  pub proc_ret : ℕ
  pub pixfmt : ℕ
  pub pixfmt_max : ℕ
  pub sz_vert_cache : ℕ
  pub sz_used_buf : ℕ
  pub disp_timer : Bool
  pub fifo0 : ℕ
  pub data0 : ℕ
  pub host : List Act

abbrev pub device : PtState
device = record {
  mgl_context = 0;
  mgl_cntx_current = 0;
  mgl_cntx_att = 0;
  mgl_cntx_wgl = 0;
  reset_pending = false;
  mesa_ver = 0;
  f_ret = 0;
  proc_ret = 0;
  pixfmt = 0;
  pixfmt_max = 0;
  sz_vert_cache = 0;
  sz_used_buf = 0;
  disp_timer = false;
  fifo0 = 0;
  data0 = 0;
  host = [];
}

abbrev pub is_set : ℕ → Bool
is_set n = not (n == 0)

-- `s->mglContext && s->mglCntxCurrent`
abbrev pub is_current : PtState → Bool
is_current d = is_set d.mgl_context && is_set d.mgl_cntx_current

abbrev pub act : Act → PtState → PtState
act a d = record d { host = a ∷ d.host }

-- `processFifo`, and the end of its caller's part.
abbrev pub process_queue : PtState → PtState
process_queue d =
    if d.fifo0 == first_fifo then d else act run_queue (record d { fifo0 = first_fifo })

abbrev pub reset_data : PtState → PtState
reset_data d = record d { data0 = first_data }

-- `ContextCreateCommon`
abbrev pub context_create_common : PtState → PtState
context_create_common d = record d { sz_used_buf = 0; reset_pending = true }

-- The DLL register: the wrapper was loaded, or unloaded.
unfoldable pub load : Input → ℕ → PtState → PtState
load inp val d =
    if inp.same_build && not inp.init_fails
    then act tmp_context
        (record d { mesa_ver = val / 0x1000 % 0x100 + val % 0x1000 * 0x100; mgl_cntx_att = 0 })
    else record d { mesa_ver = 0 }

unfoldable pub unload : PtState → PtState
unload d =
    let deleted =
      if is_set d.mgl_context then act (delete_context 0) (record d { mgl_context = 0 }) else d in
    if is_set d.mesa_ver then act wnd_release deleted else deleted

-- A call that traps.
unfoldable pub trap_call : ℕ → PtState → PtState
trap_call val d =
    if is_current d || val == debug_message_insert
    then reset_data (act (run_call val) (process_queue d))
    else d

-- The part before the switch.
abbrev pub flush_queue : PtState → PtState
flush_queue d = if is_current d then reset_data (process_queue d) else d

unfoldable pub create_cntx : Input → PtState → PtState
create_cntx inp d =
    let created = act (create_context inp.page0) d in
    if is_set d.mgl_context
    then created
    else context_create_common (record created {
      mgl_context = if inp.create_fails then 0 else if is_set d.mgl_cntx_att then 0 else 1;
    })

-- `level`, an int, modulo 2^32.
abbrev pub level_of : ℕ → ℕ
level_of p = if p / 0x10 == magic / 0x10 then (0x100000000 + magic - p) % 0x100000000 else 0

abbrev pub reset_arrays : PtState → PtState
reset_arrays d =
    if is_set d.mgl_cntx_current && d.reset_pending
    then act reset_client_arrays (record d { reset_pending = false })
    else d

unfoldable pub make_cntx : Input → PtState → PtState
make_cntx inp d =
    let made = act (make_current inp.page0 (level_of inp.page0) (not inp.current_fails)) d in
    if is_set d.mgl_context && d.mgl_cntx_current == 0 && is_set inp.page0
    then record (reset_arrays
        (record made { mgl_cntx_current = if inp.current_fails then 0 else 1 })) {
          sz_vert_cache = inp.cache_mb * 0x80000;
          disp_timer = is_set inp.timer_ms;
        }
    else made

-- `MESAGL_MAGIC - val` is 0 here.
unfoldable pub delete_cntx : PtState → PtState
delete_cntx d =
    let deleted = act (delete_context 0) d in
    if is_current d
    then record deleted {
      disp_timer = false;
      mgl_context = 0;
      mgl_cntx_wgl = 0;
      mgl_cntx_current = 0;
    }
    else deleted

unfoldable pub wgl_func : Input → WglName → PtState → PtState
wgl_func inp set_drawable_size d = d
wgl_func inp create_context_attribs d =
    let handled = act func_handler d in
    let cntx = if is_set d.mgl_cntx_att then 0 else inp.args0 in
    if is_set inp.args0 && inp.args1 == 0
    then context_create_common
        (record handled { mgl_cntx_current = 0; mgl_context = cntx; mgl_cntx_wgl = cntx })
    else handled
wgl_func inp choose_pixel_format d = record (act func_handler d) { mgl_cntx_wgl = inp.args0 }
wgl_func inp another d = act func_handler d

-- The switch.
unfoldable pub dispatch_trap : Input → ℕ → PtState → PtState
unfolding create_cntx make_cntx delete_cntx wgl_func
dispatch_trap inp addr d =
    if addr == 0xffc
    then create_cntx inp d
    else if addr == 0xff8
    then make_cntx inp d
    else if addr == 0xff4
    then delete_cntx d
    else if addr == 0xff0
    then act swap_buffers d
    else if addr == 0xfec
    then record d { pixfmt = inp.pixel_format }
    else if addr == 0xfe8
    then record d { pixfmt_max = if is_set inp.fifo1 then inp.described else 0 }
    else if addr == 0xfe4
    then record d { proc_ret = if inp.format_set && is_set inp.fifo1 then magic else 0 }
    else if addr == 0xfe0
    then record d { proc_ret = if inp.is_valid then magic else 0 }
    else if addr == 0xfdc
    then wgl_func inp inp.name d
    else if addr == 0xfd8
    then (if is_current d then act (activate inp.page0) d else d)
    else d

unfoldable pub mesapt_write : Input → ℕ → ℕ → PtState → PtState
unfolding load unload trap_call dispatch_trap
mesapt_write inp addr val d =
    if addr == 0xfbc
    then (if val == 0xa0320 then load inp val d else if val == 0xd0320 then unload d else d)
    else if addr == 0xfc0
    then trap_call val d
    else if val == magic
    then dispatch_trap inp addr (flush_queue d)
    else d

-- What a register reads, and the device behind it.
unfoldable pub mesapt_read : Input → ℕ → PtState → ℕ × PtState
mesapt_read inp addr d =
    if addr == 0xfb8
    then (inp.window_ready, d)
    else if addr == 0xfbc
    then (d.mesa_ver, d)
    else if addr == 0xfc0
    then (d.f_ret, d)
    else if addr == 0xfec
    then (d.pixfmt, d)
    else if addr == 0xfe8
    then (d.pixfmt_max, d)
    else if addr == 0xfe4 || addr == 0xfe0
    then (d.proc_ret, record d { proc_ret = 0 })
    else (0, d)
