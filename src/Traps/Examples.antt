-- ===== src/Traps/Examples.antt =====
-- The traps at concrete states.
use qemu_3dfx.Common.{◌≡◌, refl, true, false, [], ◌∷◌, arith}
use qemu_3dfx.Traps.{
  magic, tmp_context, create_context, make_current, reset_client_arrays, run_queue, run_call, Input,
  another, PtState, device, is_current, mesapt_write, mesapt_read, load, dispatch_trap, create_cntx,
  make_cntx, trap_call,
}
use qemu_3dfx.Traps.Order.{Current, IsSafe, Reached, starts, queues, writes}
use qemu_3dfx.Traps.Safe.{Reached-IsSafe}
use qemu_3dfx.Traps.Unload.{IsEarly, unload_keeps_current}

abbrev inp : Input
inp = record {
  same_build = true;
  init_fails = false;
  page0 = magic;
  name = another;
  args0 = 0;
  args1 = 0;
  fifo1 = 0x1000;
  create_fails = false;
  current_fails = false;
  pixel_format = 1;
  described = 0;
  format_set = true;
  is_valid = true;
  window_ready = 1;
  cache_mb = 32;
  timer_ms = 0;
}

-- The wrapper is loaded, a context is created and made current.
abbrev running : PtState
running =
    mesapt_write inp 0xff8 magic
      (mesapt_write inp 0xffc magic (mesapt_write inp 0xfbc 0xa0320 device))

version : (mesapt_read inp 0xfbc running).0 ≡ 0x320a0
unfolding mesapt_read mesapt_write load dispatch_trap create_cntx make_cntx
version = refl

-- A function number is written while two calls are queued.
abbrev called : PtState
called = mesapt_write inp 0xfc0 7 (record running { fifo0 = 30; data0 = 8 })

called_host :
    called.host
    ≡ run_call 7
      ∷ run_queue
      ∷ reset_client_arrays
      ∷ make_current magic 0 true
      ∷ create_context magic
      ∷ tmp_context
      ∷ []
unfolding mesapt_write load dispatch_trap create_cntx make_cntx trap_call
called_host = refl

called_data : called.data0 ≡ 2
unfolding mesapt_write load dispatch_trap create_cntx make_cntx trap_call
called_data = refl

running-Reached : Reached running
running-Reached =
    writes inp 0xff8 magic _ (λ e. absurd (omega arith), λ e. absurd (omega arith))
      (writes inp 0xffc magic _ (λ e. absurd (omega arith), λ e. absurd (omega arith))
        (writes inp 0xfbc 0xa0320 device (λ e f. refl, λ e. absurd (omega arith)) starts))

called-Reached : Reached called
called-Reached =
    writes inp 0xfc0 7 _ (λ e. absurd (omega arith), λ e f. absurd (omega arith))
      (queues 30 8 running running-Reached)

Reached-IsSafe_example :
    IsSafe called.host
    × (is_current called ≡ true → Current called.host × (called.reset_pending ≡ false))
Reached-IsSafe_example = Reached-IsSafe called called-Reached

running-current : is_current running ≡ true
unfolding mesapt_write load dispatch_trap create_cntx make_cntx
running-current = refl

running-att : running.mgl_cntx_att ≡ 0
unfolding mesapt_write load dispatch_trap create_cntx make_cntx
running-att = refl

unload_keeps_current_example : IsEarly running.sz_vert_cache (
    mesapt_write inp 0xff8 magic (
      mesapt_write inp 0xffc magic
        (mesapt_write inp 0xfbc 0xa0320 (mesapt_write inp 0xfbc 0xd0320 running))))
unload_keeps_current_example = unload_keeps_current inp running running-current running-att refl
