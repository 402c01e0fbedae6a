-- ===== src/Calls/Delivery.antt =====
-- The queue and the data stream together: calls that the wrappers of wrappers/mesa/src/wrapgl32.c queue are
-- run by processFifo of qemu-1/hw/mesa/mesapt_mm.c with the data that belongs to them.
use qemu_3dfx.Common.{
  ℕ, zero, suc, ◌+◌, ◌≤◌, ◌≡◌, ◌∙◌, sym, ap, refl, List, [], ◌∷◌, All, get_or, length,
}
use qemu_3dfx.Fifo.{
  first_fifo, first_data, Shared, Progress, Device, add_entries, process_fifo, num_data,
}
use qemu_3dfx.Fifo.Memory.{encode}
use qemu_3dfx.Fifo.Delivery.{IsCounted, serve, after, Delivered, process_delivers}
use qemu_3dfx.Calls.{words, get_num_args}
use qemu_3dfx.Calls.Function.{Function, bytes, entry, datacb}
use qemu_3dfx.Calls.Agreement.{call-Agrees}
use qemu_3dfx.Calls.Stream.{Call, Place, Fits, guest_steps, host_step, host_steps, steps_agree}

-- `n` argument words from the word `k` on.
abbrev pub arg_words : ℕ → (ℕ → ℕ) → ℕ → List ℕ
arg_words zero a k = []
arg_words (suc n) a k = a k ∷ arg_words n a (k + 1)

length-arg_words : (n : ℕ) (a : ℕ → ℕ) (k : ℕ) → length (arg_words n a k) ≡ n
length-arg_words zero a k = refl
length-arg_words (suc n) a k = ap suc (length-arg_words n a (k + 1))

-- What FIFO_GLFUNC queues, for the numbers of the functions, while both streams have room: past the
-- ends that it tests (MAX_FIFO, MAX_DATA) it traps with the call at once, which is no queued call.
abbrev pub queue_call : (Function → ℕ) → Call → qemu_3dfx.Fifo.Call
queue_call number c = record {
  fenum = number c.function;
  args = arg_words (words (entry c.function c.arg)) c.arg 0;
}

abbrev pub queue_calls : (Function → ℕ) → List Call → List qemu_3dfx.Fifo.Call
queue_calls number [] = []
queue_calls number (c ∷ cs) = queue_call number c ∷ queue_calls number cs

abbrev pub first_place : Place
first_place = record { i = first_fifo; j = first_data }

-- `args_cnt` is the table by the functions' numbers, `handle` the host's part of a call.
module _ {ℓ} {S : Type ℓ} (number : Function → ℕ) (args_cnt : ℕ → ℕ)
    (handle : S → qemu_3dfx.Fifo.Call → ℕ → S × ℕ) where
  -- The table counts the arguments of the function's number, and the host takes the data that
  -- processArgs says.
  abbrev pub IsServed : Call → Type ℓ
  IsServed c =
      (args_cnt (number c.function) ≡ get_num_args (bytes c.function))
      × ((s : S) (j : ℕ) → (handle s (queue_call number c) j).1 ≡ datacb c.function c.arg)

  -- processFifo behind fifoAddEntry of the calls.
  abbrev pub run : Shared → Device args_cnt handle → List Call → Shared × Device args_cnt handle
  run m s cs =
      process_fifo args_cnt handle (record m { fifo = add_entries m.fifo (queue_calls number cs) })
        s

  queue_calls-IsCounted :
      (cs : List Call)
      → All Fits cs
      → All IsServed cs
      → IsCounted args_cnt handle (queue_calls number cs)
  queue_calls-IsCounted [] fits served = tt
  queue_calls-IsCounted (c ∷ cs) fits served = (
    length-arg_words (words (entry c.function c.arg)) c.arg 0
        ∙ (call-Agrees c.function c.arg fits.0.1).0
        ∙ sym served.0.0,
    queue_calls-IsCounted cs fits.1 served.1,
  )

  serve-host_steps :
      (p : Progress args_cnt handle) (cs : List Call)
      → All Fits cs
      → All IsServed cs
      → (serve args_cnt handle p (queue_calls number cs)).j
        ≡ (host_steps (record { i = p.i; j = p.j }) cs).j
  unfolding host_steps host_step
  serve-host_steps p [] fits served = refl
  serve-host_steps p (c ∷ cs) fits served =
      let counted =
        length-arg_words (words (entry c.function c.arg)) c.arg 0
        ∙ (call-Agrees c.function c.arg fits.0.1).0 in
      let place : record {
        i = p.i + 1 + length (queue_call number c).args;
        j = p.j + num_data (handle p.state (queue_call number c) p.j).1;
      }
          ≡ host_step (record { i = p.i; j = p.j }) c =
        rw (counted, served.0.1 p.state p.j) refl in
      serve-host_steps (after args_cnt handle p (queue_call number c)) cs fits.1 served.1
      ∙ ap (λ q. (host_steps q cs).j) place

  -- If the guest's queue is empty, the memory has room, and for each call the table counts its
  -- function's arguments and the handler takes the data that processArgs says, then after the
  -- wrappers of queued calls on which the sides agree, processFifo runs these calls, each once and
  -- in order, and its place in the data stream behind them is where the guest's data ends.
  pub calls-Delivered :
      (m : Shared) (s : Device args_cnt handle) (cs : List Call)
      → get_or m.fifo 0 0 ≡ first_fifo
      → first_fifo + length (encode (queue_calls number cs)) ≤ length m.fifo
      → All Fits cs
      → All IsServed cs
      → Delivered args_cnt handle s (queue_calls number cs) (run m s cs)
        × ((run m s cs).1.hshm ≡ (guest_steps first_place cs).j)
  calls-Delivered m s cs empty room fits served =
      let delivered =
        process_delivers args_cnt handle m s (queue_calls number cs) empty room
          (queue_calls-IsCounted cs fits served) in
      (
        delivered,
        delivered.hshm
            ∙ serve-host_steps _ cs fits served
            ∙ sym (ap (λ q. q.j) (steps_agree first_place cs refl fits)),
      )
