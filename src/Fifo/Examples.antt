-- ===== src/Fifo/Examples.antt =====
-- Tests of the queue, and the theorems of Fifo/Delivery at inputs.
use qemu_3dfx.Common.{ℕ, ◌*◌, ◌≡◌, ◌≤◌, refl, List, [], ◌∷◌, arith, replicate}
use qemu_3dfx.Fifo.{
  Shared, Call, add_entries, Progress, drain, Device, process_fifo, init_fifo, first_fifo,
}
use qemu_3dfx.Fifo.Delivery.{Delivered, process_delivers, drain_ends}

-- The table gives as many arguments as the number of the function says.
abbrev cnt : ℕ → ℕ
cnt n = n

-- The handler logs the calls, latest first, and takes eight bytes of data for each argument.
abbrev log : List (Call × ℕ) → Call → ℕ → List (Call × ℕ) × ℕ
log s c j = ((c, j) ∷ s, c.fenum * 8)

abbrev calls : List Call
calls = record { fenum = 2; args = 7 ∷ 8 ∷ [] } ∷ record { fenum = 1; args = 9 ∷ [] } ∷ []

abbrev empty_queue : Shared
empty_queue = record { fifo = 24 ∷ replicate 31 0; data0 = 8 }

abbrev device : Device cnt log
device = record { fifo_max = 0; data_max = 0; hshm = 0; calls_run = 5; state = [] }

ran :
    let (m, s) =
      process_fifo cnt log
        (record empty_queue { fifo = add_entries empty_queue.fifo calls })
        device in
    (s.state
      ≡ (record { fenum = 1; args = 9 ∷ [] }, 6)
        ∷ (record { fenum = 2; args = 7 ∷ 8 ∷ [] }, 2)
        ∷ [])
    × (m.data0 ≡ 0)
    × (s.fifo_max ≡ 29)
unfolding process_fifo add_entries
ran = (refl, refl, refl)

started : (init_fifo (record { fifo = 7 ∷ []; data0 = 7 })).fifo ≡ first_fifo ∷ []
unfolding init_fifo
started = refl

process_delivers_example :
    Delivered cnt log device calls (
      process_fifo cnt log
        (record empty_queue { fifo = add_entries empty_queue.fifo calls })
        device)
process_delivers_example =
    process_delivers cnt log empty_queue device calls refl (omega arith) (omega arith)

abbrev garbage : List ℕ
garbage = 30 ∷ 5 ∷ 6 ∷ []

abbrev at_first : Progress cnt log
at_first = record { i = 24; j = 2; calls_run = 0; state = [] }

drain_ends_example : 30 ≤ (drain cnt log 30 garbage at_first).i
drain_ends_example = drain_ends cnt log 30 garbage at_first (omega arith)
