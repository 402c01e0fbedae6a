-- ===== src/Fifo.antt =====
-- The queue of calls in the shared memory: fifoAddEntry and InitMesaPTMMBase of
-- wrappers/mesa/src/wrapgl32.c in the guest, processFifo of qemu-1/hw/mesa/mesapt_mm.c on the host.
-- The memory is a list of words, and the data stream behind it only its first word.
pub mod Memory
pub mod Delivery
mod Examples
use qemu_3dfx.Common.{
  ℕ, zero, suc, ◌+◌, ◌-◌, ◌*◌, ◌/◌, ◌%◌, ◌^◌, Bool, true, false, List, [], ◌∷◌, ltb, ◌==◌,
  if◌then◌else◌, get_or, set, length,
}

-- `FIRST_FIFO`, and `ALIGNED(1) >> 2`.
abbrev pub first_fifo : ℕ
first_fifo = 24

abbrev pub first_data : ℕ
first_data = 2

-- The words of the queue, `mfifo` or `fifoptr`, and `mdata[0]` or `dataptr[0]`.
pub record Shared : Type 0 where
  pub fifo : List ℕ
  pub data0 : ℕ

-- The part of InitMesaPTMMBase that empties the queue.
pub init_fifo : Shared → Shared
init_fifo m = record { fifo = set m.fifo 0 first_fifo; data0 = first_data }

-- A call: the number of its function and its argument words.
pub record Call : Type 0 where
  pub fenum : ℕ
  pub args : List ℕ

-- The loop of `mfifo[j++] = …`.
pub put : List ℕ → ℕ → List ℕ → List ℕ
put fifo j [] = fifo
put fifo j (w ∷ ws) = put (set fifo j w) (j + 1) ws

-- `fifoAddEntry`
pub fifo_add_entry : List ℕ → Call → List ℕ
unfolding put
fifo_add_entry fifo c =
    let j = get_or fifo 0 0 in set (put fifo j (c.fenum ∷ c.args)) 0 (j + length (c.fenum ∷ c.args))

pub add_entries : List ℕ → List Call → List ℕ
unfolding fifo_add_entry
add_entries fifo [] = fifo
add_entries fifo (c ∷ cs) = add_entries (fifo_add_entry fifo c) cs

-- `n` words from `i` on.
pub read : List ℕ → ℕ → ℕ → List ℕ
read fifo i zero = []
read fifo i (suc n) = get_or fifo i 0 ∷ read fifo (i + 1) n

-- `numData`: `datacb` in words.
abbrev pub num_data : ℕ → ℕ
num_data n = if n % 4 == 0 then n / 4 else n / 4 + 1

-- `args_cnt` is GLFEnumArgsCnt, any table of argument counts. `handle` stands for processArgs,
-- doMesaFunc and processFRet: from the state behind them, a call and the word of the data stream
-- where its data begins, the new state and `datacb`. They do not write to the queue.
module _ {ℓ} {S : Type ℓ} (args_cnt : ℕ → ℕ) (handle : S → Call → ℕ → S × ℕ) where
  -- What the loop of processFifo changes: `i`, `j`, `fifo_calls_run` and the state.
  pub record Progress : Type ℓ where
    pub i : ℕ
    pub j : ℕ
    pub calls_run : ℕ
    pub state : S

  -- One round.
  pub dispatch : List ℕ → Progress → Progress
  unfolding read
  dispatch fifo p =
      let fenum = get_or fifo p.i 0 in
      let num_args = args_cnt fenum in
      let call : Call = record { fenum = fenum; args = read fifo (p.i + 1) num_args } in
      let (state, datacb) = handle p.state call p.j in
      record {
        i = p.i + 1 + num_args;
        j = p.j + num_data datacb;
        calls_run = p.calls_run + 1;
        state = state;
      }

  -- `while (i < fifoptr[0])`; a round moves `i` by one word at least, so that as much fuel as there
  -- are words is enough.
  pub drain : ℕ → List ℕ → Progress → Progress
  unfolding dispatch
  drain zero fifo p = p
  drain (suc fuel) fifo p =
      let rest = drain fuel fifo (dispatch fifo p) in if ltb p.i (get_or fifo 0 0) then rest else p

  -- The fields of MesaPTState that processFifo keeps; `hshm` is a word of the data stream.
  pub record Device : Type ℓ where
    pub fifo_max : ℕ
    pub data_max : ℕ
    pub hshm : ℕ
    pub calls_run : ℕ
    pub state : S

  -- `dataptr[0] -= j`, a `uint32_t`, and its maximum, if data was consumed.
  pub finish : Shared → Progress → ℕ → Shared × Device → Shared × Device
  finish m p data_max (m', s) =
      if ltb first_data p.j
      then (
        record m' { data0 = (m.data0 + 2 ^ 32 - p.j) % 2 ^ 32 },
        record s { data_max = if ltb data_max m.data0 then m.data0 else data_max },
      )
      else (m', s)

  -- `processFifo`, with `fifoptr[0] - FIRST_FIFO` tested as it is.
  pub process_fifo : Shared → Device → Shared × Device
  unfolding drain finish
  process_fifo m s =
      let start : Progress = record {
        i = first_fifo;
        j = first_data;
        calls_run = s.calls_run;
        state = s.state;
      } in
      let p = drain (get_or m.fifo 0 0) m.fifo start in
      if get_or m.fifo 0 0 == first_fifo
      then (m, record s { hshm = first_data })
      else finish m p s.data_max (
        record m { fifo = set m.fifo 0 first_fifo },
        record {
          fifo_max = if ltb s.fifo_max p.i then p.i else s.fifo_max;
          data_max = s.data_max;
          hshm = p.j;
          calls_run = p.calls_run;
          state = p.state;
        },
      )
