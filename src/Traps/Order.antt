-- ===== src/Traps/Order.antt =====
-- The order in which the traps call the host.
use qemu_3dfx.Common.{
  ℕ, ◌≡◌, ◌≢◌, ◌⊎◌, inl, inr, refl, true, false, ◌&&◌, not, List, [], ◌∷◌, ◌==◌, Bool-cases, arith,
}
use qemu_3dfx.Fifo.{first_fifo}
use qemu_3dfx.Traps.{
  debug_message_insert, Act, wnd_release, make_current, delete_context, run_queue, run_call, Input,
  PtState, device, is_set, is_current, act, process_queue, reset_data, load, unload, trap_call,
  flush_queue, create_cntx, mesapt_write, mesapt_read,
}

-- A context was made current, and none was deleted since.
abbrev pub Current : List Act → Type 0
Current [] = ⊥
Current (make_current p l ok ∷ acts) = (ok ≡ true) ⊎ Current acts
Current (delete_context n ∷ acts) = ⊥
Current (wnd_release ∷ acts) = ⊥
Current (_ ∷ acts) = Current acts

-- The queue, and trapped calls other than glDebugMessageInsertARB, were run with a current context.
abbrev pub IsSafe : List Act → Type 0
IsSafe [] = Unit
IsSafe (run_queue ∷ acts) = Current acts × IsSafe acts
IsSafe (run_call n ∷ acts) = (n ≢ debug_message_insert → Current acts) × IsSafe acts
IsSafe (_ ∷ acts) = IsSafe acts

-- The wrapper is unloaded when no context is current, and without one the queue is empty when a
-- debug message is inserted.
abbrev pub IsOrderly : ℕ → ℕ → PtState → Type 0
IsOrderly addr val d =
    (addr ≡ 0xfbc → val ≡ 0xd0320 → d.mgl_cntx_current ≡ 0)
    × (addr ≡ 0xfc0 → val ≡ debug_message_insert → is_current d ≡ false → d.fifo0 ≡ first_fifo)

-- The states that orderly traps lead to, between which the guest writes the shared memory.
pub data Reached : PtState → Type 0 where
  starts : Reached device
  queues :
      (fifo0 data0 : ℕ) (d : PtState)
      → Reached d
      → Reached (record d { fifo0 = fifo0; data0 = data0 })
  reads : (inp : Input) (addr : ℕ) (d : PtState) → Reached d → Reached (mesapt_read inp addr d).1
  writes :
      (inp : Input) (addr val : ℕ) (d : PtState)
      → IsOrderly addr val d
      → Reached d
      → Reached (mesapt_write inp addr val d)

-- While a context counts as current, there is one, it was made current, and the client arrays have
-- been reset.
pub record IsValid (d : PtState) : Type 0 where
  pub live :
      is_set d.mgl_cntx_current ≡ true
      → Current d.host × (d.reset_pending ≡ false) × (is_set d.mgl_context ≡ true)
  pub safe : IsSafe d.host

is_current-Current : (d : PtState) → IsValid d → is_current d ≡ true → Current d.host
is_current-Current d v e = elim (Bool-cases (is_set d.mgl_cntx_current)) [
  | inl c ↦ (v.live c).0
  | inr c ↦ ground (arith, c, e)
]

pub idle_of : (d : PtState) → IsValid d → is_current d ≡ false → is_set d.mgl_cntx_current ≡ false
idle_of d v e = elim (Bool-cases (is_set d.mgl_cntx_current)) [
  | inl c ↦ ground (arith, c, e, (v.live c).2)
  | inr c ↦ c
]

-- A state with no current context is valid when its calls are.
pub idle-IsValid : (d : PtState) → is_set d.mgl_cntx_current ≡ false → IsSafe d.host → IsValid d
idle-IsValid d e s = record { live = λ c. ground (arith, e, c); safe = s }

process_queue-IsValid : (d : PtState) → IsValid d → Current d.host → IsValid (process_queue d)
process_queue-IsValid d v c = elim (Bool-cases (d.fifo0 == first_fifo)) [
  | inl e ↦ rw e v
  | inr e ↦ rw e (record { live = v.live; safe = (c, v.safe) })
]

pub flush_queue-IsValid : (d : PtState) → IsValid d → IsValid (flush_queue d)
flush_queue-IsValid d v = elim (Bool-cases (is_current d)) [
  | inl e ↦
      let p = process_queue-IsValid d v (is_current-Current d v e) in
      rw e (record { live = p.live; safe = p.safe })
  | inr e ↦ rw e v
]

pub load-IsValid : (inp : Input) (val : ℕ) (d : PtState) → IsValid d → IsValid (load inp val d)
unfolding load
load-IsValid inp val d v = elim (Bool-cases (inp.same_build && not inp.init_fails)) [
  | inl e ↦ rw e (record { live = v.live; safe = v.safe })
  | inr e ↦ rw e (record { live = v.live; safe = v.safe })
]

pub unload-IsValid :
    (d : PtState) → is_set d.mgl_cntx_current ≡ false → IsValid d → IsValid (unload d)
unfolding unload
unload-IsValid d idle v = elim (Bool-cases (is_set d.mgl_context)) [
  | inl e ↦ rw e (elim (Bool-cases (is_set d.mesa_ver)) [
    | inl m ↦ rw m (idle-IsValid _ idle v.safe)
    | inr m ↦ rw m (idle-IsValid _ idle v.safe)
  ])
  | inr e ↦ rw e (elim (Bool-cases (is_set d.mesa_ver)) [
    | inl m ↦ rw m (idle-IsValid _ idle v.safe)
    | inr m ↦ rw m (idle-IsValid _ idle v.safe)
  ])
]

-- A trapped call behind a queue that was run or is empty.
run_call-IsValid :
    (val : ℕ) (d : PtState)
    → (val ≢ debug_message_insert → Current d.host)
    → IsValid d
    → IsValid (reset_data (act (run_call val) d))
run_call-IsValid val d c v = record { live = v.live; safe = (c, v.safe) }

process_queue-Current : (d : PtState) → Current d.host → Current (process_queue d).host
process_queue-Current d c = elim (Bool-cases (d.fifo0 == first_fifo)) [
  | inl e ↦ rw e c
  | inr e ↦ rw e c
]

pub trap_call-IsValid :
    (val : ℕ) (d : PtState)
    → (val ≡ debug_message_insert → is_current d ≡ false → d.fifo0 ≡ first_fifo)
    → IsValid d
    → IsValid (trap_call val d)
unfolding trap_call
trap_call-IsValid val d orderly v = elim (Bool-cases (is_current d)) [
  | inl e ↦
      let c = is_current-Current d v e in
      rw e (
        run_call-IsValid val (process_queue d) (λ _. process_queue-Current d c)
          (process_queue-IsValid d v c))
  | inr e ↦ elim (Bool-cases (val == debug_message_insert)) [
    | inl same ↦
        let number : val ≡ debug_message_insert = ground (arith, same) in
        let empty : (d.fifo0 == first_fifo) ≡ true = rw (orderly number e) refl in
        rw e (rw same (rw empty (run_call-IsValid val d (λ ne. absurd (ne number)) v)))
    | inr other ↦ rw e (rw other v)
  ]
]

pub create_cntx-IsValid : (inp : Input) (d : PtState) → IsValid d → IsValid (create_cntx inp d)
unfolding create_cntx
create_cntx-IsValid inp d v = elim (Bool-cases (is_set d.mgl_context)) [
  | inl e ↦ rw e (record { live = v.live; safe = v.safe })
  | inr e ↦ rw e (idle-IsValid _ (idle_of d v (rw e refl)) v.safe)
]
