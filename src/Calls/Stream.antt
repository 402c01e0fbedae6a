-- ===== src/Calls/Stream.antt =====
-- Where the two sides stand after a sequence of calls: the guest behind fifoAddEntry and fifoAddData
-- of wrappers/mesa/src/wrapgl32.c, and the host behind the rounds of processFifo of
-- qemu-1/hw/mesa/mesapt_mm.c, `i` in the queue and `j` in the data stream.
use qemu_3dfx.Common.{
  ℕ, ◌+◌, ◌%◌, ◌≡◌, ◌∙◌, ap, refl, Bool, true, false, List, [], ◌∷◌, arith, if◌then◌else◌, All,
}
use qemu_3dfx.Fifo.{num_data}
use qemu_3dfx.Calls.{Entry, queued, trapped, words, sizes, add_all, get_num_args}
use qemu_3dfx.Calls.Words.{add_all-sent, sent_even}
use qemu_3dfx.Calls.Function.{Function, bytes, entry, datacb}
use qemu_3dfx.Calls.Agreement.{is_handled, call-Agrees}

-- A call and its argument words.
pub record Call : Type 0 where
  pub function : Function
  pub arg : ℕ → ℕ

pub record Place : Type 0 where
  pub i : ℕ
  pub j : ℕ

abbrev pub is_queued : Entry → Bool
is_queued (queued n cbs) = true
is_queued (trapped n cbs) = false

-- `mfifo[0]` and `mdata[0]` behind a wrapper.
unfoldable pub guest_step : Place → Call → Place
unfolding entry
guest_step p c =
    let e = entry c.function c.arg in
    record { i = if is_queued e then p.i + 1 + words e else p.i; j = add_all p.j (sizes e) }

-- `i` and `j` behind a round of processFifo.
unfoldable pub host_step : Place → Call → Place
unfolding bytes datacb
host_step p c = record {
  i = p.i + 1 + get_num_args (bytes c.function);
  j = p.j + num_data (datacb c.function c.arg);
}

unfoldable pub guest_steps : Place → List Call → Place
unfolding guest_step
guest_steps p [] = p
guest_steps p (c ∷ cs) = guest_steps (guest_step p c) cs

unfoldable pub host_steps : Place → List Call → Place
unfolding host_step
host_steps p [] = p
host_steps p (c ∷ cs) = host_steps (host_step p c) cs

-- The call is queued, and the two sides agree on it.
abbrev pub Fits : Call → Type 0
Fits c = (is_queued (entry c.function c.arg) ≡ true) × (is_handled c.function c.arg ≡ true)

step_agree :
    (p : Place) (c : Call)
    → p.j % 2 ≡ 0
    → Fits c
    → (guest_step p c ≡ host_step p c) × ((host_step p c).j % 2 ≡ 0)
unfolding guest_step host_step
step_agree p c even fits =
    let agrees = call-Agrees c.function c.arg fits.1 in
    let moved = add_all-sent (sizes (entry c.function c.arg)) p.j even in
    let whole = sent_even (sizes (entry c.function c.arg)) in
    let ends : add_all p.j (sizes (entry c.function c.arg))
        ≡ p.j + num_data (datacb c.function c.arg) =
      moved ∙ ap (λ n. p.j + n) agrees.1 in
    let kept : (p.j + num_data (datacb c.function c.arg)) % 2 ≡ 0 = omega (arith, agrees.1) in
    (rw (fits.0, agrees.0, ends) refl, kept)

-- After any queued calls on which the sides agree one by one, the guest's queue and data end where
-- the host's rounds over these calls end, if the data began at an even word.
pub steps_agree :
    (p : Place) (cs : List Call) → p.j % 2 ≡ 0 → All Fits cs → guest_steps p cs ≡ host_steps p cs
unfolding guest_steps host_steps
steps_agree p [] even fits = refl
steps_agree p (c ∷ cs) even fits =
    let first = step_agree p c even fits.0 in
    rw (first.0) (steps_agree (host_step p c) cs first.1 fits.1)
