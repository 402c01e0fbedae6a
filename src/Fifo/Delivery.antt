-- ===== src/Fifo/Delivery.antt =====
-- processFifo of mesapt_mm.c runs the calls that fifoAddEntry of wrapgl32.c queued.
use mathlib.Core.Path.{subst}
use qemu_3dfx.Common.{
  ℕ, zero, suc, ◌+◌, ◌≤◌, ◌<◌, ◌≡◌, refl, ap, ◌∙◌, true, false, inl, inr, List, [], ◌∷◌, ◌++◌,
  arith, ltb, ◌==◌, get_or, length, All, Bool-cases, length-append, get_or-set_self,
}
use qemu_3dfx.Fifo.{
  first_fifo, first_data, Shared, Call, add_entries, read, num_data, Progress, dispatch, drain,
  Device, finish, process_fifo,
}
use qemu_3dfx.Fifo.Memory.{Holds, encode, Queued, entries-Queued}

read-Holds :
    (fifo : List ℕ) (i : ℕ) (ws rest : List ℕ)
    → Holds fifo i (ws ++ rest)
    → read fifo i (length ws) ≡ ws
unfolding read
read-Holds fifo i [] rest h = refl
read-Holds fifo i (w ∷ ws) rest h = rw (h.0, read-Holds fifo (i + 1) ws rest h.1)

Holds-drop :
    (fifo : List ℕ) (i : ℕ) (ws rest : List ℕ)
    → Holds fifo i (ws ++ rest)
    → Holds fifo (i + length ws) rest
Holds-drop fifo i [] rest h = subst (λ k. Holds fifo k rest) (omega arith) h
Holds-drop fifo i (w ∷ ws) rest h =
    subst (λ k. Holds fifo k rest) (omega arith) (Holds-drop fifo (i + 1) ws rest h.1)

length_pos : (l : List ℕ) → 0 < get_or l 0 0 → 0 < length l
length_pos [] h = h
length_pos (x ∷ l) h = omega arith

module _ {ℓ} {S : Type ℓ} (args_cnt : ℕ → ℕ) (handle : S → Call → ℕ → S × ℕ) where
  -- Every call has as many arguments as the table says.
  abbrev pub IsCounted : List Call → Type 0
  IsCounted = All (λ c. length c.args ≡ args_cnt c.fenum)

  abbrev pub after : Progress args_cnt handle → Call → Progress args_cnt handle
  after p c =
      let (state, datacb) = handle p.state c p.j in
      record {
        i = p.i + 1 + length c.args;
        j = p.j + num_data datacb;
        calls_run = p.calls_run + 1;
        state = state;
      }

  -- The calls in order, each with the word of the data stream behind the data of those before it.
  abbrev pub serve : Progress args_cnt handle → List Call → Progress args_cnt handle
  serve p [] = p
  serve p (c ∷ cs) = serve (after p c) cs

  dispatch_lem :
      (fifo : List ℕ) (p : Progress args_cnt handle) (c : Call) (cs : List Call)
      → Holds fifo p.i (encode (c ∷ cs))
      → length c.args ≡ args_cnt c.fenum
      → dispatch args_cnt handle fifo p ≡ after p c
  unfolding dispatch
  dispatch_lem fifo p c cs h e = rw (h.0, ← e, read-Holds fifo (p.i + 1) c.args (encode cs) h.1)

  drain-serve :
      (fuel : ℕ) (fifo : List ℕ) (p : Progress args_cnt handle) (cs : List Call)
      → Holds fifo p.i (encode cs)
      → IsCounted cs
      → get_or fifo 0 0 ≡ p.i + length (encode cs)
      → length (encode cs) ≤ fuel
      → drain args_cnt handle fuel fifo p ≡ serve p cs
  unfolding drain
  drain-serve zero fifo p [] h w t f = refl
  drain-serve zero fifo p (c ∷ cs) h w t f = absurd (omega arith)
  drain-serve (suc fuel) fifo p [] h w t f = ground arith
  drain-serve (suc fuel) fifo p (c ∷ cs) h w t f =
      let more : ltb p.i (get_or fifo 0 0) ≡ true = ground arith in
      rw (more, dispatch_lem fifo p c cs h w.0)
        (drain-serve fuel fifo (after p c) cs (Holds-drop fifo (p.i + 1) c.args (encode cs) h.1) w.1
          (omega (arith, length-append c.args (encode cs)))
          (omega (arith, length-append c.args (encode cs))))

  -- Whatever words the memory holds, the loop of processFifo ends by its test: with fuel for each
  -- word that the first word counts, `i` has reached that word's value.
  pub drain_ends :
      (fuel : ℕ) (fifo : List ℕ) (p : Progress args_cnt handle)
      → get_or fifo 0 0 ≤ p.i + fuel
      → get_or fifo 0 0 ≤ (drain args_cnt handle fuel fifo p).i
  unfolding drain dispatch
  drain_ends zero fifo p h = omega arith
  drain_ends (suc fuel) fifo p h =
      ground (arith, drain_ends fuel fifo (dispatch args_cnt handle fifo p))

  serve_calls :
      (p : Progress args_cnt handle) (cs : List Call)
      → (serve p cs).calls_run ≡ p.calls_run + length cs
  serve_calls p [] = omega arith
  serve_calls p (c ∷ cs) = omega (arith, serve_calls (after p c) cs)

  -- Where processFifo begins.
  abbrev pub start : Device args_cnt handle → Progress args_cnt handle
  start s = record { i = first_fifo; j = first_data; calls_run = s.calls_run; state = s.state }

  -- What the guest sees and the host keeps after a run of the calls.
  pub record Delivered (s : Device args_cnt handle) (cs : List Call)
      (out : Shared × Device args_cnt handle) : Type ℓ where
    pub state : out.1.state ≡ (serve (start s) cs).state
    pub calls : out.1.calls_run ≡ s.calls_run + length cs
    pub hshm : out.1.hshm ≡ (serve (start s) cs).j
    pub emptied : get_or out.0.fifo 0 0 ≡ first_fifo

  finish-Delivered :
      (m m' : Shared) (s s' : Device args_cnt handle) (cs : List Call)
      (p : Progress args_cnt handle) (data_max : ℕ)
      → Delivered s cs (m', s')
      → Delivered s cs (finish args_cnt handle m p data_max (m', s'))
  unfolding finish
  finish-Delivered m m' s s' cs p data_max d = elim (Bool-cases (ltb first_data p.j)) [
    | inl e ↦ rw e (record { state = d.state; calls = d.calls; hshm = d.hshm; emptied = d.emptied })
    | inr e ↦ rw e d
  ]

  process-Delivered :
      (m : Shared) (s : Device args_cnt handle) (cs : List Call)
      → Queued m.fifo (encode cs)
      → IsCounted cs
      → Delivered s cs (process_fifo args_cnt handle m s)
  unfolding process_fifo
  process-Delivered m s [] q w =
      let idle : (get_or m.fifo 0 0 == first_fifo) ≡ true = ground (arith, q.top) in
      rw idle
        (record { state = refl; calls = omega arith; hshm = refl; emptied = omega (arith, q.top) })
  process-Delivered m s (c ∷ cs) q w =
      let busy : (get_or m.fifo 0 0 == first_fifo) ≡ false = ground (arith, q.top) in
      let run =
        drain-serve (get_or m.fifo 0 0) m.fifo (start s) (c ∷ cs) q.holds w q.top
          (omega (arith, q.top)) in
      rw busy (
        finish-Delivered m _ s _ (c ∷ cs)
          (drain args_cnt handle (get_or m.fifo 0 0) m.fifo (start s)) s.data_max
          (record {
            state = ap (λ p. p.state) run;
            calls = ap (λ p. p.calls_run) run ∙ serve_calls (start s) (c ∷ cs);
            hshm = ap (λ p. p.j) run;
            emptied =
                get_or-set_self m.fifo 0 first_fifo 0 (length_pos m.fifo (omega (arith, q.top)));
          }))

  -- If the queue of the guest is empty and the memory has room for the calls, each with as many
  -- arguments as the table says, then after fifoAddEntry of each, processFifo runs every call once,
  -- in order, with its own arguments and the place of its own data, counts them, and leaves the
  -- queue empty and `hshm` behind the data.
  pub process_delivers :
      (m : Shared) (s : Device args_cnt handle) (cs : List Call)
      → get_or m.fifo 0 0 ≡ first_fifo
      → first_fifo + length (encode cs) ≤ length m.fifo
      → IsCounted cs
      → Delivered s cs (process_fifo args_cnt handle (record m { fifo = add_entries m.fifo cs }) s)
  process_delivers m s cs e h w =
      process-Delivered (record m { fifo = add_entries m.fifo cs }) s cs
        (entries-Queued m.fifo [] cs (record { top = omega (arith, e); holds = tt }) h) w
