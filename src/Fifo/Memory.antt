-- ===== src/Fifo/Memory.antt =====
-- What stands in the queue after the guest put calls into it.
use mathlib.Core.Path.{subst}
use mathlib.Core.List.{append_assoc, append-nil}
use qemu_3dfx.Common.{
  ℕ, suc, ◌+◌, ◌≤◌, ◌<◌, ◌≡◌, refl, List, [], ◌∷◌, ◌++◌, arith, get_or, set, length, ◌∙◌,
  length-set, length-append, get_or-set_self, get_or-set_ne,
}
use qemu_3dfx.Fifo.{first_fifo, Call, put, fifo_add_entry, add_entries}

-- The words stand in the memory from `i` on.
abbrev pub Holds : List ℕ → ℕ → List ℕ → Type 0
Holds fifo i [] = Unit
Holds fifo i (w ∷ ws) = (get_or fifo i 0 ≡ w) × Holds fifo (i + 1) ws

-- The words of a list of calls.
abbrev pub encode : List Call → List ℕ
encode [] = []
encode (c ∷ cs) = c.fenum ∷ (c.args ++ encode cs)

length-put : (fifo : List ℕ) (j : ℕ) (ws : List ℕ) → length (put fifo j ws) ≡ length fifo
unfolding put
length-put fifo j [] = refl
length-put fifo j (w ∷ ws) =
    omega (arith, length-put (set fifo j w) (j + 1) ws, length-set fifo j w)

get_or-put_below :
    (fifo : List ℕ) (j k : ℕ) (ws : List ℕ) → k < j → get_or (put fifo j ws) k 0 ≡ get_or fifo k 0
unfolding put
get_or-put_below fifo j k [] h = refl
get_or-put_below fifo j k (w ∷ ws) h =
    rw (get_or-put_below (set fifo j w) (j + 1) k ws (omega arith))
      (get_or-set_ne fifo j k w 0 (omega arith))

Holds-put :
    (fifo : List ℕ) (j : ℕ) (ws : List ℕ) → j + length ws ≤ length fifo → Holds (put fifo j ws) j ws
unfolding put
Holds-put fifo j [] h = tt
Holds-put fifo j (w ∷ ws) h = (
  rw (get_or-put_below (set fifo j w) (j + 1) j ws (omega arith))
      (get_or-set_self fifo j w 0 (omega arith)),
  Holds-put (set fifo j w) (j + 1) ws (omega (arith, length-set fifo j w)),
)

-- Words below the place of writing stay.
Holds-put_below :
    (fifo : List ℕ) (i j : ℕ) (vs ws : List ℕ)
    → i + length vs ≤ j
    → Holds fifo i vs
    → Holds (put fifo j ws) i vs
Holds-put_below fifo i j [] ws h a = tt
Holds-put_below fifo i j (v ∷ vs) ws h a = (
  get_or-put_below fifo j i ws (omega arith) ∙ a.0,
  Holds-put_below fifo (i + 1) j vs ws (omega arith) a.1,
)

Holds-set_zero :
    (fifo : List ℕ) (i v : ℕ) (vs : List ℕ) → 0 < i → Holds fifo i vs → Holds (set fifo 0 v) i vs
Holds-set_zero fifo i v [] h a = tt
Holds-set_zero fifo i v (x ∷ vs) h a = (
  get_or-set_ne fifo 0 i v 0 (omega arith) ∙ a.0,
  Holds-set_zero fifo (i + 1) v vs (omega arith) a.1,
)

Holds-append :
    (fifo : List ℕ) (i : ℕ) (vs ws : List ℕ)
    → Holds fifo i vs
    → Holds fifo (i + length vs) ws
    → Holds fifo i (vs ++ ws)
Holds-append fifo i [] ws a b = subst (λ k. Holds fifo k ws) (omega arith) b
Holds-append fifo i (v ∷ vs) ws a b =
    (a.0, Holds-append fifo (i + 1) vs ws a.1 (subst (λ k. Holds fifo k ws) (omega arith) b))

-- The queue holds the words, and its first word says where they end.
pub record Queued (fifo : List ℕ) (ws : List ℕ) : Type 0 where
  pub top : get_or fifo 0 0 ≡ first_fifo + length ws
  pub holds : Holds fifo first_fifo ws

length-fifo_add_entry : (fifo : List ℕ) (c : Call) → length (fifo_add_entry fifo c) ≡ length fifo
unfolding fifo_add_entry
length-fifo_add_entry fifo c =
    let j = get_or fifo 0 0 in
    length-set (put fifo j (c.fenum ∷ c.args)) 0 _ ∙ length-put fifo j (c.fenum ∷ c.args)

entry-Queued :
    (fifo : List ℕ) (ws : List ℕ) (c : Call)
    → Queued fifo ws
    → first_fifo + length ws + suc (length c.args) ≤ length fifo
    → Queued (fifo_add_entry fifo c) (ws ++ (c.fenum ∷ c.args))
unfolding fifo_add_entry
entry-Queued fifo ws c q h =
    let j = get_or fifo 0 0 in
    let new : List ℕ = c.fenum ∷ c.args in
    let stored = put fifo j new in
    record {
      top =
          get_or-set_self stored 0 (j + length new) 0 (omega (arith, length-put fifo j new))
          ∙ omega (arith, q.top, length-append ws new);
      holds = Holds-set_zero stored first_fifo (j + length new) (ws ++ new) (omega arith) (
          Holds-append stored first_fifo ws new
            (Holds-put_below fifo first_fifo j ws new (omega (arith, q.top)) q.holds)
            (subst (λ k. Holds stored k new) q.top (Holds-put fifo j new (omega (arith, q.top)))));
    }

-- The guest's entries stand in the queue one behind the other, if the memory has room for them.
pub entries-Queued :
    (fifo : List ℕ) (ws : List ℕ) (cs : List Call)
    → Queued fifo ws
    → first_fifo + length ws + length (encode cs) ≤ length fifo
    → Queued (add_entries fifo cs) (ws ++ encode cs)
unfolding add_entries
entries-Queued fifo ws [] q h = rw (append-nil ws) q
entries-Queued fifo ws (c ∷ cs) q h = rw (← append_assoc ws (c.fenum ∷ c.args) (encode cs)) (
    entries-Queued (fifo_add_entry fifo c) (ws ++ (c.fenum ∷ c.args)) cs
      (entry-Queued fifo ws c q (omega (arith, length-append c.args (encode cs))))
      (omega (
        arith,
        length-append c.args (encode cs),
        length-append ws (c.fenum ∷ c.args),
        length-fifo_add_entry fifo c,
      )))
