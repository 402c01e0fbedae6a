-- ===== src/Calls/Words.antt =====
-- The words that a piece of data takes in the stream, by the ways in which the source writes its size.
use qemu_3dfx.Common.{ℕ, ◌+◌, ◌%◌, ◌≡◌, List, [], ◌∷◌, arith}
use qemu_3dfx.Fifo.{num_data}
use qemu_3dfx.Calls.{aligned, add_all, add_data, sent}

-- The guest gives the size itself, and the host aligns it.
pub sent-raw : (c : ℕ) → sent (c ∷ []) ≡ num_data (aligned c)
sent-raw c = ground arith

-- Both align the size.
pub sent-aligned : (c : ℕ) → sent (aligned c ∷ []) ≡ num_data (aligned c)
sent-aligned c = ground arith

-- Neither aligns it, and it is whole.
pub sent-whole : (c : ℕ) → c % 8 ≡ 0 → sent (c ∷ []) ≡ num_data c
sent-whole c e = ground arith

-- They write the same whole size differently.
pub sent-equal : (c d : ℕ) → c ≡ d → d % 8 ≡ 0 → sent (c ∷ []) ≡ num_data d
sent-equal c d same e = rw same (sent-whole d e)

add_data-even : (j c : ℕ) → j % 2 ≡ 0 → add_data j c ≡ j + sent (c ∷ [])
add_data-even j c e = ground arith

pub sent_even : (cs : List ℕ) → sent cs % 2 ≡ 0
sent_even [] = omega arith
sent_even (c ∷ cs) = ground (arith, sent_even cs)

-- From an even word on, fifoAddData moves by what the pieces take.
pub add_all-sent : (cs : List ℕ) (j : ℕ) → j % 2 ≡ 0 → add_all j cs ≡ j + sent cs
add_all-sent [] j e = omega arith
add_all-sent (c ∷ cs) j e =
    omega (arith, add_all-sent cs (add_data j c) (ground arith), add_data-even j c e)
