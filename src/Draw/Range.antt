-- ===== src/Draw/Range.antt =====
-- The range of the indices that both sides search before they send the vertex arrays.
use qemu_3dfx.Common.{ℕ, zero, suc, ◌+◌, ◌<◌, ◌≤◌, ◌≡◌, ◌⊎◌, inl, inr, true, List, arith}
use qemu_3dfx.Draw.{index_at, is_read, raise, lower, find_end, find_start, index_range}

raise_bounds :
    (size : ℕ) (bytes : List ℕ) (i end : ℕ)
    → is_read size ≡ true
    → (end ≤ raise size bytes i end) × (index_at size bytes i ≤ raise size bytes i end)
unfolding raise
raise_bounds size bytes i end r = rw r (ground arith)

lower_bounds :
    (size : ℕ) (bytes : List ℕ) (i start : ℕ)
    → is_read size ≡ true
    → (lower size bytes i start ≤ start) × (lower size bytes i start ≤ index_at size bytes i)
unfolding lower
lower_bounds size bytes i start r = rw r (ground arith)

find_end_bounds :
    (size : ℕ) (bytes : List ℕ) (n i end : ℕ)
    → is_read size ≡ true
    → (end ≤ find_end size bytes n i end)
      × ((k : ℕ) → i ≤ k → k < i + n → index_at size bytes k ≤ find_end size bytes n i end)
unfolding find_end
find_end_bounds size bytes zero i end r = (omega arith, λ k l h. absurd (omega arith))
find_end_bounds size bytes (suc n) i end r =
    let here = raise_bounds size bytes i end r in
    let rest = find_end_bounds size bytes n (i + 1) (raise size bytes i end) r in
    (
      omega arith,
      λ k l h. elim (le_cases i k l) [
        | inl e ↦ rw (← e) (omega arith)
        | inr g ↦ rest.1 k g (omega arith)
      ],
    )
  where
    le_cases : (i k : ℕ) → i ≤ k → (i ≡ k) ⊎ (i + 1 ≤ k)
    le_cases i k l = omega arith

find_start_bounds :
    (size : ℕ) (bytes : List ℕ) (n i start : ℕ)
    → is_read size ≡ true
    → (find_start size bytes n i start ≤ start)
      × ((k : ℕ) → i ≤ k → k < i + n → find_start size bytes n i start ≤ index_at size bytes k)
unfolding find_start
find_start_bounds size bytes zero i start r = (omega arith, λ k l h. absurd (omega arith))
find_start_bounds size bytes (suc n) i start r =
    let here = lower_bounds size bytes i start r in
    let rest = find_start_bounds size bytes n (i + 1) (lower size bytes i start) r in
    (
      omega arith,
      λ k l h. elim (le_cases i k l) [
        | inl e ↦ rw (← e) (omega arith)
        | inr g ↦ rest.1 k g (omega arith)
      ],
    )
  where
    le_cases : (i k : ℕ) → i ≤ k → (i ≡ k) ⊎ (i + 1 ≤ k)
    le_cases i k l = omega arith

-- The end that is found is below a bound of the indices.
find_end_below :
    (size : ℕ) (bytes : List ℕ) (n i end bound : ℕ)
    → end < bound
    → ((k : ℕ) → i ≤ k → k < i + n → index_at size bytes k < bound)
    → find_end size bytes n i end < bound
unfolding find_end raise
find_end_below size bytes zero i end bound h all = h
find_end_below size bytes (suc n) i end bound h all =
    find_end_below size bytes n (i + 1) (raise size bytes i end) bound
      (ground (arith, all i (omega arith) (omega arith)))
      (λ k l m. all k (omega arith) (omega arith))

-- For indices of 1, 2 or 4 bytes that are all below 2^31, every index of the call lies between the
-- start and the end that the two loops find, the start is not above the end, and the end is below
-- 2^31, so that neither is a negative int.
pub index_range_bounds :
    (size : ℕ) (bytes : List ℕ) (count : ℕ)
    → is_read size ≡ true
    → ((k : ℕ) → k < count → index_at size bytes k < 0x80000000)
    → ((index_range size bytes count).0 ≤ (index_range size bytes count).1)
      × ((index_range size bytes count).1 < 0x80000000)
      × ((k : ℕ)
          → k < count
          → ((index_range size bytes count).0 ≤ index_at size bytes k)
            × (index_at size bytes k ≤ (index_range size bytes count).1))
unfolding index_range
index_range_bounds size bytes count r small =
    let high = find_end_bounds size bytes count 0 0 r in
    let low = find_start_bounds size bytes count 0 (find_end size bytes count 0 0) r in
    let below =
      find_end_below size bytes count 0 0 0x80000000 (omega arith)
        (λ k l m. small k (omega arith)) in
    (
      low.0,
      below,
      λ k l. (low.1 k (omega arith) (omega arith), high.1 k (omega arith) (omega arith)),
    )
