-- ===== src/Flight/Ring.antt =====
-- The ring of mesagl_flight.c keeps the last events, and flight_flush reads them in order.
use mathlib.Core.Path.{subst₂}
use native.Mathlib.Nat.{mod-lt, mod-eq_of_lt, mod-add-mod, mod-eq-sub-mod}
use qemu_3dfx.Common.{
  ℕ, zero, suc, ◌+◌, ◌-◌, ◌%◌, ◌≤◌, ◌<◌, ◌≡◌, ◌≢◌, refl, sym, ap, ◌∙◌, List, [], ◌∷◌, ◌++◌, arith,
  length, length-set, get_or, get_or-set_self, get_or-set_ne, min, ◌⊎◌, inl, inr,
}
use qemu_3dfx.Flight.{
  FlightEvent, Recorder, no_event, fwrite_events, flight_record, pending, first_index,
  event_payload,
}

-- The events number `i` to `i + n - 1`.
abbrev pub from : (ℕ → FlightEvent) → ℕ → ℕ → List FlightEvent
from history i zero = []
from history i (suc n) = history i ∷ from history (i + 1) n

-- The ring has one slot for each number below its capacity, and holds the last events.
pub record Mirrors (history : ℕ → FlightEvent) (r : Recorder) : Type 0 where
  pub size : length r.events ≡ suc r.event_mask
  pub holds :
      (k : ℕ)
      → k < r.recorded
      → r.recorded ≤ k + suc r.event_mask
      → get_or r.events (k % suc r.event_mask) no_event ≡ history k
  pub behind : r.written ≤ r.recorded

add-mod_below : (k d c : ℕ) → k % c + d < c → (k + d) % c ≡ k % c + d
add-mod_below k d c h = sym (mod-add-mod k c d) ∙ mod-eq_of_lt h

add-mod_above : (k d c : ℕ) → c ≤ k % c + d → k % c + d < c + c → (k + d) % c ≡ k % c + d - c
add-mod_above k d c h l = sym (mod-add-mod k c d) ∙ mod-eq-sub-mod h ∙ mod-eq_of_lt (omega arith)

le_or_lt : (a b : ℕ) → (a ≤ b) ⊎ (b < a)
le_or_lt a b = omega arith

mod-distinct : (k d c : ℕ) → 0 < d → d < c → (k + d) % c ≢ k % c
mod-distinct k d c p l e = elim (le_or_lt c (k % c + d)) [
  | inl h ↦ omega (arith, add-mod_above k d c h (omega (arith, mod-lt k {m = c} (omega arith))))
  | inr h ↦ omega (arith, add-mod_below k d c h)
]

pub record-Mirrors :
    (history : ℕ → FlightEvent) (r : Recorder)
    → Mirrors history r
    → Mirrors history (flight_record r (history r.recorded))
unfolding flight_record
record-Mirrors history r m = record {
  size = length-set r.events (r.recorded % suc r.event_mask) (history r.recorded) ∙ m.size;
  holds = λ k l h. elim (le_or_lt r.recorded k) [
    | inl g ↦
        let e : k ≡ r.recorded = omega arith in
        rw e (
          get_or-set_self r.events (r.recorded % suc r.event_mask) (history r.recorded) no_event
            (omega (arith, m.size, mod-lt r.recorded {m = suc r.event_mask} (omega arith))))
    | inr g ↦
        let distinct =
          mod-distinct k (r.recorded - k) (suc r.event_mask) (omega arith) (omega arith) in
        let e : k + (r.recorded - k) ≡ r.recorded = omega arith in
        get_or-set_ne r.events (r.recorded % suc r.event_mask) (k % suc r.event_mask)
          (history r.recorded) no_event (λ q. distinct (ap (λ x. x % suc r.event_mask) e ∙ q))
        ∙ m.holds k g (omega arith)
  ];
  behind = omega (arith, m.behind);
}

from-append :
    (history : ℕ → FlightEvent) (i n k j : ℕ)
    → j ≡ i + n
    → from history i n ++ from history j k ≡ from history i (n + k)
from-append history i zero k j e =
    let same : j ≡ i = omega arith in let none : 0 + k ≡ k = omega arith in rw (same, none) refl
from-append history i (suc n) k j e =
    let step : suc n + k ≡ suc (n + k) = omega arith in
    rw step (ap (λ xs. history i ∷ xs) (from-append history (i + 1) n k j (omega arith)))

fwrite-from :
    (history : ℕ → FlightEvent) (events : List FlightEvent) (i k n : ℕ)
    → ((j : ℕ) → j < n → get_or events (i + j) no_event ≡ history (k + j))
    → fwrite_events events i n ≡ from history k n
fwrite-from history events i k zero h = refl
fwrite-from history events i k (suc n) h =
    let first : get_or events i no_event ≡ history k =
      subst₂ (λ a b. get_or events a no_event ≡ history b) (omega arith) (omega arith)
        (h 0 (omega arith)) in
    rw first (
      ap (λ xs. history k ∷ xs)
        (fwrite-from history events (i + 1) (k + 1) n (λ j l.
          subst₂ (λ a b. get_or events a no_event ≡ history b) (omega arith) (omega arith)
            (h (suc j) (omega arith)))))

-- The two reads around the end of a ring of `c` slots are one run of `p` events.
wrapped_from :
    (history : ℕ → FlightEvent) (events : List FlightEvent) (c f p : ℕ)
    → 0 < c
    → p ≤ c
    → ((k : ℕ) → f ≤ k → k < f + p → get_or events (k % c) no_event ≡ history k)
    → fwrite_events events (f % c) (min p (c - f % c))
        ++ fwrite_events events 0 (p - min p (c - f % c))
      ≡ from history f p
wrapped_from history events c f p pos l h =
    let below = mod-lt f {m = c} pos in
    let n = min p (c - f % c) in
    let upper = fwrite-from history events (f % c) f n (λ j lt.
      ap (λ i. get_or events i no_event) (sym (add-mod_below f j c (omega arith)))
      ∙ h (f + j) (omega arith) (omega arith)) in
    let lower = fwrite-from history events 0 (f + n) (p - n) (λ j lt.
      ap (λ i. get_or events i no_event)
        (omega (arith, add-mod_above f (n + j) c (omega arith) (omega arith)))
      ∙ h (f + (n + j)) (omega arith) (omega arith)
      ∙ ap history (omega arith)) in
    let all : n + (p - n) ≡ p = omega arith in
    rw (upper, lower, from-append history f n (p - n) (f + n) refl, all) refl

-- What flight_flush writes are the last events, in the order in which they were recorded.
pub event_payload_lem :
    (history : ℕ → FlightEvent) (r : Recorder)
    → Mirrors history r
    → event_payload r ≡ from history (first_index r) (pending r)
unfolding event_payload
event_payload_lem history r m =
    let fits : pending r ≤ suc r.event_mask = ground arith in
    let held : pending r ≤ r.recorded = ground arith in
    wrapped_from history r.events (suc r.event_mask) (first_index r) (pending r) (omega arith) fits
      (λ k l h. m.holds k (omega arith) (omega arith))
