-- ===== src/Timers/Ids.antt =====
-- A timer's id names its slot, whatever the application and the timer's thread did before.
use qemu_3dfx.Common.{
  ℕ, zero, suc, ◌+◌, ◌%◌, ◌<◌, ◌≤◌, ◌≡◌, ◌≢◌, ◌⊎◌, inl, inr, refl, ◌∙◌, ◌||◌, Option, none, some,
  List, [], ◌∷◌, ltb, ◌==◌, Bool-cases, if◌then◌else◌, arith, get_or, set, length, length-set,
  get_or-set_self, get_or-set_ne,
}
use qemu_3dfx.Timers.Earliest.{IsEarliest, Found, earliest-Found}
use qemu_3dfx.Timers.{
  Timer, Timers, Request, free_timer, initial, timer_at, put_timer, find_free, new_id, next_created,
  start, set_event, kill_event, earliest, advance, is_periodic, calls_function, stop, end_timer,
  fire, callback, Wait, is_later, delta,
}

-- What an application does with its timers.
pub data Call : Type 0 where
  sets : ℕ → Request → Call
  kills : ℕ → Call

unfoldable pub apply : List Call → Timers → Timers
apply [] s = s
apply (sets tick r ∷ calls) s = apply calls (set_event tick r s).1
apply (kills id ∷ calls) s = apply calls (kill_event id s).1

-- The states that calls and runs of the callback lead to; `answer` is what the application's
-- functions do, by the timer's id and the state.
pub data Reached : Timers → Type 0 where
  starts : Reached initial
  calls : (cs : List Call) (s : Timers) → Reached s → Reached (apply cs s)
  runs :
      (answer : ℕ → Timers → List Call) (ticks : List ℕ) (s : Timers)
      → Reached s
      → Reached (callback (λ id u. apply (answer id u) u) ticks s).1

-- A slot without a timer, or one whose timer's id names it.
abbrev pub InSlot : ℕ → Timer → Type 0
InSlot i t = (t.id ≡ 0) ⊎ (t.id % 16 ≡ i)

pub record IsValid (s : Timers) : Type 0 where
  pub size : length s.timers ≡ 16
  pub slots : (i : ℕ) → InSlot i (timer_at s i)

put_self : (i : ℕ) (t : Timer) (s : Timers) → i < length s.timers → timer_at (put_timer i t s) i ≡ t
put_self i t s h = get_or-set_self s.timers i t free_timer h

put_ne : (i j : ℕ) (t : Timer) (s : Timers) → i ≢ j → timer_at (put_timer i t s) j ≡ timer_at s j
put_ne i j t s h = get_or-set_ne s.timers i j t free_timer h

beyond : (ts : List Timer) (i : ℕ) → length ts ≤ i → get_or ts i free_timer ≡ free_timer
beyond [] i h = refl
beyond (t ∷ ts) zero h = absurd (omega arith)
beyond (t ∷ ts) (suc i) h = beyond ts i (omega arith)

set_beyond :
    (ts : List Timer) (i : ℕ) (t : Timer)
    → length ts ≤ i
    → get_or (set ts i t) i free_timer ≡ free_timer
set_beyond ts i t h = beyond (set ts i t) i (rw (length-set ts i t) h)

same_or : (i j : ℕ) → (i ≡ j) ⊎ (i ≢ j)
same_or i j = ground arith

fits_or : (i n : ℕ) → (i < n) ⊎ (n ≤ i)
fits_or i n = ground arith

slot-set :
    (ts : List Timer) (i j : ℕ) (t : Timer)
    → InSlot i t
    → InSlot j (get_or ts j free_timer)
    → InSlot j (get_or (set ts i t) j free_timer)
slot-set ts i j t h k = elim (same_or i j) [
  | inr ne ↦ rw (get_or-set_ne ts i j t free_timer ne) k
  | inl e ↦ elim (fits_or i (length ts)) [
    | inl l ↦ rw (← e) (rw (get_or-set_self ts i t free_timer l) h)
    | inr l ↦ rw (← e) (rw (set_beyond ts i t l) (inl refl))
  ]
]

put_timer-IsValid :
    (i : ℕ) (t : Timer) (s : Timers) → InSlot i t → IsValid s → IsValid (put_timer i t s)
put_timer-IsValid i t s h v = record {
  size = length-set s.timers i t ∙ v.size;
  slots = λ j. slot-set s.timers i j t h (v.slots j);
}

advance-id : (t : Timer) → (advance t).id ≡ t.id
advance-id t = elim (Bool-cases (is_periodic t)) [ inl e ↦ rw e refl | inr e ↦ rw e refl ]

advance-InSlot : (i : ℕ) (t : Timer) → InSlot i t → InSlot i (advance t)
advance-InSlot i t h = elim (Bool-cases (is_periodic t)) [ inl e ↦ rw e h | inr e ↦ rw e h ]

stop-InSlot : (i : ℕ) (t : Timer) → InSlot i t → InSlot i (stop t)
stop-InSlot i t h = elim (Bool-cases (is_periodic t)) [ inl e ↦ rw e h | inr e ↦ rw e (inl refl) ]

end_timer-IsValid : (i : ℕ) (s : Timers) → IsValid s → IsValid (end_timer i s)
end_timer-IsValid i s v =
    put_timer-IsValid i (stop (timer_at s i)) s (stop-InSlot i (timer_at s i) (v.slots i)) v

-- What `find_free` finds is a slot of the list.
Slot : ℕ → ℕ → Option ℕ → Type 0
Slot k n none = Unit
Slot k n (some i) = (k ≤ i) × (i < k + n)

Slot-next : (k n : ℕ) (r : Option ℕ) → Slot (k + 1) n r → Slot k (suc n) r
unfolding Slot
Slot-next k n none h = tt
Slot-next k n (some i) h = (omega (arith, h), omega (arith, h))

find_free-Slot : (k : ℕ) (ts : List Timer) → Slot k (length ts) (find_free k ts)
unfolding find_free Slot
find_free-Slot k [] = tt
find_free-Slot k (t ∷ ts) = elim (Bool-cases (t.id == 0)) [
  | inl e ↦ rw e (omega arith, omega arith)
  | inr e ↦ rw e (Slot-next k (length ts) _ (find_free-Slot (k + 1) ts))
]

new_id-slot : (created i : ℕ) → i < 16 → new_id created i % 16 ≡ i
new_id-slot created i h = omega arith

start-IsValid :
    (tick : ℕ) (r : Request) (i : ℕ) (s : Timers)
    → i < 16
    → IsValid s
    → IsValid (start tick r i s).1
start-IsValid tick r i s h v = record {
  size = length-set s.timers i _ ∙ v.size;
  slots =
      λ j. slot-set s.timers i j _ (inr (new_id-slot (next_created s.created i) i h)) (v.slots j);
}

start_found-IsValid :
    (tick : ℕ) (r : Request) (s : Timers) (found : Option ℕ)
    → Slot 0 16 found
    → IsValid s
    → IsValid (elim found as (λ _. ℕ × Timers) [ none ↦ (0, s) | some i ↦ start tick r i s ]).1
unfolding Slot
start_found-IsValid tick r s none h v = v
start_found-IsValid tick r s (some i) h v = start-IsValid tick r i s (omega (arith, h)) v

set_event-IsValid :
    (tick : ℕ) (r : Request) (s : Timers) → IsValid s → IsValid (set_event tick r s).1
unfolding set_event
set_event-IsValid tick r s v = elim (Bool-cases (ltb r.delay 1 || ltb 65535 r.delay)) [
  | inl e ↦ rw e v
  | inr e ↦ rw e (
      start_found-IsValid tick r s (find_free 0 s.timers)
        (rw (← v.size) (find_free-Slot 0 s.timers)) v)
]

kill_event-IsValid : (id : ℕ) (s : Timers) → IsValid s → IsValid (kill_event id s).1
unfolding kill_event
kill_event-IsValid id s v = elim (Bool-cases ((timer_at s (id % 16)).id == id)) [
  | inl e ↦ rw e (put_timer-IsValid (id % 16) _ s (inl refl) v)
  | inr e ↦ rw e v
]

pub apply-IsValid : (cs : List Call) (s : Timers) → IsValid s → IsValid (apply cs s)
unfolding apply
apply-IsValid [] s v = v
apply-IsValid (sets tick r ∷ cs) s v = apply-IsValid cs _ (set_event-IsValid tick r s v)
apply-IsValid (kills id ∷ cs) s v = apply-IsValid cs _ (kill_event-IsValid id s v)

module _ (call : ℕ → Timers → Timers)
    (keeps : (id : ℕ) (s : Timers) → IsValid s → IsValid (call id s)) where
  fire-IsValid :
      (i : ℕ) (t : Timer) (s : Timers) → InSlot i t → IsValid s → IsValid (fire call i t s)
  unfolding fire
  fire-IsValid i t s h v =
      let moved = put_timer-IsValid i (advance t) s (advance-InSlot i t h) v in
      let called = keeps t.id _ moved in
      elim (Bool-cases (calls_function t)) [
        | inr e ↦ rw e (end_timer-IsValid i _ moved)
        | inl e ↦
            rw e
              (elim (Bool-cases ((timer_at (call t.id (put_timer i (advance t) s)) i).id == t.id)) [
                | inl k ↦ rw k (end_timer-IsValid i _ called)
                | inr k ↦ rw k called
              ])
      ]

  found-InSlot : (s : Timers) (r : ℕ × Timer) → IsValid s → IsEarliest 0 s.timers r → InSlot r.0 r.1
  found-InSlot s r v f =
      let at : r.0 ≡ f.at.place = omega (arith, f.at.slot) in
      rw at (rw (← f.at.there) (v.slots f.at.place))

  run-IsValid :
      (ticks : List ℕ)
      → ((s : Timers) → IsValid s → IsValid (callback call ticks s).1)
      → (tick : ℕ) (s : Timers) → IsValid s
      → (found : Option (ℕ × Timer)) → Found 0 s.timers found
      → IsValid
          (elim found as (λ _. Option Wait × Timers) [
            | none ↦ (some Wait.no_timer, s)
            | some (i, t) ↦
                let rest = callback call ticks (fire call i t s) in
                if is_later t.trigger tick
                then (some (Wait.later (delta t.trigger tick)), s)
                else rest
          ]).1
  run-IsValid ticks ih tick s v none f = v
  run-IsValid ticks ih tick s v (some (i, t)) f = elim (Bool-cases (is_later t.trigger tick)) [
    | inl e ↦ rw e v
    | inr e ↦ rw e (ih _ (fire-IsValid i t s (found-InSlot s (i, t) v f) v))
  ]

  pub callback-IsValid :
      (ticks : List ℕ) (s : Timers) → IsValid s → IsValid (callback call ticks s).1
  unfolding callback
  callback-IsValid [] s v = v
  callback-IsValid (tick ∷ ticks) s v =
      run-IsValid ticks (callback-IsValid ticks) tick s v (earliest 0 s.timers)
        (earliest-Found 0 s.timers)
