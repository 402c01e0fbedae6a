-- ===== src/Timers/Kill.antt =====
-- HookKillEvent in the states that an application and the timer's thread reach.
use qemu_3dfx.Common.{
  ℕ, zero, suc, ◌%◌, ◌≡◌, ◌≢◌, inl, inr, refl, sym, ◌∙◌, ==_refl, ==_of_ne, get_or, replicate,
}
use qemu_3dfx.Timers.{Timers, free_timer, initial, timer_at, put_timer, kill_event}
use qemu_3dfx.Timers.Ids.{
  Reached, starts, calls, runs, apply, IsValid, apply-IsValid, callback-IsValid,
}

all_free : (i n : ℕ) → (get_or (replicate n free_timer) i free_timer).id ≡ 0
all_free i zero = refl
all_free zero (suc n) = refl
all_free (suc i) (suc n) = all_free i n

initial-IsValid : IsValid initial
initial-IsValid = record { size = refl; slots = λ i. inl (all_free i 16) }

Reached-IsValid : (s : Timers) → Reached s → IsValid s
Reached-IsValid s starts = initial-IsValid
Reached-IsValid s (calls cs u r) = apply-IsValid cs u (Reached-IsValid u r)
Reached-IsValid s (runs answer ticks u r) =
    callback-IsValid (λ id w. apply (answer id w) w) (λ id w v. apply-IsValid (answer id w) w v)
      ticks u (Reached-IsValid u r)

names_slot : (i id : ℕ) (s : Timers) → IsValid s → id ≢ 0 → (timer_at s i).id ≡ id → id % 16 ≡ i
names_slot i id s v ne e = elim (v.slots i) [
  | inl z ↦ absurd (ne (sym e ∙ z))
  | inr at ↦ rw (← e) at
]

-- In a state that calls of HookSetEvent and HookKillEvent and runs of the callback lead to,
-- whatever the application's functions do, HookKillEvent of an id other than 0 stops the timer
-- with that id, and no other, and answers TIMERR_NOERROR; when no timer has the id it answers
-- TIMERR_NOCANDO and changes nothing.
pub kill_running :
    (s : Timers) (id : ℕ)
    → Reached s
    → id ≢ 0
    → ((i : ℕ)
        → (timer_at s i).id ≡ id
        → kill_event id s ≡ (0, put_timer i (record (timer_at s i) { id = 0 }) s))
      × (((i : ℕ) → (timer_at s i).id ≢ id) → kill_event id s ≡ (97, s))
unfolding kill_event
kill_running s id r ne = (
  λ i e. rw (names_slot i id s (Reached-IsValid s r) ne e) (rw e (rw (==_refl id) refl)),
  λ other. rw (==_of_ne _ id (other (id % 16))) refl,
)
