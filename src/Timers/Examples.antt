-- ===== src/Timers/Examples.antt =====
-- The timers at concrete states.
use qemu_3dfx.Common.{ℕ, ◌≡◌, ◌≢◌, refl, some, [], ◌∷◌, arith, replicate}
use qemu_3dfx.Timers.{
  Timers, Request, free_timer, initial, timer_at, put_timer, set_event, kill_event, callback, later,
  entry,
}
use qemu_3dfx.Timers.Ids.{sets, apply, Reached, starts, calls}
use qemu_3dfx.Timers.Kill.{kill_running}
use qemu_3dfx.Timers.Ends.{idle, Ended, callback_ends}

-- A periodic timer of 10 milliseconds.
abbrev request : Request
request = record { delay = 10; resol = 1; func = 0x401000; user = 7; flags = 1 }

first_id : (set_event 100 request initial).0 ≡ 16
unfolding set_event
first_id = refl

-- A delay of 0 is refused.
no_delay : (set_event 100 (record request { delay = 0 }) initial).0 ≡ 0
unfolding set_event
no_delay = refl

-- After 4096 timers a WORD is used up, and the id is not 0.
wrapped_id : (set_event 100 request (record initial { created = 4095 })).0 ≡ 16
unfolding set_event
wrapped_id = refl

-- HookKillEvent of 0 finds a free slot 0.
kill_0 : (kill_event 0 initial).0 ≡ 0
unfolding kill_event
kill_0 = refl

abbrev two : Timers
two = apply (sets 100 request ∷ sets 105 request ∷ []) initial

two-Reached : Reached two
two-Reached = calls (sets 100 request ∷ sets 105 request ∷ []) initial starts

kill_running_example :
    ((i : ℕ)
      → (timer_at two i).id ≡ 33
      → kill_event 33 two ≡ (0, put_timer i (record (timer_at two i) { id = 0 }) two))
    × (((i : ℕ) → (timer_at two i).id ≢ 33) → kill_event 33 two ≡ (97, two))
kill_running_example = kill_running two 33 two-Reached (omega arith)

second : (timer_at two 1).id ≡ 33
unfolding apply set_event
second = refl

-- A periodic timer that is 25 milliseconds late, and a free slot.
abbrev late : Timers
late = record { timers = entry 90 request 16 ∷ free_timer ∷ []; created = 1 }

caught_up : (callback idle (replicate 4 125) late).0 ≡ some (later 5)
unfolding callback
caught_up = refl

callback_ends_example : Ended 125 (callback idle (replicate 4 125) late)
callback_ends_example =
    callback_ends 125 (omega arith) 4 late (omega arith)
      (λ _. (omega arith, omega arith, omega arith), (λ ne. absurd (ne refl), tt))

-- Triggers are compared without regard to the clock's wrap-around: a timer that is due waits for one
-- whose trigger is behind the wrap-around.
abbrev around : Timers
around = record {
  timers = entry 0xffffffe0 request 16 ∷ entry 0xfffffffa request 33 ∷ [];
  created = 2;
}

due_waits : (callback idle (0xfffffff0 ∷ []) around).0 ≡ some (later 20)
unfolding callback
due_waits = refl
