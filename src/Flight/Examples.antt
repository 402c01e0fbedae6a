-- ===== src/Flight/Examples.antt =====
-- Tests of the flight recorder, and the theorems of Flight/Account at inputs.
use qemu_3dfx.Common.{ℕ, ◌*◌, ◌≡◌, refl, true, List, [], ◌∷◌, arith}
use qemu_3dfx.Flight.{
  FlightEvent, no_event, Recorder, Clock, Action, record_event, count_call, flush, record_at,
  flight_record, count_fifo_call, flight_flush, flight_at_exit, event_payload, act, run, lost,
}
use qemu_3dfx.Flight.Ring.{from}
use qemu_3dfx.Flight.Account.{Account, IsSound, run-IsSound, exit_complete}

abbrev history : ℕ → FlightEvent
history k = record { ticks = 100 * k; kind = 1; id = k; value = 7 }

-- A ring of four events, as flight_init leaves it.
abbrev fresh : Recorder
fresh = record {
  level = 1;
  events = no_event ∷ no_event ∷ no_event ∷ no_event ∷ [];
  event_mask = 3;
  recorded = 0;
  fifo_call_counts = 0 ∷ 0 ∷ [];
  fifo_call_count_size = 2;
  file = true;
  output = [];
  written = 0;
  configured_level = 1;
}

fresh-IsSound : IsSound history fresh
fresh-IsSound = record {
  ring = record { size = refl; holds = λ k l h. absurd (omega arith); behind = omega arith };
  told = refl;
}

abbrev clock : Clock
clock = record { ticks_before = 10; realtime_ns = 5; ticks_after = 14 }

-- One event, a flush, a call that is above the level, and six more events.
abbrev session : List Action
session =
    record_event 1
    ∷ flush clock clock 1
    ∷ record_event 2
    ∷ count_call 1
    ∷ record_event 1
    ∷ record_event 1
    ∷ record_event 1
    ∷ record_event 1
    ∷ record_event 1
    ∷ record_event 1
    ∷ []

last_four : event_payload (run history fresh session) ≡ from history 3 4
unfolding run act record_at flight_record count_fifo_call flight_flush event_payload
last_four = refl

two_lost : lost (run history fresh session) ≡ 2
unfolding run act record_at flight_record count_fifo_call flight_flush
two_lost = refl

counted : (run history fresh session).fifo_call_counts ≡ 0 ∷ 1 ∷ []
unfolding run act record_at flight_record count_fifo_call flight_flush
counted = refl

run-IsSound_example : IsSound history (run history fresh session)
run-IsSound_example = run-IsSound history fresh session fresh-IsSound

still_open : (run history fresh session).file ≡ true
unfolding run act record_at flight_record count_fifo_call flight_flush
still_open = refl

exit_complete_example :
    let r = run history fresh session in
    Account history 0 (flight_at_exit r clock clock).output r.recorded
    × (record_at (flight_at_exit r clock clock) 1 no_event ≡ flight_at_exit r clock clock)
    × (flight_flush (flight_at_exit r clock clock) clock clock 1 ≡ flight_at_exit r clock clock)
exit_complete_example =
    exit_complete history (run history fresh session) clock clock no_event 1
      (run-IsSound history fresh session fresh-IsSound) still_open (omega arith)
