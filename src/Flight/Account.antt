-- ===== src/Flight/Account.antt =====
-- What the file of mesagl_flight.c says about the events, however recording and flushing interleave.
use qemu_3dfx.Common.{
  ℕ, ◌+◌, ◌*◌, ◌<◌, ◌≡◌, refl, Bool, true, false, List, [], ◌∷◌, ◌++◌, arith, ltb, leb, ◌&&◌,
  if◌then◌else◌,
}
use qemu_3dfx.Flight.{
  FlightEvent, Chunk, event_chunk, count_chunk, Recorder, Clock, Action, record_event, count_call,
  flush, at_exit, pending, lost, first_index, flight_record, record_at, count_fifo_call,
  flight_fill_header, events_of, counts_of, flight_flush, flight_at_exit, act, run,
}
use qemu_3dfx.Flight.Ring.{from, Mirrors, record-Mirrors, event_payload_lem}

-- The chunks account for the events number `i` to `j - 1`, each once and in order: a chunk counts
-- how many were lost before its first event, and its payload are the events from there on.
abbrev pub Account : (ℕ → FlightEvent) → ℕ → List Chunk → ℕ → Type 0
Account history i [] j = i ≡ j
Account history i (event_chunk h events ∷ chunks) j =
    (h.first_event_index ≡ i + h.events_lost)
    × ((n : ℕ) × (events ≡ from history h.first_event_index n)
        × (h.payload_bytes ≡ n * 16)
        × Account history (h.first_event_index + n) chunks j)
Account history i (count_chunk h counts ∷ chunks) j = Account history i chunks j

Account-append :
    (history : ℕ → FlightEvent) (i j k : ℕ) (cs ds : List Chunk)
    → Account history i cs j
    → Account history j ds k
    → Account history i (cs ++ ds) k
Account-append history i j k [] ds a b = rw a b
Account-append history i j k (event_chunk h events ∷ cs) ds (order, (n, same, bytes, rest)) b =
    (order, (n, same, bytes, Account-append history (h.first_event_index + n) j k cs ds rest b))
Account-append history i j k (count_chunk h counts ∷ cs) ds a b =
    Account-append history i j k cs ds a b

-- The recorder's state is sound: the ring mirrors the last events, and the file accounts for all
-- events that were written.
pub record IsSound (history : ℕ → FlightEvent) (r : Recorder) : Type 0 where
  pub ring : Mirrors history r
  pub told : Account history 0 r.output r.written

flush-Account :
    (history : ℕ → FlightEvent) (r : Recorder) (c d : Clock) (reason : ℕ)
    → Mirrors history r
    → Account history r.written (events_of r c reason ∷ counts_of r d reason ∷ []) r.recorded
unfolding events_of counts_of flight_fill_header
flush-Account history r c d reason m =
    let order : first_index r ≡ r.written + lost r = ground (arith, m.behind) in
    let end : first_index r + pending r ≡ r.recorded = ground (arith, m.behind) in
    (order, (pending r, event_payload_lem history r m, refl, end))

-- Either branch of a test is sound.
either-IsSound :
    (history : ℕ → FlightEvent) (test : Bool) (r r' : Recorder)
    → IsSound history r
    → IsSound history r'
    → IsSound history (if test then r else r')
either-IsSound history true r r' s s' = s
either-IsSound history false r r' s s' = s'

-- Soundness does not depend on the level, the counts and whether the file is open.
other_fields-IsSound :
    (history : ℕ → FlightEvent) (r : Recorder) (level : ℕ) (file : Bool) (counts : List ℕ)
    → IsSound history r
    → IsSound history (record r { level = level; file = file; fifo_call_counts = counts })
other_fields-IsSound history r level file counts s = record {
  ring = record { size = s.ring.size; holds = s.ring.holds; behind = s.ring.behind };
  told = s.told;
}

flush-IsSound :
    (history : ℕ → FlightEvent) (r : Recorder) (c d : Clock) (reason : ℕ)
    → IsSound history r
    → IsSound history (flight_flush r c d reason)
unfolding flight_flush
flush-IsSound history r c d reason s =
    either-IsSound history r.file _ r
      (record {
        ring = record { size = s.ring.size; holds = s.ring.holds; behind = omega arith };
        told =
            Account-append history 0 r.written r.recorded r.output _ s.told
              (flush-Account history r c d reason s.ring);
      })
      s

exit-IsSound :
    (history : ℕ → FlightEvent) (r : Recorder) (c d : Clock)
    → IsSound history r
    → IsSound history (flight_at_exit r c d)
unfolding flight_at_exit
exit-IsSound history r c d s =
    let off = record r { level = 0 } in
    let out = flight_flush off c d 2 in
    let sound =
      flush-IsSound history off c d 2
        (other_fields-IsSound history r 0 r.file r.fifo_call_counts s) in
    either-IsSound history r.file (record out { file = false }) r
      (other_fields-IsSound history out out.level false out.fifo_call_counts sound) s

count-IsSound :
    (history : ℕ → FlightEvent) (r : Recorder) (fenum : ℕ)
    → IsSound history r
    → IsSound history (count_fifo_call r fenum)
unfolding count_fifo_call
count-IsSound history r fenum s =
    either-IsSound history (leb 1 r.level && ltb fenum r.fifo_call_count_size) _ r
      (other_fields-IsSound history r r.level r.file _ s) s

act-IsSound :
    (history : ℕ → FlightEvent) (r : Recorder) (a : Action)
    → IsSound history r
    → IsSound history (act history r a)
unfolding act record_at count_fifo_call flight_record
act-IsSound history r (record_event minimum_level) s =
    either-IsSound history (leb minimum_level r.level) _ r
      (record { ring = record-Mirrors history r s.ring; told = s.told }) s
act-IsSound history r (count_call fenum) s = count-IsSound history r fenum s
act-IsSound history r (flush c d reason) s = flush-IsSound history r c d reason s
act-IsSound history r (at_exit c d) s = exit-IsSound history r c d s

-- If the ring mirrors the last events and the file accounts for what was written, then this holds
-- however recording, counting, flushing and the exit follow: the ring keeps the last events that
-- were recorded, and the chunks give every event before the last flush once and in order, or count
-- it as lost.
pub run-IsSound :
    (history : ℕ → FlightEvent) (r : Recorder) (actions : List Action)
    → IsSound history r
    → IsSound history (run history r actions)
unfolding run
run-IsSound history r [] s = s
run-IsSound history r (a ∷ rest) s =
    run-IsSound history (act history r a) rest (act-IsSound history r a s)

exit-open :
    (r : Recorder) (c d : Clock)
    → r.file ≡ true
    → flight_at_exit r c d ≡ record r {
      level = 0;
      file = false;
      output =
          r.output
          ++ (events_of (record r { level = 0 }) c 2 ∷ counts_of (record r { level = 0 }) d 2 ∷ []);
      written = r.recorded;
    }
unfolding flight_at_exit flight_flush
exit-open r c d opened = simp opened refl

-- After the exit of a sound recorder whose file is open, the chunks in the file account for every
-- event that was ever recorded, a hook of a level above 0 records nothing, and a flush writes
-- nothing.
pub exit_complete :
    (history : ℕ → FlightEvent) (r : Recorder) (c d : Clock) (e : FlightEvent) (level : ℕ)
    → IsSound history r
    → r.file ≡ true
    → 0 < level
    → Account history 0 (flight_at_exit r c d).output r.recorded
      × (record_at (flight_at_exit r c d) level e ≡ flight_at_exit r c d)
      × (flight_flush (flight_at_exit r c d) c d 1 ≡ flight_at_exit r c d)
unfolding record_at flight_flush
exit_complete history r c d e level s opened pos =
    let off : leb level 0 ≡ false = ground arith in
    let ended = exit-open r c d opened in
    let sound = Account-append history 0 r.written r.recorded r.output _ s.told (
      flush-Account history (record r { level = 0 }) c d 2
        (other_fields-IsSound history r 0 r.file r.fifo_call_counts s).ring) in
    rw (ended, off) (sound, refl, refl)
