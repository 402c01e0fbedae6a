-- ===== src/Flight.antt =====
-- The flight recorder of qemu-1/hw/mesa/mesagl_flight.c and mesagl_flight.h: the ring of events and
-- the chunks that flight_flush appends to the file. A chunk is its header and its payload; what the
-- clocks read is an argument, and the 64 bit counters do not wrap around.
pub mod Ring
pub mod Account
mod Examples
use qemu_3dfx.Common.{
  ℕ, zero, suc, ◌+◌, ◌-◌, ◌*◌, ◌/◌, ◌%◌, min, Bool, true, false, ◌&&◌, List, [], ◌∷◌, ◌++◌, ltb,
  leb, if◌then◌else◌, set, get_or,
}

-- `FlightEvent`
pub record FlightEvent : Type 0 where
  pub ticks : ℕ
  pub kind : ℕ
  pub id : ℕ
  pub value : ℕ

-- Memory that g_try_malloc and memset leave.
abbrev pub no_event : FlightEvent
no_event = record { ticks = 0; kind = 0; id = 0; value = 0 }

abbrev pub event_size : ℕ
event_size = 16

-- `FlightChunkHeader` without its magic bytes.
pub record FlightChunkHeader : Type 0 where
  pub chunk_type : ℕ
  pub record_bytes : ℕ
  pub payload_bytes : ℕ
  pub first_event_index : ℕ
  pub events_lost : ℕ
  pub ticks_at_write : ℕ
  pub realtime_ns_at_write : ℕ
  pub level : ℕ
  pub reason : ℕ

-- The chunks that flight_flush writes.
pub data Chunk : Type 0 where
  event_chunk : FlightChunkHeader → List FlightEvent → Chunk
  count_chunk : FlightChunkHeader → List ℕ → Chunk

-- The variables of the file. `file` is whether flight_file is open, `output` what was written.
pub record Recorder : Type 0 where
  pub level : ℕ
  pub events : List FlightEvent
  pub event_mask : ℕ
  pub recorded : ℕ
  pub fifo_call_counts : List ℕ
  pub fifo_call_count_size : ℕ
  pub file : Bool
  pub output : List Chunk
  pub written : ℕ
  pub configured_level : ℕ

-- `x & flight_event_mask`: the mask is one less than a power of two.
abbrev pub slot_of : ℕ → ℕ → ℕ
slot_of mask x = x % suc mask

pub flight_record : Recorder → FlightEvent → Recorder
flight_record r e = record r {
  events = set r.events (slot_of r.event_mask r.recorded) e;
  recorded = r.recorded + 1;
}

-- `FLIGHT_RECORD`
pub record_at : Recorder → ℕ → FlightEvent → Recorder
unfolding flight_record
record_at r minimum_level e = if leb minimum_level r.level then flight_record r e else r

-- `FLIGHT_COUNT_FIFO_CALL`
pub count_fifo_call : Recorder → ℕ → Recorder
count_fifo_call r fenum =
    if leb 1 r.level && ltb fenum r.fifo_call_count_size
    then record r {
      fifo_call_counts = set r.fifo_call_counts fenum (get_or r.fifo_call_counts fenum 0 + 1);
    }
    else r

-- What the clocks read while a header is filled.
pub record Clock : Type 0 where
  pub ticks_before : ℕ
  pub realtime_ns : ℕ
  pub ticks_after : ℕ

pub flight_fill_header : Recorder → Clock → ℕ → ℕ → ℕ → ℕ → FlightChunkHeader
flight_fill_header r c chunk_type record_bytes payload_bytes reason = record {
  chunk_type = chunk_type;
  record_bytes = record_bytes;
  payload_bytes = payload_bytes;
  first_event_index = 0;
  events_lost = 0;
  ticks_at_write = c.ticks_before + (c.ticks_after - c.ticks_before) / 2;
  realtime_ns_at_write = c.realtime_ns;
  level = r.configured_level;
  reason = reason;
}

-- `fwrite` of `n` events from slot `i` on.
abbrev pub fwrite_events : List FlightEvent → ℕ → ℕ → List FlightEvent
fwrite_events events i zero = []
fwrite_events events i (suc n) = get_or events i no_event ∷ fwrite_events events (i + 1) n

abbrev pub capacity : Recorder → ℕ
capacity r = suc r.event_mask

abbrev pub all_pending : Recorder → ℕ
all_pending r = r.recorded - r.written

abbrev pub lost : Recorder → ℕ
lost r = if ltb (capacity r) (all_pending r) then all_pending r - capacity r else 0

abbrev pub pending : Recorder → ℕ
pending r = if ltb (capacity r) (all_pending r) then capacity r else all_pending r

abbrev pub first_index : Recorder → ℕ
first_index r = r.recorded - pending r

abbrev pub first_slot : Recorder → ℕ
first_slot r = slot_of r.event_mask (first_index r)

abbrev pub first_part : Recorder → ℕ
first_part r = min (pending r) (capacity r - first_slot r)

-- The two calls of fwrite for the events.
pub event_payload : Recorder → List FlightEvent
event_payload r =
    fwrite_events r.events (first_slot r) (first_part r)
    ++ fwrite_events r.events 0 (pending r - first_part r)

pub events_of : Recorder → Clock → ℕ → Chunk
unfolding flight_fill_header event_payload
events_of r c reason =
    event_chunk
      (record (flight_fill_header r c 2 event_size (pending r * event_size) reason) {
        first_event_index = first_index r;
        events_lost = lost r;
      })
      (event_payload r)

pub counts_of : Recorder → Clock → ℕ → Chunk
unfolding flight_fill_header
counts_of r c reason =
    count_chunk (flight_fill_header r c 3 8 (r.fifo_call_count_size * 8) reason) r.fifo_call_counts

pub flight_flush : Recorder → Clock → Clock → ℕ → Recorder
unfolding events_of counts_of
flight_flush r c d reason =
    if r.file
    then record r {
      output = r.output ++ (events_of r c reason ∷ counts_of r d reason ∷ []);
      written = r.recorded;
    }
    else r

-- `flight_at_exit`; FLIGHT_FLUSH_EXIT is 2.
pub flight_at_exit : Recorder → Clock → Clock → Recorder
unfolding flight_flush
flight_at_exit r c d =
    if r.file then record (flight_flush (record r { level = 0 }) c d 2) { file = false } else r

-- What the device does with the recorder, one call after the other.
pub data Action : Type 0 where
  record_event : ℕ → Action
  count_call : ℕ → Action
  flush : Clock → Clock → ℕ → Action
  at_exit : Clock → Clock → Action

-- `history k` is the event that is recorded as number `k`.
pub act : (ℕ → FlightEvent) → Recorder → Action → Recorder
unfolding record_at count_fifo_call flight_flush flight_at_exit
act history r (record_event minimum_level) = record_at r minimum_level (history r.recorded)
act history r (count_call fenum) = count_fifo_call r fenum
act history r (flush c d reason) = flight_flush r c d reason
act history r (at_exit c d) = flight_at_exit r c d

pub run : (ℕ → FlightEvent) → Recorder → List Action → Recorder
unfolding act
run history r [] = r
run history r (a ∷ rest) = run history (act history r a) rest
