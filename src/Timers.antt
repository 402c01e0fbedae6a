-- ===== src/Timers.antt =====
-- The multimedia timers of wrappers/fxlib/fxtime.c: HookSetEvent, HookKillEvent and
-- TIME_MMSysTimeCallback. What the timer's thread and the critical sections do, and the wait of
-- HookKillEvent for the thread's end, are left out.
pub mod Earliest
pub mod Ends
pub mod Ids
pub mod Kill
mod Examples
use qemu_3dfx.Common.{
  ℕ, ◌+◌, ◌-◌, ◌*◌, ◌/◌, ◌%◌, Bool, true, false, ◌&&◌, ◌||◌, not, Option, none, some, List, [], ◌∷◌,
  ltb, leb, ◌==◌, if◌then◌else◌, get_or, set, replicate,
}

-- `WINE_TIMERENTRY`; the function and its argument are the application's numbers.
pub record Timer : Type 0 where
  pub delay : ℕ
  pub resol : ℕ
  pub func : ℕ
  pub user : ℕ
  pub flags : ℕ
  pub id : ℕ
  pub trigger : ℕ

-- `timers` and `timers_created`.
pub record Timers : Type 0 where
  pub timers : List Timer
  pub created : ℕ

abbrev pub free_timer : Timer
free_timer = record { delay = 0; resol = 0; func = 0; user = 0; flags = 0; id = 0; trigger = 0 }

abbrev pub initial : Timers
initial = record { timers = replicate 16 free_timer; created = 0 }

abbrev pub timer_at : Timers → ℕ → Timer
timer_at s i = get_or s.timers i free_timer

abbrev pub put_timer : ℕ → Timer → Timers → Timers
put_timer i t s = record s { timers = set s.timers i t }

-- The first slot without a timer, from the slot `i` on.
pub find_free : ℕ → List Timer → Option ℕ
find_free i [] = none
find_free i (t ∷ ts) = if t.id == 0 then some i else find_free (i + 1) ts

-- `ARRAY_SIZE(timers)*(++timers_created) + i` in a WORD, for the `created` behind the increment.
abbrev pub new_id : ℕ → ℕ → ℕ
new_id created i = (16 * created + i) % 0x10000

-- `++timers_created`, a second time when that gives no id.
abbrev pub count : ℕ → ℕ
count created = (created + 1) % 0x100000000

abbrev pub next_created : ℕ → ℕ → ℕ
next_created created i =
    if new_id (count created) i == 0 then count (count created) else count created

-- What the application asks for.
pub record Request : Type 0 where
  pub delay : ℕ
  pub resol : ℕ
  pub func : ℕ
  pub user : ℕ
  pub flags : ℕ

-- The entry for a request.
abbrev pub entry : ℕ → Request → ℕ → Timer
entry tick r id = record {
  delay = r.delay;
  resol = r.resol;
  func = r.func;
  user = r.user;
  flags = r.flags % 0x10000;
  id = id;
  trigger = (tick + r.delay) % 0x100000000;
}

abbrev pub start : ℕ → Request → ℕ → Timers → ℕ × Timers
start tick r i s =
    let created = next_created s.created i in
    let id = new_id created i in
    (id, record { timers = set s.timers i (entry tick r id); created = created })

-- `HookSetEvent`, with what `fxTick` reads.
unfoldable pub set_event : ℕ → Request → Timers → ℕ × Timers
unfolding find_free
set_event tick r s =
    if ltb r.delay 1 || ltb 65535 r.delay
    then (0, s)
    else elim (find_free 0 s.timers) [ none ↦ (0, s) | some i ↦ start tick r i s ]

-- `HookKillEvent`: 0 is TIMERR_NOERROR, 97 is TIMERR_NOCANDO.
unfoldable pub kill_event : ℕ → Timers → ℕ × Timers
kill_event id s =
    let t = timer_at s (id % 16) in
    if t.id == id then (0, put_timer (id % 16) (record t { id = 0 }) s) else (97, s)

-- The second loop of the callback: the timer with the earliest trigger of those from `i` on and
-- of `best`, at the slot `k`.
pub earliest_from : ℕ → Timer → ℕ → List Timer → ℕ × Timer
earliest_from k best i [] = (k, best)
earliest_from k best i (t ∷ ts) =
    let skip = earliest_from k best (i + 1) ts in
    let take = earliest_from i t (i + 1) ts in
    if t.id == 0 then skip else if ltb t.trigger best.trigger then take else skip

-- Both loops.
pub earliest : ℕ → List Timer → Option (ℕ × Timer)
unfolding earliest_from
earliest i [] = none
earliest i (t ∷ ts) =
    let rest = earliest (i + 1) ts in
    if t.id == 0 then rest else some (earliest_from i t (i + 1) ts)

-- `timer->wFlags & TIME_PERIODIC`
abbrev pub is_periodic : Timer → Bool
is_periodic t = t.flags % 2 == 1

-- `wFlags & (TIME_CALLBACK_EVENT_SET|TIME_CALLBACK_EVENT_PULSE)` is 0.
abbrev pub calls_function : Timer → Bool
calls_function t = t.flags / 0x10 % 4 == 0

abbrev pub advance : Timer → Timer
advance t = if is_periodic t then record t { trigger = (t.trigger + t.delay) % 0x100000000 } else t

abbrev pub stop : Timer → Timer
stop t = if is_periodic t then t else record t { id = 0 }

abbrev pub end_timer : ℕ → Timers → Timers
end_timer i s = put_timer i (stop (timer_at s i)) s

-- The body of the loop for a timer that is due. `call` is the application's function, which may set
-- and kill timers; that an event is set changes none.
unfoldable pub fire : (ℕ → Timers → Timers) → ℕ → Timer → Timers → Timers
fire call i t s =
    let moved = put_timer i (advance t) s in
    let called = call t.id moved in
    if calls_function t
    then (if (timer_at called i).id == t.id then end_timer i called else called)
    else end_timer i moved

-- `delta_time > 0`, an int.
abbrev pub delta : ℕ → ℕ → ℕ
delta trigger tick = (0x100000000 + trigger - tick) % 0x100000000

abbrev pub is_later : ℕ → ℕ → Bool
is_later trigger tick = ltb 0 (delta trigger tick) && ltb (delta trigger tick) 0x80000000

-- What the callback returns: -1, or `delta_time`.
pub data Wait : Type 0 where
  no_timer : Wait
  later : ℕ → Wait

-- `TIME_MMSysTimeCallback`, for as many rounds as there are readings of the clock.
unfoldable pub callback : (ℕ → Timers → Timers) → List ℕ → Timers → Option Wait × Timers
unfolding earliest fire
callback call [] s = (none, s)
callback call (tick ∷ ticks) s = elim (earliest 0 s.timers) [
  | none ↦ (some no_timer, s)
  | some (i, t) ↦
      let rest = callback call ticks (fire call i t s) in
      if is_later t.trigger tick then (some (later (delta t.trigger tick)), s) else rest
]
