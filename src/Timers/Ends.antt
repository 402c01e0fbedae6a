-- ===== src/Timers/Ends.antt =====
-- TIME_MMSysTimeCallback comes to an end and leaves no timer that is due, when the clock stands
-- still meanwhile and the application's functions change no timer.
use qemu_3dfx.Common.{
  ℕ, zero, suc, ◌+◌, ◌-◌, ◌/◌, ◌%◌, ltb, ◌<◌, ◌≤◌, ◌≡◌, ◌≢◌, inl, inr, refl, ap, sym, ◌∙◌, true,
  false, Option, none, some, List, [], ◌∷◌, ◌==◌, ==_refl, ==_of_ne, Bool-cases, if◌then◌else◌,
  arith, get_or, set, length, get_or-set_self, All, replicate,
}
use qemu_3dfx.Timers.{
  Timer, Timers, free_timer, timer_at, put_timer, earliest, advance, is_periodic, calls_function,
  stop, end_timer, fire, callback, Wait, no_timer, later, is_later, delta,
}
use native.Mathlib.Nat.{div-eq_of_lt, div-eq-sub-div}
use qemu_3dfx.Timers.Earliest.{IsLeast, Found, earliest-Found}

-- How many times of those from `trigger` on, `delay` apart, have come.
abbrev pub periods : ℕ → ℕ → ℕ → ℕ
periods now delay trigger = if ltb now trigger then 0 else (now - trigger) / delay + 1

-- How many periods of a timer are due: of one that runs once, whether its trigger has come.
abbrev pub due_of : ℕ → Timer → ℕ
due_of now t =
    if t.id == 0
    then 0
    else if is_periodic t
    then periods now t.delay t.trigger
    else if ltb now t.trigger
    then 0
    else 1

-- Its periods until it is moved on, and behind that.
periods-step :
    (now delay trigger : ℕ)
    → 1 ≤ delay
    → trigger ≤ now
    → periods now delay (trigger + delay) + 1 ≡ periods now delay trigger
periods-step now delay trigger some_delay over = elim (Bool-cases (ltb now (trigger + delay))) [
  | inl e ↦
      let none_left : (now - trigger) / delay ≡ 0 = div-eq_of_lt (ground arith) in
      rw e (rw none_left (ground arith))
  | inr e ↦
      let one_less : (now - trigger) / delay ≡ (now - trigger - delay) / delay + 1 =
        div-eq-sub-div (omega arith) (ground arith) in
      let same : now - (trigger + delay) ≡ now - trigger - delay = omega arith in
      rw e (rw same (rw one_less (ground arith)))
]

abbrev pub due : ℕ → List Timer → ℕ
due now [] = 0
due now (t ∷ ts) = due_of now t + due now ts

due-set :
    (now : ℕ) (ts : List Timer) (i : ℕ) (t u : Timer)
    → i < length ts
    → get_or ts i free_timer ≡ t
    → due now (set ts i u) + due_of now t ≡ due now ts + due_of now u
due-set now [] i t u h e = absurd (omega arith)
due-set now (v ∷ ts) zero t u h e = rw e (omega arith)
due-set now (v ∷ ts) (suc i) t u h e = omega (arith, due-set now ts i t u (omega arith) e)

-- A running timer has a delay that HookSetEvent lets pass, and no trigger is far from `now`.
abbrev pub IsNear : ℕ → Timer → Type 0
IsNear now t = t.id ≢ 0 → (1 ≤ t.delay) × (t.delay ≤ 65535) × (t.trigger ≤ now + 65535)

All-get :
    (P : Timer → Type 0) (ts : List Timer) (i : ℕ)
    → i < length ts
    → All P ts
    → P (get_or ts i free_timer)
All-get P [] i h a = absurd (omega arith)
All-get P (t ∷ ts) zero h a = a.0
All-get P (t ∷ ts) (suc i) h a = All-get P ts i (omega arith) a.1

All-set :
    (P : Timer → Type 0) (ts : List Timer) (i : ℕ) (u : Timer) → P u → All P ts → All P (set ts i u)
All-set P [] i u p a = tt
All-set P (t ∷ ts) zero u p a = (p, a.1)
All-set P (t ∷ ts) (suc i) u p a = (a.0, All-set P ts i u p a.1)

set-set : (ts : List Timer) (i : ℕ) (t u : Timer) → set (set ts i t) i u ≡ set ts i u
set-set [] i t u = refl
set-set (v ∷ ts) zero t u = refl
set-set (v ∷ ts) (suc i) t u = ap (λ l. v ∷ l) (set-set ts i t u)

-- A function that changes no timer.
abbrev pub idle : ℕ → Timers → Timers
idle id s = s

module _ (i : ℕ) (t : Timer) (s : Timers) (inside : i < length s.timers) where
  moved_at : timer_at (put_timer i (advance t) s) i ≡ advance t
  moved_at = get_or-set_self s.timers i (advance t) free_timer inside

  end_timer-moved : end_timer i (put_timer i (advance t) s) ≡ put_timer i (stop (advance t)) s
  end_timer-moved =
      ap (λ u. put_timer i (stop u) (put_timer i (advance t) s)) moved_at
      ∙ ap (λ l. record s { timers = l }) (set-set s.timers i (advance t) (stop (advance t)))

  advance-id : (advance t).id ≡ t.id
  advance-id = elim (Bool-cases (is_periodic t)) [ inl e ↦ rw e refl | inr e ↦ rw e refl ]

  fire-idle : fire idle i t s ≡ put_timer i (stop (advance t)) s
  unfolding fire
  fire-idle = elim (Bool-cases (calls_function t)) [
    | inl e ↦
        let same : ((timer_at (put_timer i (advance t) s) i).id == t.id) ≡ true =
          rw moved_at (rw advance-id (==_refl t.id)) in
        rw e (rw same end_timer-moved)
    | inr e ↦ rw e end_timer-moved
  ]

-- The clock is far from its wrap-around.
abbrev pub IsEarly : ℕ → Type 0
IsEarly now = now < 0x7fff0000

late_due :
    (now trigger : ℕ)
    → IsEarly now
    → trigger ≤ now + 65535
    → is_later trigger now ≡ false
    → trigger ≤ now
late_due now trigger h k e = ground arith

later_delta :
    (now trigger : ℕ)
    → IsEarly now
    → trigger ≤ now + 65535
    → is_later trigger now ≡ true
    → (0 < delta trigger now) × (now + delta trigger now ≡ trigger)
later_delta now trigger h k e = ground arith

module _ (now : ℕ) (t : Timer) (early : IsEarly now) (running : t.id ≢ 0) (near : IsNear now t)
    (over : t.trigger ≤ now) where
  fired_less : due_of now (stop (advance t)) < due_of now t
  fired_less = elim (Bool-cases (is_periodic t)) [
    | inl e ↦
        let moved : (t.trigger + t.delay) % 0x100000000 ≡ t.trigger + t.delay =
          omega (arith, near running) in
        let less : periods now t.delay (t.trigger + t.delay) < periods now t.delay t.trigger =
          omega (arith, periods-step now t.delay t.trigger (near running).0 over) in
        rw e (rw e (rw (==_of_ne t.id 0 running) (rw e (rw moved less))))
    | inr e ↦ rw e (rw e (rw (==_of_ne t.id 0 running) (ground arith)))
  ]

  fired-IsNear : IsNear now (stop (advance t))
  fired-IsNear = elim (Bool-cases (is_periodic t)) [
    | inl e ↦ rw e (rw e (λ ne. ((near running).0, (near running).1, omega (arith, near running))))
    | inr e ↦ rw e (rw e (λ ne. absurd (ne refl)))
  ]

-- What the callback leaves behind: -1 and no running timer, or the time until the earliest trigger.
abbrev pub Ended : ℕ → Option Wait × Timers → Type 0
Ended now (none, s) = ⊥
Ended now (some no_timer, s) = All (λ t. t.id ≡ 0) s.timers
Ended now (some (later d), s) =
    (0 < d)
    × All (λ t. t.id ≢ 0 → now + d ≤ t.trigger) s.timers
    × ((i : ℕ) × ((timer_at s i).id ≢ 0) × ((timer_at s i).trigger ≡ now + d))

least-wait :
    (now d : ℕ) (u : Timer) (ts : List Timer)
    → now + d ≡ u.trigger
    → IsLeast u ts
    → All (λ t. t.id ≢ 0 → now + d ≤ t.trigger) ts
least-wait now d u [] e l = tt
least-wait now d u (t ∷ ts) e l = (λ ne. omega (arith, l.0 ne, e), least-wait now d u ts e l.1)

module _ (now : ℕ) (early : IsEarly now) where
  -- A round, for the rounds behind it.
  round-Ended :
      (n : ℕ) (s : Timers)
      → ((u : Timers)
          → due now u.timers < n
          → All (IsNear now) u.timers
          → Ended now (callback idle (replicate n now) u))
      → due now s.timers < suc n
      → All (IsNear now) s.timers
      → (found : Option (ℕ × Timer)) → Found 0 s.timers found
      → Ended now (elim found as (λ _. Option Wait × Timers) [
        | none ↦ (some no_timer, s)
        | some (i, t) ↦
            let rest = callback idle (replicate n now) (fire idle i t s) in
            if is_later t.trigger now then (some (later (delta t.trigger now)), s) else rest
      ])
  round-Ended n s ih less near none f = f
  round-Ended n s ih less near (some (i, t)) f =
      let place : i ≡ f.at.place = omega (arith, f.at.slot) in
      let inside : i < length s.timers = omega (arith, place, f.at.inside) in
      let there : timer_at s i ≡ t = rw place f.at.there in
      let near_t : IsNear now t = rw (← there) (All-get (IsNear now) s.timers i inside near) in
      elim (Bool-cases (is_later t.trigger now)) [
        | inl e ↦
            let d = later_delta now t.trigger early (near_t f.at.running).2 e in
            rw e (
              d.0,
              least-wait now _ t s.timers d.1 f.least,
              (i, rw there f.at.running, rw there (sym d.1)),
            )
        | inr e ↦
            let over = late_due now t.trigger early (near_t f.at.running).2 e in
            rw e (
              rw (fire-idle i t s inside) (
                ih (put_timer i (stop (advance t)) s)
                  (omega (
                    arith,
                    less,
                    due-set now s.timers i t (stop (advance t)) inside there,
                    fired_less now t early f.at.running near_t over,
                  ))
                  (All-set (IsNear now) s.timers i _
                    (fired-IsNear now t early f.at.running near_t over) near)))
      ]

  -- If the clock stands at `now` below 0x7fff0000, the application's functions change no timer, and
  -- each running timer has a delay between 1 and 65535 and a trigger at most `now` + 65535, then the
  -- callback comes to an end within any number of rounds above the number of periods that are due:
  -- for a periodic timer the triggers up to `now`, for another one its trigger if it has come. It
  -- answers -1 when no timer is left running, else the positive time until the earliest trigger of
  -- those that run, so that none is due.
  pub callback_ends :
      (n : ℕ) (s : Timers)
      → due now s.timers < n
      → All (IsNear now) s.timers
      → Ended now (callback idle (replicate n now) s)
  unfolding callback
  callback_ends zero s less near = absurd (omega arith)
  callback_ends (suc n) s less near =
      round-Ended n s (callback_ends n) less near (earliest 0 s.timers) (earliest-Found 0 s.timers)
