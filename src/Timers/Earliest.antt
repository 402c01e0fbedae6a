-- ===== src/Timers/Earliest.antt =====
-- The two loops of TIME_MMSysTimeCallback find a timer with the earliest trigger.
use qemu_3dfx.Common.{
  ℕ, suc, ◌+◌, ◌<◌, ◌≤◌, ◌≡◌, ◌≢◌, ◌⊎◌, inl, inr, refl, Option, none, some, List, [], ◌∷◌, ltb,
  ◌==◌, Bool-cases, arith, get_or, length, All,
}
use qemu_3dfx.Timers.{Timer, free_timer, earliest_from, earliest}

-- No running timer's trigger is earlier.
abbrev pub IsLeast : Timer → List Timer → Type 0
IsLeast u = All (λ t. t.id ≢ 0 → u.trigger ≤ t.trigger)

IsLeast-of_le :
    (u v : Timer) (ts : List Timer) → u.trigger ≤ v.trigger → IsLeast v ts → IsLeast u ts
IsLeast-of_le u v [] h l = tt
IsLeast-of_le u v (t ∷ ts) h l = (λ ne. omega (arith, l.0 ne), IsLeast-of_le u v ts h l.1)

-- A running timer of the list, at its place behind `i`.
pub record IsAt (i : ℕ) (ts : List Timer) (r : ℕ × Timer) : Type 0 where
  pub place : ℕ
  pub slot : r.0 ≡ i + place
  pub inside : place < length ts
  pub there : get_or ts place free_timer ≡ r.1
  pub running : r.1.id ≢ 0

next-IsAt :
    (i : ℕ) (t : Timer) (ts : List Timer) (r : ℕ × Timer) → IsAt (i + 1) ts r → IsAt i (t ∷ ts) r
next-IsAt i t ts r a = record {
  place = suc a.place;
  slot = omega (arith, a.slot);
  inside = omega (arith, a.inside);
  there = a.there;
  running = a.running;
}

here-IsAt : (i : ℕ) (t : Timer) (ts : List Timer) → t.id ≢ 0 → IsAt i (t ∷ ts) (i, t)
here-IsAt i t ts ne = record {
  place = 0;
  slot = omega arith;
  inside = omega arith;
  there = refl;
  running = ne;
}

record From (k : ℕ) (best : Timer) (i : ℕ) (ts : List Timer) (r : ℕ × Timer) : Type 0 where
  at : (r ≡ (k, best)) ⊎ IsAt i ts r
  bound : r.1.trigger ≤ best.trigger
  least : IsLeast r.1 ts

skip-From :
    (k : ℕ) (best : Timer) (i : ℕ) (t : Timer) (ts : List Timer) (r : ℕ × Timer)
    → (t.id ≢ 0 → best.trigger ≤ t.trigger)
    → From k best (i + 1) ts r
    → From k best i (t ∷ ts) r
skip-From k best i t ts r h f = record {
  at = elim f.at [ inl e ↦ inl e | inr a ↦ inr (next-IsAt i t ts r a) ];
  bound = f.bound;
  least = (λ ne. omega (arith, h ne, f.bound), f.least);
}

take-IsAt :
    (i : ℕ) (t : Timer) (ts : List Timer) (r : ℕ × Timer)
    → t.id ≢ 0
    → (r ≡ (i, t)) ⊎ IsAt (i + 1) ts r
    → IsAt i (t ∷ ts) r
take-IsAt i t ts r ne (inl e) = rw e (here-IsAt i t ts ne)
take-IsAt i t ts r ne (inr a) = next-IsAt i t ts r a

take-From :
    (k : ℕ) (best : Timer) (i : ℕ) (t : Timer) (ts : List Timer) (r : ℕ × Timer)
    → t.id ≢ 0
    → t.trigger < best.trigger
    → From i t (i + 1) ts r
    → From k best i (t ∷ ts) r
take-From k best i t ts r ne h f = record {
  at = inr (take-IsAt i t ts r ne f.at);
  bound = omega (arith, f.bound);
  least = (λ _. f.bound, f.least);
}

earliest_from-From :
    (k : ℕ) (best : Timer) (i : ℕ) (ts : List Timer) → From k best i ts (earliest_from k best i ts)
unfolding earliest_from
earliest_from-From k best i [] = record { at = inl refl; bound = omega arith; least = tt }
earliest_from-From k best i (t ∷ ts) = elim (Bool-cases (t.id == 0)) [
  | inl e ↦ rw e (skip-From k best i t ts _ (ground arith) (earliest_from-From k best (i + 1) ts))
  | inr e ↦ rw e (elim (Bool-cases (ltb t.trigger best.trigger)) [
    | inl l ↦ rw l (
        take-From k best i t ts _ (ground arith) (ground arith) (earliest_from-From i t (i + 1) ts))
    | inr l ↦ rw l (skip-From k best i t ts _ (ground arith) (earliest_from-From k best (i + 1) ts))
  ])
]

-- What the loops find: nothing when no timer runs, else one with the earliest trigger.
pub record IsEarliest (i : ℕ) (ts : List Timer) (r : ℕ × Timer) : Type 0 where
  pub at : IsAt i ts r
  pub least : IsLeast r.1 ts

abbrev pub Found : ℕ → List Timer → Option (ℕ × Timer) → Type 0
Found i ts none = All (λ t. t.id ≡ 0) ts
Found i ts (some r) = IsEarliest i ts r

Found-next :
    (i : ℕ) (t : Timer) (ts : List Timer) (r : Option (ℕ × Timer))
    → t.id ≡ 0
    → Found (i + 1) ts r
    → Found i (t ∷ ts) r
Found-next i t ts none e f = (e, f)
Found-next i t ts (some r) e f = record {
  at = next-IsAt i t ts r f.at;
  least = (λ ne. absurd (ne e), f.least);
}

pub earliest-Found : (i : ℕ) (ts : List Timer) → Found i ts (earliest i ts)
unfolding earliest
earliest-Found i [] = tt
earliest-Found i (t ∷ ts) = elim (Bool-cases (t.id == 0)) [
  | inl e ↦ rw e (Found-next i t ts _ (ground arith) (earliest-Found (i + 1) ts))
  | inr e ↦
      let f = earliest_from-From i t (i + 1) ts in
      rw e (record { at = take-IsAt i t ts _ (ground arith) f.at; least = (λ _. f.bound, f.least) })
]
