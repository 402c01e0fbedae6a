-- ===== src/StateBuffer/Lookup.antt =====
-- What LookupStBuf of qemu-0/hw/3dfx/gllstbuf.c returns for a handle and a size.
use qemu_3dfx.Common.{
  ℕ, ◌+◌, ◌≡◌, refl, sym, ap, ◌∙◌, true, false, List, [], ◌∷◌, arith, length, ◌==◌, ◌&&◌,
  if◌then◌else◌, Bool-cases, inl, inr, Option, none, some,
}
use qemu_3dfx.StateBuffer.{StBuf, is_for, lookup_st_buf, free_st_buf}

-- The abstract view: the address that a handle and a size stand for.
abbrev pub view : List StBuf → ℕ → ℕ → Option ℕ
view [] st_size handle = none
view (p ∷ ps) st_size handle =
    let rest = view ps st_size handle in if is_for st_size handle p then some p.st else rest

abbrev pub addresses : List StBuf → List ℕ
addresses [] = []
addresses (p ∷ ps) = p.st ∷ addresses ps

-- The map with one more key, unless it has it.
abbrev pub or_fresh : Option ℕ → ℕ → ℕ
or_fresh none fresh = fresh
or_fresh (some st) fresh = st

is_for_keys :
    (s h s' h' : ℕ) (p : StBuf) → is_for s h p ≡ true → is_for s' h' p ≡ (h == h') && (s == s')
is_for_keys s h s' h' p e = ground arith

other_keys :
    (s h s' h' : ℕ) (p : StBuf)
    → is_for s h p ≡ false
    → is_for s' h' p ≡ true
    → (h == h') && (s == s') ≡ false
other_keys s h s' h' p e f = ground arith

-- LookupStBuf returns the buffer of the handle and the size, or the fresh one if there is none. From
-- then on the handle and the size stand for what was returned, and any other handle or size for
-- what it stood for before.
pub lookup-view :
    (ps : List StBuf) (s h fresh s' h' : ℕ)
    → ((lookup_st_buf ps s h fresh).0 ≡ or_fresh (view ps s h) fresh)
      × (view (lookup_st_buf ps s h fresh).1 s' h'
          ≡ (if (h == h') && (s == s') then some (lookup_st_buf ps s h fresh).0 else view ps s' h'))
unfolding lookup_st_buf
lookup-view [] s h fresh s' h' = (refl, refl)
lookup-view (p ∷ ps) s h fresh s' h' =
    let tail = lookup-view ps s h fresh s' h' in
    elim (Bool-cases (is_for s h p)) [
      | inl e ↦ elim (Bool-cases (is_for s' h' p)) [
        | inl f ↦ rw (e, f, sym (is_for_keys s h s' h' p e) ∙ f) (refl, refl)
        | inr f ↦ rw (e, f, sym (is_for_keys s h s' h' p e) ∙ f) (refl, refl)
      ]
      | inr e ↦ elim (Bool-cases (is_for s' h' p)) [
        | inl f ↦ rw (e, f, other_keys s h s' h' p e f) (tail.0, refl)
        | inr f ↦ rw (e, f) tail
      ]
    ]

-- FreeStBuf frees the address of each buffer of the list once, in the list's order, and returns how
-- many there are beyond the count that it starts from.
pub free-all : (ps : List StBuf) (cnt : ℕ) → free_st_buf ps cnt ≡ (cnt + length ps, addresses ps)
unfolding free_st_buf
free-all [] cnt = ap (λ n. (n, [])) (omega arith)
free-all (p ∷ ps) cnt =
    rw (free-all ps (cnt + 1)) (ap (λ n. (n, p.st ∷ addresses ps)) (omega arith))
