-- ===== src/VertexLayout/Size.antt =====
-- The size of a vertex is the least one that holds its parameters.
use qemu_3dfx.Common.{
  ℕ, zero, suc, ◌+◌, ◌≤◌, ◌<◌, ◌≡◌, ◌≢◌, ◌⊎◌, inl, inr, refl, ap, ◌∙◌, ◌&&◌, not, List, [], ◌∷◌,
  ltb, ◌==◌, if◌then◌else◌, arith, get_or, length, Bool-cases,
}
use qemu_3dfx.VertexLayout.{slen, size_from, size_vertex3x}

-- From `ret` on, the least size that is enough for the parameters.
record IsLeastFrom (ret : ℕ) (vs ls : List ℕ) (size : ℕ) : Type 0 where
  above : ret ≤ size
  covers :
      (i : ℕ)
      → i < length vs
      → i < length ls
      → get_or vs i 0 ≢ 0
      → get_or vs i 0 + get_or ls i 0 ≤ size
  reached : (size ≡ ret) ⊎ ((i : ℕ) × (get_or vs i 0 ≢ 0) × (size ≡ get_or vs i 0 + get_or ls i 0))

-- `ret` behind a parameter.
abbrev more : ℕ → ℕ → ℕ → ℕ
more ret v l = if not (v == 0) && ltb ret (v + l) then v + l else ret

step-covers :
    (ret v l : ℕ) (vs ls : List ℕ) (size : ℕ)
    → IsLeastFrom (more ret v l) vs ls size
    → (i : ℕ) → i < length (v ∷ vs)
    → i < length (l ∷ ls)
    → get_or (v ∷ vs) i 0 ≢ 0
    → get_or (v ∷ vs) i 0 + get_or (l ∷ ls) i 0 ≤ size
step-covers ret v l vs ls size f zero h k ne =
    let enough : v + l ≤ more ret v l = ground arith in omega (arith, enough, f.above)
step-covers ret v l vs ls size f (suc i) h k ne = f.covers i (omega arith) (omega arith) ne

step-reached :
    (ret v l : ℕ) (vs ls : List ℕ) (size : ℕ)
    → IsLeastFrom (more ret v l) vs ls size
    → (size ≡ ret)
      ⊎ ((i : ℕ) × (get_or (v ∷ vs) i 0 ≢ 0) × (size ≡ get_or (v ∷ vs) i 0 + get_or (l ∷ ls) i 0))
step-reached ret v l vs ls size f = elim f.reached [
  | inr (i, ne, e) ↦ inr (suc i, ne, e)
  | inl e ↦ elim (Bool-cases (not (v == 0) && ltb ret (v + l))) [
    | inl t ↦ inr (0, ground (arith, t), e ∙ ap (λ b. if b then v + l else ret) t)
    | inr t ↦ inl (e ∙ ap (λ b. if b then v + l else ret) t)
  ]
]

size_from-IsLeastFrom : (ret : ℕ) (vs ls : List ℕ) → IsLeastFrom ret vs ls (size_from ret vs ls)
unfolding size_from
size_from-IsLeastFrom ret [] ls = record {
  above = omega arith;
  covers = λ i h k ne. absurd (omega arith);
  reached = inl refl;
}
size_from-IsLeastFrom ret (v ∷ vs) [] = record {
  above = omega arith;
  covers = λ i h k ne. absurd (omega arith);
  reached = inl refl;
}
size_from-IsLeastFrom ret (v ∷ vs) (l ∷ ls) =
    let f = size_from-IsLeastFrom (more ret v l) vs ls in
    record {
      above = above_more ret v l _ f.above;
      covers = step-covers ret v l vs ls _ f;
      reached = step-reached ret v l vs ls _ f;
    }
  where
    above_more : (ret v l size : ℕ) → more ret v l ≤ size → ret ≤ size
    above_more ret v l size h = ground arith

-- The size that is sent for a vertex is enough for the coordinates and for every parameter with an
-- offset, up to its end, and no more than one of them needs.
pub size_vertex3x_least :
    (vlut : List ℕ)
    → length vlut ≡ 12
    → (8 ≤ size_vertex3x vlut)
      × ((i : ℕ)
          → i < 12
          → get_or vlut i 0 ≢ 0
          → get_or vlut i 0 + get_or slen i 0 ≤ size_vertex3x vlut)
      × ((size_vertex3x vlut ≡ 8)
          ⊎ ((i : ℕ) × (get_or vlut i 0 ≢ 0)
              × (size_vertex3x vlut ≡ get_or vlut i 0 + get_or slen i 0)))
unfolding size_vertex3x
size_vertex3x_least vlut twelve =
    let f = size_from-IsLeastFrom 8 vlut slen in
    (f.above, λ i h ne. f.covers i (omega (arith, twelve)) h ne, f.reached)
