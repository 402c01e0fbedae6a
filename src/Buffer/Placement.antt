-- ===== src/Buffer/Placement.antt =====
-- Where MapBufObjGpa puts a buffer object in the guest's window: mglmapbo.c, and the page range that
-- MGLUpdateGuestBufo of mglcntx_linux.c then maps for it.
use native.Mathlib.Nat.{div-add-mod, mod-lt, add-mul-mod_self_left, le-div_iff_mul-le, mod-le}
use qemu_3dfx.Common.{
  ℕ, ◌+◌, ◌-◌, ◌*◌, ◌/◌, ◌%◌, ◌^◌, ◌≤◌, ◌<◌, ◌≡◌, refl, ap, ◌∙◌, ◌≢◌, ◌⊎◌, inl, inr, List, [], ◌∷◌,
  arith, ltb, ◌==◌, if◌then◌else◌, length, All, Bool-cases,
}
use qemu_3dfx.Buffer.{
  MapBufo, mbufo_size, alignbo, page_down, curr_sz, bufo_sz, curr_end, scan, place, map_buf_obj_gpa,
}

-- The elements in front of the one with the index.
abbrev pub before : ℕ → List MapBufo → List MapBufo
before i [] = []
before i (c ∷ next) = if i == c.idx then [] else c ∷ before i next

mul_div_mono : (p a b : ℕ) → a ≤ b → p * a ≤ p * b
mul_div_mono p a b h = grind arith

page_down_lem : (p x : ℕ) → page_down p x ≡ p * (x / p)
page_down_lem p x = omega (arith, div-add-mod x p)

module _ (psz : ℕ) where
  -- What stands at or above a rounded address stays so when it is rounded itself.
  page_down-le : (x y : ℕ) → 0 < psz → page_down psz x ≤ y → page_down psz x ≤ page_down psz y
  page_down-le x y pos h = omega (
    arith,
    page_down_lem psz x,
    page_down_lem psz y,
    mul_div_mono psz (x / psz) (y / psz)
        ((le-div_iff_mul-le pos).1 (omega (arith, page_down_lem psz x))),
  )

  page_down_whole : (x n : ℕ) → n % psz ≡ 0 → page_down psz (x + n) ≡ page_down psz x + n
  page_down_whole x n h = omega (
    arith,
    div-add-mod n psz,
    add-mul-mod_self_left x psz (n / psz),
    ap (λ (t : ℕ). (x + t) % psz) (div_whole n h),
    mod-le x psz,
  )
    where
      div_whole : (n : ℕ) → n % psz ≡ 0 → n ≡ psz * (n / psz)
      div_whole n h = omega (arith, div-add-mod n psz)

alignbo-ge : (x : ℕ) → x + 16 < 2 ^ 32 → (x ≤ alignbo x) × (alignbo x < x + 16)
alignbo-ge x h = ground arith

All-none {ℓ κ} : {A : Type ℓ} (P : A → Type κ) (l : List A) → length l ≡ 0 → All P l
All-none P [] h = tt
All-none P (x ∷ l) h = absurd (omega arith)

-- What the loop has found: bounds for the rounded start and end of every element in front.
module _ (psz : ℕ) where
  record Scanned (lo hi ret : ℕ) (l : List MapBufo) (out : ℕ × ℕ × ℕ) : Type 0 where
    below : out.0 ≤ lo
    above : hi ≤ out.1
    count : out.2 ≡ ret + length l
    bounds : All (λ c. (out.0 ≤ page_down psz c.gpa) × (curr_end psz c ≤ out.1)) l

  scan-Scanned :
      (i lo hi ret : ℕ) (l : List MapBufo) → Scanned lo hi ret (before i l) (scan psz i lo hi ret l)
  unfolding scan
  scan-Scanned i lo hi ret [] = record {
    below = omega arith;
    above = omega arith;
    count = omega arith;
    bounds = tt;
  }
  scan-Scanned i lo hi ret (c ∷ next) = elim (Bool-cases (i == c.idx)) [
    | inl e ↦
        rw e (record { below = omega arith; above = omega arith; count = omega arith; bounds = tt })
    | inr e ↦ rw e (
        let ih =
          scan-Scanned i (if ltb (page_down psz c.gpa) lo then page_down psz c.gpa else lo)
            (if ltb hi (curr_end psz c) then curr_end psz c else hi) (ret + 1) next in
        record {
          below = ground (arith, ih.below);
          above = ground (arith, ih.above);
          count = ground (arith, ih.count);
          bounds = (ground (arith, ih.below, ih.above), ih.bounds);
        })
  ]

  -- The sizes of the object do not wrap in 32 bits.
  abbrev pub Fits : MapBufo → Type 0
  Fits b = b.mapsz + psz + 16 < 2 ^ 32

  -- The pages that MGLUpdateGuestBufo maps: from the rounded address, `mapsz` and the offset of
  -- `hva` in its page long.
  abbrev pub mapped_end : MapBufo → ℕ
  mapped_end b = page_down psz b.gpa + (b.mapsz + b.hva % psz)

  abbrev pub Disjoint : MapBufo → MapBufo → Type 0
  Disjoint b c = (mapped_end b ≤ page_down psz c.gpa) ⊎ (mapped_end c ≤ page_down psz b.gpa)

  -- The object fits, and its pages end where a page ends.
  abbrev pub IsWhole : MapBufo → Type 0
  IsWhole c = Fits c × (c.gpa < mbufo_size) × ((c.mapsz + c.hva % psz) % psz ≡ 0)

  place_sides :
      (lo hi nat sz : ℕ)
      → nat < mbufo_size
      → sz < 2 ^ 33
      → place lo hi nat sz ≢ 0
      → (place lo hi nat sz + sz ≤ lo) ⊎ (hi ≤ place lo hi nat sz)
  unfolding place
  place_sides lo hi nat sz n s h = ground arith

  bufo_sz-ge :
      (b : MapBufo)
      → 0 < psz
      → Fits b
      → (b.mapsz + b.hva % psz ≤ bufo_sz psz b) × (bufo_sz psz b < 2 ^ 33)
  bufo_sz-ge b pos f =
      let r : b.hva % psz < psz = mod-lt b.hva pos in
      let a : (b.mapsz ≤ alignbo b.mapsz) × (alignbo b.mapsz < b.mapsz + 16) =
        alignbo-ge b.mapsz (omega arith) in
      within (alignbo b.mapsz) (b.hva % psz) (omega arith) (omega arith)
    where
      within :
          (x r : ℕ)
          → b.mapsz ≤ x
          → x + r < 2 ^ 32
          → (b.mapsz + r ≤ (x + r % 2 ^ 32) % 2 ^ 32) × ((x + r % 2 ^ 32) % 2 ^ 32 < 2 ^ 33)
      within x r h k = omega arith

  curr_end_whole : (c : MapBufo) → 0 < psz → IsWhole c → curr_end psz c ≡ mapped_end c
  curr_end_whole c pos w =
      let r : c.hva % psz < psz = mod-lt c.hva pos in
      ap (page_down psz) (no_wrap c.gpa c.mapsz (c.hva % psz) (omega arith) (omega arith))
      ∙ page_down_whole psz c.gpa (c.mapsz + c.hva % psz) w.2
    where
      no_wrap :
          (g m r : ℕ)
          → g < mbufo_size
          → m + r < 2 ^ 32
          → (g + (m + r % 2 ^ 32) % 2 ^ 32) % 2 ^ 64 ≡ g + (m + r)
      no_wrap g m r h k = omega arith

  -- One element in front, from the bounds that the loop found.
  Disjoint-one :
      (b c : MapBufo) (lo hi : ℕ)
      → 0 < psz
      → Fits b
      → IsWhole c
      → (lo ≤ page_down psz c.gpa) × (curr_end psz c ≤ hi)
      → (b.gpa + bufo_sz psz b ≤ lo) ⊎ (hi ≤ b.gpa)
      → Disjoint b c
  Disjoint-one b c lo hi pos f w bd (inl h) = inl (omega (arith, bufo_sz-ge b pos f, bd.0))
  Disjoint-one b c lo hi pos f w bd (inr h) =
      inr (rw (← curr_end_whole c pos w) (page_down-le psz _ b.gpa pos (omega (arith, bd.1))))

  Disjoint-All :
      (b : MapBufo) (lo hi : ℕ) (l : List MapBufo)
      → 0 < psz
      → Fits b
      → All IsWhole l
      → All (λ c. (lo ≤ page_down psz c.gpa) × (curr_end psz c ≤ hi)) l
      → (b.gpa + bufo_sz psz b ≤ lo) ⊎ (hi ≤ b.gpa)
      → All (Disjoint b) l
  Disjoint-All b lo hi [] pos f w bd s = tt
  Disjoint-All b lo hi (c ∷ l) pos f w bd s =
      (Disjoint-one b c lo hi pos f w.0 bd.0 s, Disjoint-All b lo hi l pos f w.1 bd.1 s)

  -- An object whose sizes do not wrap is mapped to pages that none of the objects in front of it in
  -- the list uses, unless it is given the address 0, if the pages of each of those end at a page
  -- boundary and lie in the window.
  pub map-Disjoint :
      (b : MapBufo) (l : List MapBufo)
      → 0 < psz
      → Fits b
      → All IsWhole (before b.idx l)
      → (map_buf_obj_gpa psz b l).1.gpa ≢ 0
      → All (Disjoint (map_buf_obj_gpa psz b l).1) (before b.idx l)
  unfolding map_buf_obj_gpa
  map-Disjoint b l pos f w h =
      let sc = scan-Scanned b.idx (mbufo_size - 1) 0 0 l in
      let out = scan psz b.idx (mbufo_size - 1) 0 0 l in
      elim (Bool-cases (out.2 == 0)) [
        | inl e ↦ All-none _ (before b.idx l) (ground (arith, sc.count))
        | inr e ↦ rw e (
            Disjoint-All (record b { gpa = place out.0 out.1 (b.hva % mbufo_size) (bufo_sz psz b) })
              out.0 out.1 (before b.idx l) pos f w sc.bounds
              (place_sides out.0 out.1 (b.hva % mbufo_size) (bufo_sz psz b) (omega arith)
                (bufo_sz-ge b pos f).1 (rw e at h)))
      ]

  abbrev pub InWindow : MapBufo → Type 0
  InWindow c = c.gpa < mbufo_size

  scan_hi :
      (i lo hi ret : ℕ) (l : List MapBufo)
      → All InWindow (before i l)
      → hi < 2 ^ 33
      → (scan psz i lo hi ret l).1 < 2 ^ 33
  unfolding scan
  scan_hi i lo hi ret [] w h = h
  scan_hi i lo hi ret (c ∷ next) w h = elim (Bool-cases (i == c.idx)) [
    | inl e ↦ rw e h
    | inr e ↦ rw e (
        scan_hi i (if ltb (page_down psz c.gpa) lo then page_down psz c.gpa else lo)
          (if ltb hi (curr_end psz c) then curr_end psz c else hi) (ret + 1) next (rw e at w).1
          (ground (arith, (rw e at w).0)))
  ]

  place_window :
      (lo hi nat sz : ℕ)
      → lo < mbufo_size
      → hi < 2 ^ 33
      → nat < mbufo_size
      → sz < 2 ^ 33
      → let g = place lo hi nat sz in
        (g < mbufo_size) × ((g ≡ nat) ⊎ ((g + sz < mbufo_size) ⊎ (g ≡ 0)))
  unfolding place
  place_window lo hi nat sz a b c d = ground arith

  -- The count is that of the objects in front, and the address lies in the window, if theirs do. It
  -- is the one that the host address suggests, or else the object ends inside the window or got the
  -- address 0.
  pub map_window :
      (b : MapBufo) (l : List MapBufo)
      → 0 < psz
      → Fits b
      → All InWindow (before b.idx l)
      → let (lvl, b') = map_buf_obj_gpa psz b l in
        (lvl ≡ length (before b.idx l))
        × (b'.gpa < mbufo_size)
        × ((b'.gpa ≡ b.hva % mbufo_size) ⊎ ((b'.gpa + bufo_sz psz b' < mbufo_size) ⊎ (b'.gpa ≡ 0)))
  unfolding map_buf_obj_gpa
  map_window b l pos f w =
      let sc = scan-Scanned b.idx (mbufo_size - 1) 0 0 l in
      let out = scan psz b.idx (mbufo_size - 1) 0 0 l in
      elim (Bool-cases (out.2 == 0)) [
        | inl e ↦ rw e (omega (arith, sc.count), omega arith, inl refl)
        | inr e ↦ rw e (
            let placed =
              place_window out.0 out.1 (b.hva % mbufo_size) (bufo_sz psz b)
                (omega (arith, sc.below)) (scan_hi b.idx (mbufo_size - 1) 0 0 l w (omega arith))
                (omega arith) (bufo_sz-ge b pos f).1 in
            (omega (arith, sc.count), placed.0, placed.1))
      ]

  scan_none :
      (i : ℕ) (l : List MapBufo) (lo hi ret : ℕ)
      → before i l ≡ []
      → scan psz i lo hi ret l ≡ (lo, hi, ret)
  unfolding scan
  scan_none i [] lo hi ret e = refl
  scan_none i (x ∷ next) lo hi ret e = ground arith

  scan_one :
      (i : ℕ) (c : MapBufo) (l : List MapBufo) (lo hi ret : ℕ)
      → before i l ≡ c ∷ []
      → scan psz i lo hi ret l ≡ (
        if ltb (page_down psz c.gpa) lo then page_down psz c.gpa else lo,
        if ltb hi (curr_end psz c) then curr_end psz c else hi,
        ret + 1,
      )
  unfolding scan
  scan_one i c [] lo hi ret e = cc
  scan_one i c (x ∷ next) lo hi ret e = ground (
    arith,
    scan_none i next (if ltb (page_down psz x.gpa) lo then page_down psz x.gpa else lo)
        (if ltb hi (curr_end psz x) then curr_end psz x else hi) (ret + 1),
  )

  place_above :
      (start end nat sz : ℕ)
      → nat < mbufo_size
      → start ≤ sz
      → nat < end
      → end + sz < mbufo_size
      → place
          (if ltb start (mbufo_size - 1) then start else mbufo_size - 1)
          (if ltb 0 end then end else 0)
          nat
          sz
        ≡ end
  unfolding place
  place_above start end nat sz n a b c = ground arith

  curr_sz-lt : (c : MapBufo) → curr_sz psz c < 2 ^ 32
  curr_sz-lt c = omega arith

  start-le-curr_end :
      (c : MapBufo) → 0 < psz → c.gpa < mbufo_size → page_down psz c.gpa ≤ curr_end psz c
  start-le-curr_end c pos g =
      page_down-le psz c.gpa ((c.gpa + curr_sz psz c) % 2 ^ 64) pos
        (above c.gpa (curr_sz psz c) (c.gpa % psz) g (curr_sz-lt c))
    where
      above : (a s r : ℕ) → a < mbufo_size → s < 2 ^ 32 → a - r ≤ (a + s) % 2 ^ 64
      above a s r h k = omega arith

  overlaps_at :
      (b c : MapBufo)
      → 0 < psz
      → 0 < b.mapsz
      → c.gpa < mbufo_size
      → curr_end psz c < mapped_end c
      → b.gpa ≡ curr_end psz c
      → ¬ Disjoint b c
  overlaps_at b c pos m g part e (inl d) =
      let r : page_down psz c.gpa ≤ page_down psz b.gpa =
        page_down-le psz c.gpa b.gpa pos (rw e (start-le-curr_end c pos g)) in
      absurd (apart (page_down psz c.gpa) (page_down psz b.gpa) (b.hva % psz) r d)
    where
      apart : (x y r : ℕ) → x ≤ y → y + (b.mapsz + r) ≤ x → ⊥
      apart x y r h k = omega arith
  overlaps_at b c pos m g part e (inr d) =
      absurd
        (apart (mapped_end c) (page_down psz b.gpa) b.gpa (curr_end psz c) d (omega arith) e part)
    where
      apart : (x y z w : ℕ) → x ≤ y → y ≤ z → z ≡ w → w < x → ⊥
      apart x y z w h k e l = omega arith

  -- With one object in front, no room below it, and its rounded end before the end of its pages, an
  -- object whose suggested address lies under that rounded end and that would fit from there on is
  -- mapped over the last page of the first.
  pub map_overlaps :
      (b c : MapBufo) (l : List MapBufo)
      → before b.idx l ≡ c ∷ []
      → 0 < psz
      → Fits b
      → 0 < b.mapsz
      → c.gpa < mbufo_size
      → page_down psz c.gpa ≤ bufo_sz psz b
      → b.hva % mbufo_size < curr_end psz c
      → curr_end psz c < mapped_end c
      → curr_end psz c + bufo_sz psz b < mbufo_size
      → ¬ Disjoint (map_buf_obj_gpa psz b l).1 c
  unfolding map_buf_obj_gpa place
  map_overlaps b c l e pos f m g lo nat part hi =
      overlaps_at (map_buf_obj_gpa psz b l).1 c pos m g part (
        rw (scan_one b.idx c l (mbufo_size - 1) 0 0 e) (
          place_above (page_down psz c.gpa) (curr_end psz c) (b.hva % mbufo_size) (bufo_sz psz b)
            (omega arith) lo nat hi))
