-- ===== src/Sync/Handles.antt =====
-- What a handle stands for: mglmapbo.c, AddSyncObj, LookupSyncObj and DeleteSyncObj together.
use mathlib.Core.Path.{subst}
use qemu_3dfx.Common.{
  ℕ, ◌%◌, ◌^◌, ◌≡◌, refl, ◌≢◌, inl, inr, List, [], ◌∷◌, arith, ◌==◌, All, ==_refl, ==_of_ne,
  Bool-cases, ap, ◌∙◌, if◌then◌else◌,
}
use qemu_3dfx.Sync.{
  SyncObj, int32_max, new_sync_obj, add_walk, add_sync_obj, lookup_sync_obj, delete_walk,
  delete_sync_obj,
}

-- No element of the list holds the pointer; no element has the handle.
abbrev pub NoSync : ℕ → List SyncObj → Type 0
NoSync s = All (λ p. p.sync ≢ s)

abbrev pub NoHandle : ℕ → List SyncObj → Type 0
NoHandle g = All (λ p. p.g_sync ≢ g)

module _ (crc32_u64 : ℕ → ℕ → ℕ) where
  abbrev pub handle : ℕ → ℕ
  handle s = crc32_u64 0 s % 2 ^ 32

  -- The pointers are distinct, none is null, and each handle is its pointer's sum.
  abbrev pub IsTable : List SyncObj → Type 0
  IsTable [] = Unit
  IsTable (p ∷ next) = (p.sync ≢ 0) × (p.g_sync ≡ handle p.sync) × NoSync p.sync next × IsTable next

  -- No other pointer of the list has the same sum.
  abbrev pub NoCollision : ℕ → List SyncObj → Type 0
  NoCollision s = All (λ p. handle p.sync ≡ handle s → p.sync ≡ s)

  NoSync-add_walk :
      (s t : ℕ) (l : List SyncObj) → s ≢ t → NoSync t l → NoSync t (add_walk crc32_u64 s l).1
  unfolding add_walk new_sync_obj
  NoSync-add_walk s t [] ne n = (ne, tt)
  NoSync-add_walk s t (p ∷ next) ne n = ground (arith, NoSync-add_walk s t next ne n.1)

  add_walk-IsTable :
      (s : ℕ) (l : List SyncObj) → s ≢ 0 → IsTable l → IsTable (add_walk crc32_u64 s l).1
  unfolding add_walk new_sync_obj
  add_walk-IsTable s [] h v = (h, refl, tt, tt)
  add_walk-IsTable s (p ∷ next) h v = elim (Bool-cases (p.sync == s)) [
    | inl e ↦ rw e v
    | inr e ↦
        rw e (
          v.0,
          v.1,
          NoSync-add_walk s p.sync next (ground arith) v.2,
          add_walk-IsTable s next h v.3,
        )
  ]

  add_walk-handle : (s : ℕ) (l : List SyncObj) → IsTable l → (add_walk crc32_u64 s l).0 ≡ handle s
  unfolding add_walk new_sync_obj
  add_walk-handle s [] v = refl
  add_walk-handle s (p ∷ next) v = ground (arith, add_walk-handle s next v.3, v.1)

  lookup-add_walk :
      (s : ℕ) (l : List SyncObj)
      → IsTable l
      → NoCollision s l
      → lookup_sync_obj (handle s) (add_walk crc32_u64 s l).1 ≡ s
  unfolding add_walk new_sync_obj lookup_sync_obj
  lookup-add_walk s [] v c = rw (==_refl (handle s))
  lookup-add_walk s (p ∷ next) v c = ground (arith, lookup-add_walk s next v.3 c.1, v.1, c.0)

  -- An addition leaves the meaning of every other handle.
  lookup_other-add_walk :
      (s g : ℕ) (l : List SyncObj)
      → g ≢ handle s
      → lookup_sync_obj g (add_walk crc32_u64 s l).1 ≡ lookup_sync_obj g l
  unfolding add_walk new_sync_obj lookup_sync_obj
  lookup_other-add_walk s g [] ne = ground arith
  lookup_other-add_walk s g (p ∷ next) ne = ground (arith, lookup_other-add_walk s g next ne)

  -- Every handle, the new one included.
  lookup_any-add_walk :
      (s g : ℕ) (l : List SyncObj)
      → IsTable l
      → NoCollision s l
      → lookup_sync_obj g (add_walk crc32_u64 s l).1
        ≡ (if g == handle s then s else lookup_sync_obj g l)
  lookup_any-add_walk s g l v c = elim (Bool-cases (g == handle s)) [
    | inl e ↦
        let same : g ≡ handle s = ground arith in
        rw e (ap (λ t. lookup_sync_obj t (add_walk crc32_u64 s l).1) same ∙ lookup-add_walk s l v c)
    | inr e ↦ rw e (lookup_other-add_walk s g l (ground arith))
  ]

  NoSync-delete_walk : (s t : ℕ) (l : List SyncObj) → NoSync t l → NoSync t (delete_walk s l)
  unfolding delete_walk
  NoSync-delete_walk s t [] n = tt
  NoSync-delete_walk s t (p ∷ next) n = ground (arith, NoSync-delete_walk s t next n.1)

  delete_walk-IsTable : (s : ℕ) (l : List SyncObj) → IsTable l → IsTable (delete_walk s l)
  unfolding delete_walk
  delete_walk-IsTable s [] v = tt
  delete_walk-IsTable s (p ∷ next) v =
      ground (arith, delete_walk-IsTable s next v.3, NoSync-delete_walk s p.sync next v.2)

  lookup_none :
      (s : ℕ) (l : List SyncObj)
      → IsTable l
      → NoSync s l
      → NoCollision s l
      → lookup_sync_obj (handle s) l ≡ int32_max
  unfolding lookup_sync_obj
  lookup_none s [] v n c = refl
  lookup_none s (p ∷ next) v n c = ground (arith, lookup_none s next v.3 n.1 c.1, v.1, c.0, n.0)

  lookup-delete_walk :
      (s : ℕ) (l : List SyncObj)
      → IsTable l
      → NoCollision s l
      → lookup_sync_obj (handle s) (delete_walk s l) ≡ int32_max
  unfolding lookup_sync_obj delete_walk
  lookup-delete_walk s [] v c = refl
  lookup-delete_walk s (p ∷ next) v c = elim (Bool-cases (p.sync == s)) [
    | inl e ↦ rw e (lookup_none s next v.3 (subst (λ t. NoSync t next) (ground arith) v.2) c.1)
    | inr e ↦ ground (arith, lookup-delete_walk s next v.3 c.1, v.1, c.0)
  ]

  lookup_old-delete_walk :
      (s g : ℕ) (l : List SyncObj)
      → IsTable l
      → g ≢ handle s
      → lookup_sync_obj g (delete_walk s l) ≡ lookup_sync_obj g l
  unfolding lookup_sync_obj delete_walk
  lookup_old-delete_walk s g [] v ne = refl
  lookup_old-delete_walk s g (p ∷ next) v ne =
      ground (arith, lookup_old-delete_walk s g next v.3 ne, v.1)

  -- When a non-null pointer is added to a well-formed list (the empty one included) none of whose
  -- other pointers has the same sum, the call returns the pointer's sum as its handle; afterwards
  -- this handle looks the pointer up, every other number looks up what it did before, whether the
  -- list knew it or not; and the list stays well-formed.
  pub lookup-add :
      (s g : ℕ) (l : List SyncObj)
      → s ≢ 0
      → IsTable l
      → NoCollision s l
      → ((add_sync_obj crc32_u64 s l).0 ≡ handle s)
        × (lookup_sync_obj g (add_sync_obj crc32_u64 s l).1
            ≡ (if g == (add_sync_obj crc32_u64 s l).0 then s else lookup_sync_obj g l))
        × IsTable (add_sync_obj crc32_u64 s l).1
  unfolding add_sync_obj
  lookup-add s g l h v c =
      rw (==_of_ne s 0 h, add_walk-handle s l v)
        (refl, lookup_any-add_walk s g l v c, add_walk-IsTable s l h v)

  -- After a pointer is deleted from a well-formed list, none of whose other pointers has the same
  -- sum, its handle is unknown; every other handle means what it meant; and the list stays
  -- well-formed. The call returns the pointer.
  pub lookup-delete :
      (s g : ℕ) (l : List SyncObj)
      → IsTable l
      → NoCollision s l
      → g ≢ handle s
      → ((delete_sync_obj s l).0 ≡ s)
        × (lookup_sync_obj (handle s) (delete_sync_obj s l).1 ≡ int32_max)
        × (lookup_sync_obj g (delete_sync_obj s l).1 ≡ lookup_sync_obj g l)
        × IsTable (delete_sync_obj s l).1
  unfolding delete_sync_obj
  lookup-delete s g l v c ne = (
    refl,
    lookup-delete_walk s l v c,
    lookup_old-delete_walk s g l v ne,
    delete_walk-IsTable s l v,
  )

  add_walk_twice :
      (s : ℕ) (l : List SyncObj)
      → add_walk crc32_u64 s (add_walk crc32_u64 s l).1 ≡ add_walk crc32_u64 s l
  unfolding add_walk new_sync_obj
  add_walk_twice s [] = rw (==_refl s)
  add_walk_twice s (p ∷ next) = elim (Bool-cases (p.sync == s)) [
    | inl e ↦ rw (e, e)
    | inr e ↦ rw (e, e, add_walk_twice s next)
  ]

  -- Adding a pointer a second time gives the same handle and leaves the list as it is.
  pub add_twice :
      (s : ℕ) (l : List SyncObj)
      → add_sync_obj crc32_u64 s (add_sync_obj crc32_u64 s l).1 ≡ add_sync_obj crc32_u64 s l
  unfolding add_sync_obj
  add_twice s l = elim (Bool-cases (s == 0)) [ inl e ↦ rw e | inr e ↦ rw e (add_walk_twice s l) ]
