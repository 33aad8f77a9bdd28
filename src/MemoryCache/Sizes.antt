-- ===== src/MemoryCache/Sizes.antt =====
-- The counted and the held bytes of the cache of
-- apps/desktop-agent/src/memory/memory-cache-store.ts.
use nexus_os_ai_workspace.Base.{
  ℕ, ◌+◌, ◌≤◌, ◌≡◌, ap, String, some, List, [], ◌∷◌, arith, Option-cases, Bool-cases, inl, inr, get,
  put, delete, ◌==◌,
}
use nexus_os_ai_workspace.MemoryCache.{CacheEntry, CacheStore, remove, remove_entry}
use nexus_os_ai_workspace.MemoryCache.Removals.{Stable}

module _ {ℓ} {V : Type ℓ} where
  -- The bytes of the entries that the store holds.
  abbrev pub held_bytes : List (String × CacheEntry V) → ℕ
  held_bytes [] = 0
  held_bytes ((k, e) ∷ m) = e.size_bytes + held_bytes m

  held-delete-le :
      (k : String) (m : List (String × CacheEntry V)) → held_bytes (delete k m) ≤ held_bytes m
  unfolding delete
  held-delete-le k [] = omega arith
  held-delete-le k ((j, e) ∷ m) = ground (arith, held-delete-le k m)

  -- A removal gives back at least the size of the entry.
  held-delete :
      (k : String) (e : CacheEntry V) (m : List (String × CacheEntry V))
      → get k m ≡ some e
      → held_bytes (delete k m) + e.size_bytes ≤ held_bytes m
  unfolding get delete
  held-delete k e [] h = cc
  held-delete k e ((j, f) ∷ m) h = elim (Bool-cases (j == k)) [
    | inl own ↦
        let same : f ≡ e = ground arith in
        ground (arith, held-delete-le k m, ap (λ x. x.size_bytes) same)
    | inr other ↦ ground (arith, held-delete k e m)
  ]

  pub held-put :
      (k : String) (e : CacheEntry V) (m : List (String × CacheEntry V))
      → held_bytes (put k e m) ≤ held_bytes m + e.size_bytes
  unfolding put
  held-put k e [] = omega arith
  held-put k e ((j, f) ∷ m) = ground (arith, held-put k e m)

  -- Replacing an entry by one of its size.
  pub held-put_same :
      (k : String) (e f : CacheEntry V) (m : List (String × CacheEntry V))
      → get k m ≡ some e
      → f.size_bytes ≡ e.size_bytes
      → held_bytes (put k f m) ≤ held_bytes m
  unfolding get put
  held-put_same k e f [] h s = cc
  held-put_same k e f ((j, g) ∷ m) h s = elim (Bool-cases (j == k)) [
    | inl own ↦ let same : g ≡ e = ground arith in ground (arith, ap (λ x. x.size_bytes) same)
    | inr other ↦ ground (arith, held-put_same k e f m)
  ]

  -- The counted bytes cover the held ones and stay below the ceiling.
  abbrev pub Bounded : ℕ → CacheStore V → Type 0
  Bounded ceiling c =
      (held_bytes c.entries ≤ c.total_size_bytes)
      × (c.total_size_bytes ≤ ceiling)
      × (c.max_memory_bytes ≡ ceiling)

  Bounded-remove :
      (ceiling : ℕ) (c : CacheStore V) (key : String)
      → Bounded ceiling c
      → Bounded ceiling (remove c key).0
  unfolding remove remove_entry
  Bounded-remove ceiling c key h = elim (Option-cases (get key c.entries)) [
    | inl absent ↦ rw (absent, remove) h
    | inr (e, present) ↦
        rw (present, remove, remove_entry)
          (omega (arith, held-delete key e c.entries present, h.0), omega (arith, h.1), h.2)
  ]

  pub Bounded-Stable : (ceiling : ℕ) → Stable (Bounded ceiling)
  Bounded-Stable ceiling = record {
    by_remove = Bounded-remove ceiling;
    by_count = λ c total emergency h. h;
  }
