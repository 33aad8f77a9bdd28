-- ===== src/MemoryCache/Indices.antt =====
-- The indices of the cache of apps/desktop-agent/src/memory/memory-cache-store.ts list every entry
-- under its owner.
use nexus_os_ai_workspace.Base.{
  ◌≡◌, ◌≢◌, refl, ap, ◌∙◌, sym, String, true, false, not, ◌||◌, Option, none, some, List, [], ◌∷◌,
  ◌++◌, arith, Option-cases, Bool-cases, inl, inr, if◌then◌else◌, nonempty, ◌==◌, eq_iff, eq_refl,
  get, put, delete, get_or, get-put, get-delete, includes, filter,
}
use nexus_os_ai_workspace.MemoryCache.{
  CacheEntry, Index, add_index, set_keys, remove_index, add_optional, remove_optional,
}

abbrev pub keys_of : Index → String → List String
keys_of index owner = get_or (get owner index) []

includes-filter_other :
    (k key : String) (ks : List String)
    → key == k ≡ false
    → includes k ks ≡ true
    → includes k (filter (λ j. not (j == key)) ks) ≡ true
includes-filter_other k key [] d h = h
includes-filter_other k key (j ∷ ks) d h =
    ground (arith, eq_iff j k, eq_iff key k, eq_iff j key, includes-filter_other k key ks d)

includes-append :
    (k : String) (xs ys : List String) → includes k (xs ++ ys) ≡ (includes k xs || includes k ys)
includes-append k [] ys = refl
includes-append k (x ∷ xs) ys = ground (arith, includes-append k xs ys)

keys_of-set_keys :
    (index : Index) (owner o : String) (keys : List String)
    → keys_of (set_keys index owner keys) o ≡ (if owner == o then keys else keys_of index o)
unfolding set_keys
keys_of-set_keys index owner o [] = ground (arith, get-delete owner o index)
keys_of-set_keys index owner o (k ∷ keys) = ground (arith, get-put owner o (k ∷ keys) index)

-- A key that is listed stays listed when another goes.
keys_of-remove_index :
    (index : Index) (owner o key k : String)
    → key == k ≡ false
    → includes k (keys_of index o) ≡ true
    → includes k (keys_of (remove_index index owner key) o) ≡ true
unfolding remove_index
keys_of-remove_index index owner o key k d h = elim (Option-cases (get owner index)) [
  | inl absent ↦ rw (absent, remove_index) h
  | inr (keys, present) ↦
      rw (present, remove_index) ground
        (
          arith,
          h,
          eq_iff owner o,
          keys_of-set_keys index owner o (filter (λ j. not (j == key)) keys),
          includes-filter_other k key keys d,
        )
]

keys_of-add_index :
    (index : Index) (owner o key k : String)
    → includes k (keys_of index o) ≡ true
    → includes k (keys_of (add_index index owner key) o) ≡ true
unfolding add_index
keys_of-add_index index owner o key k h =
    let keys = keys_of index owner in
    ground (
      arith,
      h,
      eq_iff owner o,
      get-put owner o keys index,
      get-put owner o (keys ++ key ∷ []) index,
      includes-append k keys (key ∷ []),
    )

keys_of-add_index_own :
    (index : Index) (owner key : String)
    → includes key (keys_of (add_index index owner key) owner) ≡ true
unfolding add_index
keys_of-add_index_own index owner key =
    let keys = keys_of index owner in
    ground (
      arith,
      eq_refl owner,
      eq_refl key,
      get-put owner owner keys index,
      get-put owner owner (keys ++ key ∷ []) index,
      includes-append key keys (key ∷ []),
    )

module _ {ℓ} {V : Type ℓ} (bound : CacheEntry V → Option String) where
  -- Every entry with an owner is listed under it.
  unfoldable pub Indexed : List (String × CacheEntry V) → Index → Type ℓ
  Indexed entries index =
      (k : String) (e : CacheEntry V) (o : String)
      → get k entries ≡ some e
      → bound e ≡ some o
      → nonempty o ≡ true
      → includes k (keys_of index o) ≡ true

  pub Indexed-remove :
      (entries : List (String × CacheEntry V)) (index : Index) (key : String) (e : CacheEntry V)
      → Indexed entries index
      → Indexed (delete key entries) (remove_optional index (bound e) key)
  unfolding Indexed remove_optional
  Indexed-remove entries index key e h k f o at own filled = elim (Bool-cases (key == k)) [
    | inl same ↦ cc (rw (get-delete key k entries, same) at at)
    | inr other ↦
        kept (bound e) other (h k f o (rw (get-delete key k entries, other) at at) own filled)
  ]
    where
      kept :
          (owner : Option String)
          → key == k ≡ false
          → includes k (keys_of index o) ≡ true
          → includes k (keys_of (remove_optional index owner key) o) ≡ true
      kept none d listed = listed
      kept (some p) d listed = ground (arith, listed, keys_of-remove_index index p o key k d listed)

  pub Indexed-store :
      (entries : List (String × CacheEntry V)) (index : Index) (key : String) (e : CacheEntry V)
      → Indexed entries index
      → Indexed (put key e entries) (add_optional index (bound e) key)
  unfolding Indexed add_optional
  Indexed-store entries index key e h k f o at own filled = elim (Bool-cases (key == k)) [
    | inl it ↦
        let new : e ≡ f = cc (rw (get-put key k e entries, it) at at) in
        listed (bound e) (ap bound new ∙ own) ((eq_iff key k).0 it)
    | inr other ↦ kept (bound e) (h k f o (rw (get-put key k e entries, other) at at) own filled)
  ]
    where
      listed :
          (owner : Option String)
          → owner ≡ some o
          → key ≡ k
          → includes k (keys_of (add_optional index owner key) o) ≡ true
      listed owner is_o is_k =
          rw (is_o, sym is_k, add_optional, filled) (keys_of-add_index_own index o key)

      kept :
          (owner : Option String)
          → includes k (keys_of index o) ≡ true
          → includes k (keys_of (add_optional index owner key) o) ≡ true
      kept none l = l
      kept (some p) l = ground (arith, l, keys_of-add_index index p o key k l)

  -- An entry replaced by one with its owner.
  pub Indexed-touch :
      (entries : List (String × CacheEntry V)) (index : Index) (key : String) (e f : CacheEntry V)
      → get key entries ≡ some e
      → bound f ≡ bound e
      → Indexed entries index
      → Indexed (put key f entries) index
  unfolding Indexed
  Indexed-touch entries index key e f present same h k g o at own filled =
      elim (Bool-cases (key == k)) [
        | inl it ↦
            let new : f ≡ g = cc (rw (get-put key k f entries, it) at at) in
            h k e o (ap (λ j. get j entries) (sym ((eq_iff key k).0 it)) ∙ present)
              (sym same ∙ ap bound new ∙ own) filled
        | inr other ↦ h k g o (rw (get-put key k f entries, other) at at) own filled
      ]

  -- An owner without entries needs no set.
  pub Indexed-drop :
      (entries : List (String × CacheEntry V)) (index : Index) (owner : String)
      → ((k : String) (e : CacheEntry V)
          → get k entries ≡ some e
          → nonempty owner ≡ true
          → bound e ≢ some owner)
      → Indexed entries index
      → Indexed entries (delete owner index)
  unfolding Indexed
  Indexed-drop entries index owner free h k e o at own filled = elim (Bool-cases (owner == o)) [
    | inl same ↦
        let is_o : owner ≡ o = (eq_iff owner o).0 same in
        absurd (free k e at (ap nonempty is_o ∙ filled) (own ∙ ap some (sym is_o)))
    | inr other ↦ rw (get-delete owner o index, other) (h k e o at own filled)
  ]
