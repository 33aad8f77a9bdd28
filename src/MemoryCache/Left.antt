-- ===== src/MemoryCache/Left.antt =====
-- What a clearing method of apps/desktop-agent/src/memory/memory-cache-store.ts that waits for a
-- removal still has to clear.
use nexus_os_ai_workspace.Base.{
  ℕ, ◌+◌, ◌≡◌, refl, ap, ◌∙◌, sym, String, true, Option, none, some, List, ◌∷◌, arith, Option-cases,
  Bool-cases, inl, inr, if◌then◌else◌, nonempty, ◌==◌, eq_iff, get, put, get-put, get-delete,
  includes,
}
use nexus_os_ai_workspace.MemoryCache.{CacheEntry, CacheStore, remove, remove_entry, text_after}
use nexus_os_ai_workspace.MemoryCache.Access.{
  ReadContext, may_read, touched, read_entry, get_entry, count_miss,
}
use nexus_os_ai_workspace.MemoryCache.Clearing.{
  Kind, of_task, of_workspace, of_lease, of_policy, Clearing,
}

module _ {ℓ} {V : Type ℓ} where
  -- The lease or the policy that an entry is bound to.
  abbrev pub bound : Kind → CacheEntry V → Option String
  bound of_task e = none
  bound of_workspace e = none
  bound of_lease e = e.lease_id
  bound of_policy e = e.policy_hash

  pub get-remove :
      (c : CacheStore V) (key k : String)
      → get k (remove c key).0.entries ≡ (if key == k then none else get k c.entries)
  unfolding remove remove_entry
  get-remove c key k = elim (Option-cases (get key c.entries)) [
    | inl absent ↦
        rw (absent, remove) ground (arith, absent, eq_iff key k, ap (λ j. get j c.entries))
    | inr (e, present) ↦ rw (present, remove, remove_entry) (get-delete key k c.entries)
  ]

  -- Every entry bound to the owner is under one of the keys.
  abbrev pub Among : Kind → String → List String → CacheStore V → Type ℓ
  Among kind owner keys c =
      (k : String) (e : CacheEntry V)
      → get k c.entries ≡ some e
      → nonempty owner ≡ true
      → bound kind e ≡ some owner
      → includes k keys ≡ true

  -- What a waiting call has left to visit has all that is bound to its owner.
  abbrev pub Left : CacheStore V → Clearing → Type ℓ
  Left c w = Among w.kind w.owner w.rest c

  pub Among-remove :
      (kind : Kind) (owner : String) (keys : List String) (c : CacheStore V) (key : String)
      → Among kind owner keys c
      → Among kind owner keys (remove c key).0
  Among-remove kind owner keys c key h k e at filled own = elim (Bool-cases (key == k)) [
    | inl same ↦ cc (rw (get-remove c key k, same) at at)
    | inr other ↦ h k e (rw (get-remove c key k, other) at at) filled own
  ]

  -- A key that was removed is no longer left.
  pub Among-next :
      (kind : Kind) (owner : String) (key : String) (keys : List String) (c : CacheStore V)
      → Among kind owner (key ∷ keys) c
      → Among kind owner keys (remove c key).0
  Among-next kind owner key keys c h k e at filled own = elim (Bool-cases (key == k)) [
    | inl same ↦ cc (rw (get-remove c key k, same) at at)
    | inr other ↦
        let there : get k c.entries ≡ some e = rw (get-remove c key k, other) at at in
        ground (arith, other, h k e there filled own)
  ]

  bound-touched :
      (kind : Kind) (now_iso : String) (e : CacheEntry V)
      → bound kind (touched now_iso e) ≡ bound kind e
  bound-touched of_task now_iso e = refl
  bound-touched of_workspace now_iso e = refl
  bound-touched of_lease now_iso e = refl
  bound-touched of_policy now_iso e = refl

  Among-touch :
      (kind : Kind) (owner : String) (keys : List String) (now_iso key : String) (c : CacheStore V)
      (e : CacheEntry V) (hits : ℕ)
      → get key c.entries ≡ some e
      → Among kind owner keys c
      → Among kind owner keys
          (record c { entries = put key (touched now_iso e) c.entries; total_hits = hits })
  Among-touch kind owner keys now_iso key c e hits present h k g at filled own =
      elim (Bool-cases (key == k)) [
        | inl it ↦
            let new : touched now_iso e ≡ g =
              cc (rw (get-put key k (touched now_iso e) c.entries, it) at at) in
            let there : get k c.entries ≡ some e =
              ap (λ j. get j c.entries) (sym ((eq_iff key k).0 it)) ∙ present in
            h k e there filled (sym (bound-touched kind now_iso e) ∙ ap (bound kind) new ∙ own)
        | inr other ↦
            h k g (rw (get-put key k (touched now_iso e) c.entries, other) at at) filled own
      ]

  pub Among-get :
      (kind : Kind) (owner : String) (keys : List String) (now_iso key : String) (c : CacheStore V)
      (r : ReadContext)
      → Among kind owner keys c
      → Among kind owner keys (get_entry now_iso c key r).0
  unfolding get_entry read_entry count_miss
  Among-get kind owner keys now_iso key c r h = elim (Option-cases (get key c.entries)) [
    | inl absent ↦ rw (absent, get_entry, count_miss) h
    | inr (e, present) ↦ rw (present, get_entry) (Among-read e present)
  ]
    where
      Among-read :
          (e : CacheEntry V)
          → get key c.entries ≡ some e
          → Among kind owner keys (read_entry now_iso c key r e).0
      Among-read e present = elim (Bool-cases (text_after now_iso e.expires_at)) [
        | inl over ↦ rw (read_entry, over, count_miss) (Among-remove kind owner keys c key h)
        | inr current ↦ elim (Bool-cases (may_read e r)) [
          | inl open_to ↦
              rw (read_entry, current, open_to)
                (Among-touch kind owner keys now_iso key c e (c.total_hits + 1) present h)
          | inr closed ↦ rw (read_entry, current, closed, count_miss) h
        ]
      ]
