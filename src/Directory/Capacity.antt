-- ===== src/Directory/Capacity.antt =====
-- The limit of services/backend/src/agents/agent-directory.ts on the agents of a tenant. Its keys
-- join two texts; they name one tenant each because the identifiers of tenants have one length.
use Prim.Native.String.{count as char_count}
use text.Mathlib.TextLemmas.{append_inj}
use nexus_os_ai_workspace.Base.{
  ◌+◌, ◌≤◌, ◌≡◌, refl, ap, ◌∙◌, sym, subst, String, true, false, none, some, List, [], ◌∷◌, filter,
  length, length-filter, count, All, arith, Option-cases, Bool-cases, inl, inr, if◌then◌else◌, ◌==◌,
  eq_iff, eq_refl, leb, get, put,
}
use nexus_os_ai_workspace.Host.{Host}
use nexus_os_ai_workspace.Directory.{
  AgentRegistration, AgentHeartbeat, AgentRecord, Directory, composite_key, of_tenant, list_agents,
  registration_ok, record_of, register_agent, beaten, heartbeat_ok, record_heartbeat, retire_agent,
  retired,
}
use nexus_os_ai_workspace.Directory.Lists.{values}

-- The texts that `z.string().uuid()` accepts have 36 characters.
abbrev pub UuidSized : Host → Type 0
UuidSized host = (s : String) → host.is_uuid s ≡ true → char_count s ≡ 36

abbrev pub Entries : Type 0
Entries = List (String × AgentRecord)

-- An entry stands under the key of its agent, whose tenant is an identifier.
abbrev pub IsKeyed : Host → String × AgentRecord → Type 0
IsKeyed host (k, a) = (host.is_uuid a.tenant_id ≡ true) × (k ≡ composite_key a.tenant_id a.agent_id)

composite_key-tenant :
    (host : Host) (s t a b : String)
    → UuidSized host
    → host.is_uuid s ≡ true
    → host.is_uuid t ≡ true
    → composite_key s a ≡ composite_key t b
    → s ≡ t
unfolding composite_key
composite_key-tenant host s t a b sized hs ht e = (append_inj e (sized s hs ∙ sym (sized t ht))).0

module _ (host : Host) where
  Keyed-get :
      (k : String) (a : AgentRecord) (m : Entries)
      → All (IsKeyed host) m
      → get k m ≡ some a
      → IsKeyed host (k, a)
  unfolding get
  Keyed-get k a [] h e = cc
  Keyed-get k a ((j, b) ∷ m) h e = elim (Bool-cases (j == k)) [
    | inl own ↦
        let same : b ≡ a = ground arith in
        let at : j ≡ k = (eq_iff j k).0 own in
        subst (λ x. IsKeyed host (k, x)) same (subst (λ x. IsKeyed host (x, b)) at h.0)
    | inr other ↦ Keyed-get k a m h.1 (ground arith)
  ]

  Keyed-put :
      (k : String) (a : AgentRecord) (m : Entries)
      → All (IsKeyed host) m
      → IsKeyed host (k, a)
      → All (IsKeyed host) (put k a m)
  unfolding put
  Keyed-put k a [] h new = (new, tt)
  Keyed-put k a ((j, b) ∷ m) h new = elim (Bool-cases (j == k)) [
    | inl own ↦
        let at : k ≡ j = sym ((eq_iff j k).0 own) in
        rw (put, own) (subst (λ x. IsKeyed host (x, a)) at new, h.1)
    | inr other ↦ rw (put, other) (h.0, Keyed-put k a m h.1 new)
  ]

  -- An agent replaced by one of its tenant.
  count-put_same :
      (t k : String) (a b : AgentRecord) (m : Entries)
      → get k m ≡ some a
      → a.tenant_id ≡ b.tenant_id
      → count (of_tenant t) (values (put k b m)) ≡ count (of_tenant t) (values m)
  unfolding get put
  count-put_same t k a b [] e same = cc
  count-put_same t k a b ((j, c) ∷ m) e same = elim (Bool-cases (j == k)) [
    | inl own ↦
        let at : c ≡ a = ground arith in
        ground (arith, ap (λ x. of_tenant t x) at, ap (λ x. x == t) same)
    | inr other ↦ ground (arith, count-put_same t k a b m)
  ]

  count-put_new :
      (t k : String) (b : AgentRecord) (m : Entries)
      → get k m ≡ none
      → count (of_tenant t) (values (put k b m))
        ≡ count (of_tenant t) (values m) + (if of_tenant t b then 1 else 0)
  unfolding get put
  count-put_new t k b [] e = ground arith
  count-put_new t k b ((j, c) ∷ m) e = ground (arith, count-put_new t k b m)

  -- Keyed, and no tenant over the limit.
  pub record IsWithin (d : Directory) : Type 0 where
    pub keyed : All (IsKeyed host) d.agents
    pub limited : (t : String) → length (list_agents d t) ≤ d.max_agents_per_tenant

  uuid_of :
      (r : AgentRegistration) → registration_ok host r ≡ true → host.is_uuid r.tenant_id ≡ true
  unfolding registration_ok
  uuid_of r ok = ground (arith, ok)

  -- An agent replaced under its key by one of its tenant.
  IsWithin-put :
      (d : Directory) (k : String) (a b : AgentRecord)
      → get k d.agents ≡ some a
      → a.tenant_id ≡ b.tenant_id
      → IsKeyed host (k, b)
      → IsWithin d
      → IsWithin (record d { agents = put k b d.agents })
  unfolding list_agents
  IsWithin-put d k a b present tenant key h = record {
    keyed = Keyed-put k b d.agents h.keyed key;
    limited = λ t. omega (
      arith,
      h.limited t,
      length-filter (of_tenant t) (values d.agents),
      length-filter (of_tenant t) (values (put k b d.agents)),
      count-put_same t k a b d.agents present tenant,
    );
  }

  IsWithin-add :
      (d : Directory) (k : String) (b : AgentRecord)
      → get k d.agents ≡ none
      → leb d.max_agents_per_tenant (length (list_agents d b.tenant_id)) ≡ false
      → IsKeyed host (k, b)
      → IsWithin d
      → IsWithin (record d { agents = put k b d.agents })
  unfolding list_agents
  IsWithin-add d k b absent room key h = record {
    keyed = Keyed-put k b d.agents h.keyed key;
    limited = λ t. elim (Bool-cases (b.tenant_id == t)) [
      | inl own ↦ subst limited_at ((eq_iff b.tenant_id t).0 own) (
          ground (
            arith,
            room,
            eq_refl b.tenant_id,
            length-filter (of_tenant b.tenant_id) (values d.agents),
            length-filter (of_tenant b.tenant_id) (values (put k b d.agents)),
            count-put_new b.tenant_id k b d.agents absent,
          ))
      | inr other ↦ ground (
        arith,
        other,
        h.limited t,
        length-filter (of_tenant t) (values d.agents),
        length-filter (of_tenant t) (values (put k b d.agents)),
        count-put_new t k b d.agents absent,
      )
    ];
  }
    where
      limited_at : String → Type 0
      limited_at t =
          length (filter (of_tenant t) (values (put k b d.agents))) ≤ d.max_agents_per_tenant

  pub register_agent-IsWithin :
      (d : Directory) (r : AgentRegistration)
      → UuidSized host
      → IsWithin d
      → IsWithin (register_agent host d r).0
  unfolding register_agent record_of
  register_agent-IsWithin d r sized h =
      let k = composite_key r.tenant_id r.agent_id in
      elim (Bool-cases (registration_ok host r)) [
        | inr bad ↦ rw (register_agent, bad) h
        | inl ok ↦
            let uuid : host.is_uuid r.tenant_id ≡ true = uuid_of r ok in
            elim (Option-cases (get k d.agents)) [
              | inl absent ↦
                  elim (Bool-cases
                    (leb d.max_agents_per_tenant (length (list_agents d r.tenant_id)))) [
                      | inl full ↦ rw (register_agent, ok, absent, full) h
                      | inr room ↦
                          rw (register_agent, ok, room, absent)
                            (IsWithin-add d k (record_of r none) absent room (uuid, refl) h)
                    ]
              | inr (a, present) ↦
                  let (old, key) = Keyed-get k a d.agents h.keyed present in
                  let same =
                    composite_key-tenant host a.tenant_id r.tenant_id a.agent_id r.agent_id sized
                      old uuid (sym key) in
                  let done =
                    IsWithin-put d k a (record_of r (some a)) present same (uuid, refl) h in
                  elim (Bool-cases
                    (leb d.max_agents_per_tenant (length (list_agents d r.tenant_id)))) [
                      | inl full ↦ rw (register_agent, ok, present, full) done
                      | inr room ↦ rw (register_agent, ok, present, room) done
                    ]
            ]
      ]

  -- A record that keeps its tenant and its agent keeps its key.
  IsWithin-update :
      (d : Directory) (k : String) (a b : AgentRecord)
      → get k d.agents ≡ some a
      → a.tenant_id ≡ b.tenant_id
      → a.agent_id ≡ b.agent_id
      → IsWithin d
      → IsWithin (record d { agents = put k b d.agents })
  IsWithin-update d k a b present tenant agent h =
      let (uuid, key) = Keyed-get k a d.agents h.keyed present in
      IsWithin-put d k a b present tenant
        (
          ap host.is_uuid (sym tenant) ∙ uuid,
          key
              ∙ ap (λ x. composite_key x a.agent_id) tenant
              ∙ ap (λ x. composite_key b.tenant_id x) agent,
        )
        h

  pub record_heartbeat-IsWithin :
      (d : Directory) (b : AgentHeartbeat) → IsWithin d → IsWithin (record_heartbeat host d b).0
  unfolding record_heartbeat
  record_heartbeat-IsWithin d b h =
      let k = composite_key b.tenant_id b.agent_id in
      elim (Bool-cases (heartbeat_ok host b)) [
        | inr bad ↦ rw (record_heartbeat, bad) h
        | inl ok ↦ elim (Option-cases (get k d.agents)) [
          | inl absent ↦ rw (record_heartbeat, ok, absent) h
          | inr (a, present) ↦
              rw (record_heartbeat, ok, present)
                (IsWithin-update d k a (beaten b a) present refl refl h)
        ]
      ]

  pub retire_agent-IsWithin :
      (d : Directory) (tenant agent : String)
      → IsWithin d
      → IsWithin (retire_agent d tenant agent).0
  unfolding retire_agent
  retire_agent-IsWithin d tenant agent h =
      let k = composite_key tenant agent in
      elim (Option-cases (get k d.agents)) [
        | inl absent ↦ rw (retire_agent, absent) h
        | inr (a, present) ↦
            rw (retire_agent, present)
              (IsWithin-update d k a (record a { status = retired }) present refl refl h)
      ]
