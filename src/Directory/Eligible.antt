-- ===== src/Directory/Eligible.antt =====
-- What `findEligibleAgents` of services/backend/src/agents/agent-directory.ts returns.
use nexus_os_ai_workspace.Base.{
  ℕ, ◌+◌, ◌≤◌, ◌≡◌, refl, ◌∙◌, ◌↔◌, ◌⊎◌, String, Bool, true, false, Option, none, some, List, [],
  ◌∷◌, ltb, filter, count, includes, All, eq_iff, arith, Bool-cases, inl, inr,
}
use nexus_os_ai_workspace.Host.{Host}
use nexus_os_ai_workspace.Directory.{
  AgentRole, AgentStatus, coordinator, specialist, supervisor, worker, registered, available, busy,
  unhealthy, retired, AgentRecord, AgentDiscoveryQuery, Directory, same_role, takes_work, has_role,
  is_older, is_eligible, find_eligible_agents,
}
use nexus_os_ai_workspace.Directory.Lists.{
  every, values, SortedBy, sort_by-SortedBy, All-sort_by, count-sort_by,
}

-- The heartbeat is no older than the limit, or no date.
abbrev pub Fresh : Option ℕ → (limit now : ℕ) → Type 0
Fresh none limit now = Unit
Fresh (some t) limit now = now ≤ t + limit

-- No role is preferred, or this one.
abbrev pub Preferred : Option AgentRole → AgentRole → Type 0
Preferred none role = Unit
Preferred (some r) role = role ≡ r

-- What an agent needs to be found for a query.
pub record Eligible (host : Host) (now ttl : ℕ) (q : AgentDiscoveryQuery) (a : AgentRecord)
    : Type 0 where
  pub tenant : a.tenant_id ≡ q.tenant_id
  pub scope :
      (includes "*" a.workspace_scope ≡ true) ⊎ (includes q.workspace_id a.workspace_scope ≡ true)
  pub fresh : Fresh (host.date_ms a.last_heartbeat) ttl now
  pub working : (a.status ≡ available) ⊎ (a.status ≡ registered)
  pub capable : All (λ cap. includes cap a.capabilities ≡ true) q.required_capabilities
  pub role : Preferred q.preferred_role a.role

takes_work_iff : (s : AgentStatus) → (takes_work s ≡ true) ↔ ((s ≡ available) ⊎ (s ≡ registered))
takes_work_iff registered = (λ h. inr refl, λ h. refl)
takes_work_iff available = (λ h. inl refl, λ h. refl)
takes_work_iff busy = (λ h. cc h, λ h. elim h [ inl e ↦ cc e | inr e ↦ cc e ])
takes_work_iff unhealthy = (λ h. cc h, λ h. elim h [ inl e ↦ cc e | inr e ↦ cc e ])
takes_work_iff retired = (λ h. cc h, λ h. elim h [ inl e ↦ cc e | inr e ↦ cc e ])

same_role_eq : (r s : AgentRole) → same_role r s ≡ true → r ≡ s
same_role_eq coordinator coordinator h = refl
same_role_eq coordinator specialist h = cc h
same_role_eq coordinator supervisor h = cc h
same_role_eq coordinator worker h = cc h
same_role_eq specialist coordinator h = cc h
same_role_eq specialist specialist h = refl
same_role_eq specialist supervisor h = cc h
same_role_eq specialist worker h = cc h
same_role_eq supervisor coordinator h = cc h
same_role_eq supervisor specialist h = cc h
same_role_eq supervisor supervisor h = refl
same_role_eq supervisor worker h = cc h
same_role_eq worker coordinator h = cc h
same_role_eq worker specialist h = cc h
same_role_eq worker supervisor h = cc h
same_role_eq worker worker h = refl

same_role_refl : (r : AgentRole) → same_role r r ≡ true
same_role_refl coordinator = refl
same_role_refl specialist = refl
same_role_refl supervisor = refl
same_role_refl worker = refl

has_role_iff :
    (preferred : Option AgentRole) (a : AgentRecord)
    → (has_role preferred a ≡ true) ↔ Preferred preferred a.role
has_role_iff none a = (λ h. tt, λ h. refl)
has_role_iff (some r) a = (same_role_eq a.role r, λ e. rw e (same_role_refl r))

every_iff : (p : String → Bool) (xs : List String) → (every p xs ≡ true) ↔ All (λ x. p x ≡ true) xs
every_iff p [] = (λ h. tt, λ h. refl)
every_iff p (x ∷ xs) =
    (λ h. ground (arith, h, every_iff p xs), λ h. ground (arith, h, every_iff p xs))

is_older_iff :
    (host : Host) (now limit : ℕ) (a : AgentRecord)
    → (is_older host now limit a ≡ false) ↔ Fresh (host.date_ms a.last_heartbeat) limit now
unfolding is_older
is_older_iff host now limit a = late_iff (host.date_ms a.last_heartbeat)
  where
    late_iff :
        (t : Option ℕ)
        → ((elim t [ none ↦ false | some u ↦ ltb (u + limit) now ]) ≡ false) ↔ Fresh t limit now
    late_iff none = (λ h. tt, λ h. refl)
    late_iff (some u) = (λ h. ground arith, λ h. ground arith)

pub is_eligible_iff :
    (host : Host) (now ttl : ℕ) (q : AgentDiscoveryQuery) (a : AgentRecord)
    → (is_eligible host now ttl q a ≡ true) ↔ Eligible host now ttl q a
unfolding is_eligible
is_eligible_iff host now ttl q a =
    let caps = λ (cap : String). includes cap a.capabilities in
    (
      λ h. record {
        tenant = ground (arith, h, eq_iff a.tenant_id q.tenant_id);
        scope = ground (arith, h);
        fresh = ground (arith, h, is_older_iff host now ttl a);
        working = ground (arith, h, takes_work_iff a.status);
        capable = (every_iff caps q.required_capabilities).0 (ground (arith, h));
        role = (has_role_iff q.preferred_role a).0 (ground (arith, h));
      },
      λ e. ground (
        arith,
        (eq_iff a.tenant_id q.tenant_id).1 e.tenant,
        e.scope,
        (is_older_iff host now ttl a).1 e.fresh,
        (takes_work_iff a.status).1 e.working,
        (every_iff caps q.required_capabilities).1 e.capable,
        (has_role_iff q.preferred_role a).1 e.role,
      ),
    )

count-filter :
    (p q : AgentRecord → Bool) (xs : List AgentRecord)
    → ((a : AgentRecord) → p a ≡ true → q a ≡ true)
    → count p (filter q xs) ≡ count p xs
count-filter p q [] h = refl
count-filter p q (a ∷ xs) h = ground (arith, count-filter p q xs h, h a)

All-Eligible :
    (host : Host) (now ttl : ℕ) (q : AgentDiscoveryQuery) (xs : List AgentRecord)
    → All (Eligible host now ttl q) (filter (is_eligible host now ttl q) xs)
All-Eligible host now ttl q [] = tt
All-Eligible host now ttl q (a ∷ xs) = elim (Bool-cases (is_eligible host now ttl q a)) [
  | inl is ↦ rw is ((is_eligible_iff host now ttl q a).0 is, All-Eligible host now ttl q xs)
  | inr is_not ↦ rw is_not (All-Eligible host now ttl q xs)
]

-- The agents found come with rising loads. Each is of the tenant and in scope of the workspace of
-- the query, has a heartbeat that is no older than the limit or no date, is available or just
-- registered, and has the capabilities and the role that are asked for. Every such agent of the
-- directory is found, as often as it is there: a test that only such agents pass counts as many
-- among the agents found as in the directory.
pub find_eligible_agents-exact :
    (host : Host) (now : ℕ) (d : Directory) (q : AgentDiscoveryQuery) (p : AgentRecord → Bool)
    → ((a : AgentRecord) → p a ≡ true → Eligible host now d.heartbeat_ttl_ms q a)
    → let found = (find_eligible_agents host now d q).1 in
      SortedBy (λ a. a.current_load) found
      × All (Eligible host now d.heartbeat_ttl_ms q) found
      × (count p found ≡ count p (values d.agents))
unfolding find_eligible_agents
find_eligible_agents-exact host now d q p h =
    let ttl = d.heartbeat_ttl_ms in
    let eligible = is_eligible host now ttl q in
    let found = filter eligible (values d.agents) in
    (
      sort_by-SortedBy (λ a. a.current_load) found,
      All-sort_by (λ a. a.current_load) (Eligible host now ttl q) found
          (All-Eligible host now ttl q (values d.agents)),
      count-sort_by (λ a. a.current_load) p found
          ∙ count-filter p eligible (values d.agents)
              (λ a passes. (is_eligible_iff host now ttl q a).1 (h a passes)),
    )
