-- ===== src/Leases/Delegation.antt =====
-- Chains of delegations issued by services/backend/src/leases/lease-issuer.ts: what the last child
-- keeps of the root lease.
use nexus_os_ai_workspace.Base.{ℕ, suc, ◌≤◌, ◌≡◌, refl, subst, ◌∙◌, some, arith, All, returned}
use nexus_os_ai_workspace.Host.{Host, ReadsBack}
use nexus_os_ai_workspace.Leases.Types.{ExecutionLeaseHeader, DelegatedLeaseHeader}
use nexus_os_ai_workspace.Leases.Scopes.{Granted, All-Granted_trans}
use nexus_os_ai_workspace.Leases.Issuer.{
  LeaseIssuer, DelegatedLeaseIssueParams, ParentLease, root, delegated, Draw, issue_delegated_lease,
}
use nexus_os_ai_workspace.Leases.Chains.{Attenuates, issue_delegated-Attenuates}

module _ (host : Host) (issuer : LeaseIssuer) (l : ExecutionLeaseHeader) where
  -- The leases that the issuer hands out below `l`, with the number of delegations.
  pub data Chain : ℕ → DelegatedLeaseHeader → Type 0 where
    first :
        {c : DelegatedLeaseHeader} (p : DelegatedLeaseIssueParams) (draw : Draw)
        → p.parent_lease ≡ root l
        → issue_delegated_lease host issuer p draw ≡ returned c
        → Chain 1 c
    next :
        {n : ℕ} {b c : DelegatedLeaseHeader} (p : DelegatedLeaseIssueParams) (draw : Draw)
        → Chain n b
        → p.parent_lease ≡ delegated b
        → issue_delegated_lease host issuer p draw ≡ returned c
        → Chain (suc n) c

  -- What the last lease of a chain keeps of the first.
  pub record Below (n : ℕ) (c : DelegatedLeaseHeader) : Type 0 where
    pub short : n ≤ 3
    pub length-le-depth : n ≤ c.delegation_depth
    pub same_tenant : c.base.tenant_id ≡ l.tenant_id
    pub root_ends : ℕ
    pub child_ends : ℕ
    pub root_date : host.date_ms l.expires_at ≡ some root_ends
    pub child_date : host.date_ms c.base.expires_at ≡ some child_ends
    pub no_later : child_ends ≤ root_ends
    pub granted : All (Granted l.scopes) c.base.scopes

  Below-first :
      (now : ℕ) (parent : ParentLease) (c : DelegatedLeaseHeader)
      → parent ≡ root l
      → Attenuates host issuer now parent c
      → Below 1 c
  Below-first now parent c e a =
      let b = subst (λ x. Attenuates host issuer now x c) e a in
      record {
        short = omega arith;
        length-le-depth = b.deep;
        same_tenant = b.same_tenant;
        root_ends = b.parent_ends;
        child_ends = b.child_ends;
        root_date = b.parent_date;
        child_date = b.child_date;
        no_later = b.no_later;
        granted = b.granted;
      }

  Below-next :
      (now n : ℕ) (parent : ParentLease) (b c : DelegatedLeaseHeader)
      → parent ≡ delegated b
      → Below n b
      → Attenuates host issuer now parent c
      → Below (suc n) c
  Below-next now n parent b c e below a =
      let k = subst (λ x. Attenuates host issuer now x c) e a in
      let deeper = k.next_depth b refl in
      record {
        short = omega (arith, deeper, k.not_too_deep, below.length-le-depth);
        length-le-depth = omega (arith, deeper, below.length-le-depth);
        same_tenant = k.same_tenant ∙ below.same_tenant;
        root_ends = below.root_ends;
        child_ends = k.child_ends;
        root_date = below.root_date;
        child_date = k.child_date;
        no_later = ground (arith, below.child_date, k.parent_date, k.no_later, below.no_later);
        granted = All-Granted_trans l.scopes b.base.scopes c.base.scopes below.granted k.granted;
      }

  -- On a host whose dates read back as they were written: however leases are delegated on, the
  -- last has gone through at most three delegations, no more than its depth says, belongs to the
  -- tenant of the first, ends no later, and has only scopes that the first grants.
  pub Chain-Below : {n : ℕ} {c : DelegatedLeaseHeader} → ReadsBack host → Chain n c → Below n c
  Chain-Below reads (first {c = c} p draw e issued) =
      Below-first draw.now p.parent_lease c e
        (issue_delegated-Attenuates host issuer p draw c reads issued)
  Chain-Below reads (next {n = n} {b = b} {c = c} p draw chain e issued) =
      Below-next draw.now n p.parent_lease b c e (Chain-Below reads chain)
        (issue_delegated-Attenuates host issuer p draw c reads issued)
