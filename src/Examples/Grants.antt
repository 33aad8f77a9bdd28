-- ===== src/Examples/Grants.antt =====
-- Leases, policy decisions and task runs.
use nexus_os_ai_workspace.Base.{
  String, ◌≡◌, ◌≢◌, refl, ◌↔◌, true, none, some, List, [], ◌∷◌, All, returned, ◌⊕◌, utf16_length,
  trim, ends_with,
}
use nexus_os_ai_workspace.Examples.Hosts.{dot_host, dot_host-ReadsBack, dots}
use nexus_os_ai_workspace.Leases.Types.{
  ExecutionLeaseHeader, DelegatedLeaseHeader, header_ok, delegated_ok,
}
use nexus_os_ai_workspace.Leases.Scopes.{
  verify_scope_attenuation, is_valid, Granted, attenuation_iff, unauthorized, unauthorized_of,
}
use nexus_os_ai_workspace.Leases.Signature.{
  verify_lease_signature, verify_delegated_signature, signature_matches, same_bytes, hex_bytes,
  compute_lease_signature, compute_delegated_signature, verify-comma,
}
use nexus_os_ai_workspace.Leases.Issuer.{
  LeaseIssuer, LeaseIssueParams, DelegatedLeaseIssueParams, root, delegated, Draw, issue_lease,
  issue_delegated_lease, check_delegation, parent_signed, child_lease, sign_delegated,
  parse_delegated, requested_expiry, sign_lease, parse_header, unsigned_lease, verify_lease,
}
use nexus_os_ai_workspace.Leases.Chains.{Attenuates, issue_delegated-Attenuates, verify-issue_lease}
use nexus_os_ai_workspace.Leases.Delegation.{Chain, Below, Chain-Below}

abbrev issuer : LeaseIssuer
issuer = record { secret_key = "0123456789abcdef"; default_ttl_seconds = 0 }

abbrev root_lease : ExecutionLeaseHeader
root_lease = record {
  lease_id = "l1";
  task_id = "t1";
  agent_id = "device";
  tenant_id = "acme";
  issued_at = "";
  expires_at = "..........";
  scopes = "fs.read" ∷ "fs.write" ∷ [];
  signature = "a1b2";
  nonce = some "n1";
  policy_hash = none;
}

abbrev first_params : DelegatedLeaseIssueParams
first_params = record {
  parent_lease = root root_lease;
  parent_task_id = "t1";
  child_task_id = "t2";
  child_agent_id = "planner";
  tenant_id = "acme";
  workspace_id = "w";
  attenuated_scopes = " fs.read" ∷ [];
  delegation_depth = 1;
  ttl_seconds = some 1;
  policy_hash = none;
  nonce = none;
}

abbrev draw : Draw
draw = record { lease_uuid = "l2"; nonce_uuid = "n2"; now = 2 }

abbrev first_child : DelegatedLeaseHeader
first_child = record {
  base = record {
    lease_id = "l2";
    task_id = "t2";
    agent_id = "planner";
    tenant_id = "acme";
    issued_at = "..";
    expires_at = "..........";
    scopes = " fs.read" ∷ [];
    signature = "a1b2";
    nonce = some "n2";
    policy_hash = none;
  };
  parent_lease_id = "l1";
  parent_task_id = "t1";
  delegation_depth = 1;
  workspace_id = "w";
}

first_issued : issue_delegated_lease dot_host issuer first_params draw ≡ returned first_child
unfolding issue_delegated_lease check_delegation parent_signed child_lease sign_delegated
    parse_delegated requested_expiry verify_lease_signature signature_matches same_bytes hex_bytes
    compute_lease_signature compute_delegated_signature header_ok delegated_ok
    verify_scope_attenuation unauthorized unauthorized_of dots utf16_length trim ends_with
first_issued = refl

abbrev second_params : DelegatedLeaseIssueParams
second_params = record {
  parent_lease = delegated first_child;
  parent_task_id = "t2";
  child_task_id = "t3";
  child_agent_id = "reader";
  tenant_id = "acme";
  workspace_id = "w";
  attenuated_scopes = "fs.read" ∷ [];
  delegation_depth = 2;
  ttl_seconds = none;
  policy_hash = none;
  nonce = none;
}

abbrev second_child : DelegatedLeaseHeader
second_child = record {
  base = record {
    lease_id = "l2";
    task_id = "t3";
    agent_id = "reader";
    tenant_id = "acme";
    issued_at = "..";
    expires_at = "..";
    scopes = "fs.read" ∷ [];
    signature = "a1b2";
    nonce = some "n2";
    policy_hash = none;
  };
  parent_lease_id = "l2";
  parent_task_id = "t2";
  delegation_depth = 2;
  workspace_id = "w";
}

second_issued : issue_delegated_lease dot_host issuer second_params draw ≡ returned second_child
unfolding issue_delegated_lease check_delegation parent_signed child_lease sign_delegated
    parse_delegated requested_expiry verify_delegated_signature signature_matches same_bytes
    hex_bytes compute_lease_signature compute_delegated_signature header_ok delegated_ok
    verify_scope_attenuation unauthorized unauthorized_of dots utf16_length trim ends_with
second_issued = refl

Chain-Below_example : Below dot_host issuer root_lease 2 second_child
Chain-Below_example =
    Chain-Below dot_host issuer root_lease {n = 2} {c = second_child} dot_host-ReadsBack (
      Chain.next second_params draw (Chain.first first_params draw refl first_issued) refl
        second_issued)

issue_delegated-Attenuates_example : Attenuates dot_host issuer 2 (root root_lease) first_child
issue_delegated-Attenuates_example =
    issue_delegated-Attenuates dot_host issuer first_params draw first_child dot_host-ReadsBack
      first_issued

abbrev lease_params : LeaseIssueParams
lease_params = record {
  task_id = "t1";
  agent_id = "device";
  tenant_id = "acme";
  scopes = "fs.read" ∷ [];
  ttl_seconds = none;
  policy_hash = none;
  nonce = none;
}

abbrev issued_lease : ExecutionLeaseHeader
issued_lease = record {
  lease_id = "l2";
  task_id = "t1";
  agent_id = "device";
  tenant_id = "acme";
  issued_at = "..";
  expires_at = "..";
  scopes = "fs.read" ∷ [];
  signature = "a1b2";
  nonce = some "n2";
  policy_hash = none;
}

lease_issued : issue_lease dot_host issuer lease_params draw ≡ returned issued_lease
unfolding issue_lease unsigned_lease sign_lease parse_header requested_expiry header_ok
    compute_lease_signature dots
lease_issued = refl

verify-issue_lease_example :
    (verify_lease dot_host issuer issued_lease ≡ true) × (header_ok dot_host issued_lease ≡ true)
verify-issue_lease_example =
    verify-issue_lease dot_host issuer lease_params draw issued_lease lease_issued

abbrev held : List String
held = "fs.read" ∷ []

abbrev asked : List String
asked = "fs.*" ∷ []

attenuation_example :
    (is_valid (verify_scope_attenuation held asked) ≡ true)
    ↔ ((held ≢ []) × (asked ≢ []) × All (Granted held) asked)
attenuation_example = attenuation_iff held asked

verify-comma_example :
    verify_lease_signature dot_host
      (record root_lease { scopes = ◌⊕◌ "fs.read" (◌⊕◌ "," "fs.write") ∷ [] })
      "0123456789abcdef"
    ≡ verify_lease_signature dot_host
        (record root_lease { scopes = "fs.read" ∷ "fs.write" ∷ [] })
        "0123456789abcdef"
verify-comma_example = verify-comma dot_host root_lease "0123456789abcdef" "fs.read" "fs.write" []
