-- ===== src/Examples/Decisions.antt =====
-- The policy, the lease boundary and admission at one request.
use nexus_os_ai_workspace.Base.{
  String, ◌≡◌, refl, inl, inr, true, false, Option, none, some, [], ◌∷◌, utf16_length, arith, find,
  ◌==◌,
}
use nexus_os_ai_workspace.Host.{Host}
use nexus_os_ai_workspace.Examples.Hosts.{dot_host}
use nexus_os_ai_workspace.Policy.{
  AuthenticatedContext, PolicyDecisionRequest, PolicyRule, PolicySnapshot, allow, evaluate,
  rule_matches, user,
}
use nexus_os_ai_workspace.Policy.Permits.{Permits, evaluate-allowed, evaluate_of_Permits}
use nexus_os_ai_workspace.Policy.Dates.{evaluate_unreadable_expiry}
use nexus_os_ai_workspace.Leases.Types.{ExecutionLeaseHeader}
use nexus_os_ai_workspace.Leases.Signature.{verify_lease_signature}
use nexus_os_ai_workspace.Leases.Boundary.{
  Draw, valid, validate_lease, policy_decision, policy_request,
}
use nexus_os_ai_workspace.Leases.Boundary.Laws.{Sound, validate_lease-Sound}
use nexus_os_ai_workspace.Scheduler.Admission.{AgentIdentity}

abbrev rule : PolicyRule
rule = record {
  rule_id = "r1";
  action_name = "lease:execute";
  resource_type = "*";
  required_role = none;
  required_scope = some "fs.read";
  effect = allow;
}

abbrev snapshot : PolicySnapshot
snapshot = record { policy_version = "1"; policy_hash = "h"; rules = rule ∷ [] }

abbrev lease : ExecutionLeaseHeader
lease = record {
  lease_id = "l1";
  task_id = "t1";
  agent_id = "device";
  tenant_id = "acme";
  issued_at = "";
  expires_at = "..........";
  scopes = "fs.read" ∷ "fs.write" ∷ [];
  signature = "a1b2";
  nonce = some "n1";
  policy_hash = none;
}

abbrev draw : Draw
draw = record { request_uuid = "q"; correlation_uuid = "c"; decision_uuid = "d"; now = 2 }

abbrev secret : Option String
secret = some "0123456789abcdef"

lease_passes :
    validate_lease dot_host true snapshot secret (some lease) none (some "fs.read") draw
    ≡ valid lease
unfolding validate_lease verify_lease_signature utf16_length policy_decision evaluate policy_request
lease_passes = refl

validate_lease-Sound_example :
    (some lease ≡ some lease)
    × ((r : PolicyRule) × Sound dot_host true snapshot secret none (some "fs.read") draw lease r)
validate_lease-Sound_example =
    validate_lease-Sound dot_host true snapshot secret none (some "fs.read") draw (some lease) lease
      lease_passes

abbrev identity : AgentIdentity
identity = record { device_id = "device"; paired_tenant_id = "acme" }

abbrev request : PolicyDecisionRequest
request = record {
  subject = some (record {
    principal = user "u1" "acme" none ("operator" ∷ []);
    tenant_id = "acme";
    issued_at = "";
    expires_at = "...";
    raw_token_hash = "x";
  });
  action = record {
    action_name = "lease:execute";
    required_scope = none;
    required_role = some "operator";
  };
  resource = record { resource_type = "plane"; resource_id = "p"; tenant_id = some "acme" };
  request_id = "q";
  correlation_id = "c";
}

abbrev subject : AuthenticatedContext
subject = record {
  principal = user "u1" "acme" none ("operator" ∷ []);
  tenant_id = "acme";
  issued_at = "";
  expires_at = "...";
  raw_token_hash = "x";
}

request_allowed : (evaluate dot_host false snapshot "d" 2 request).allowed ≡ true
unfolding evaluate utf16_length
request_allowed = refl

evaluate-allowed_example :
    (c : AuthenticatedContext) × (r : PolicyRule) × (find
        (rule_matches request.action request.resource)
        snapshot.rules
      ≡ some r)
    × Permits dot_host false 2 request c r
evaluate-allowed_example = evaluate-allowed dot_host false snapshot "d" 2 request request_allowed

subject_permitted : Permits dot_host false 2 request subject rule
unfolding utf16_length
subject_permitted = record {
  subject = refl;
  unexpired = omega arith;
  tenant = inr refl;
  role = inr refl;
  scope = inl refl;
  effect = refl;
}

evaluate_of_Permits_example : (evaluate dot_host false snapshot "d" 2 request).allowed ≡ true
evaluate_of_Permits_example =
    evaluate_of_Permits dot_host false snapshot "d" 2 request subject rule refl subject_permitted

-- A host that reads only texts of dots as dates.
abbrev strict_host : Host
strict_host = record dot_host { date_ms = λ s. elim (s == "...") [ true ↦ some 3 | false ↦ none ] }

abbrev undated : PolicyDecisionRequest
undated = record request { subject = some (record subject { expires_at = "soon" }) }

evaluate_unreadable_expiry_example :
    evaluate strict_host false snapshot "d" 2 undated
    ≡ evaluate strict_host false snapshot "d" 2 (record undated {
      subject = some (record (record subject { expires_at = "soon" }) { expires_at = "..." });
    })
evaluate_unreadable_expiry_example =
    evaluate_unreadable_expiry strict_host false snapshot "d" 2 undated
      (record subject { expires_at = "soon" }) "..." 3 refl refl refl (omega arith)
