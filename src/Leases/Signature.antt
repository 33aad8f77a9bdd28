-- ===== src/Leases/Signature.antt =====
-- Lease signatures: the four functions at the top of services/backend/src/leases/lease-issuer.ts.
use Prim.Native.Char.{code}
use text.Mathlib.TextLemmas.{append_assoc}
use nexus_os_ai_workspace.Base.{
  ℕ, ◌+◌, ◌*◌, ◌-◌, String, ◌≡◌, refl, ap, sym, Bool, true, false, ◌&&◌, Option, none, some, List,
  [], ◌∷◌, if◌then◌else◌, eqb, leb, get_or, join, decimal, ◌⊕◌, utf16_length, arith, eqb_iff,
}
use nexus_os_ai_workspace.Host.{Host}
use nexus_os_ai_workspace.Leases.Types.{ExecutionLeaseHeader, DelegatedLeaseHeader}

-- The value of a hexadecimal digit, in either case.
abbrev hex_value : ℕ → Option ℕ
hex_value c =
    if leb b'0' c && leb c b'9'
    then some (c - b'0')
    else if leb b'a' c && leb c b'f'
    then some (c - 87)
    else if leb b'A' c && leb c b'F'
    then some (c - 55)
    else none

abbrev push_byte : Option ℕ → Option ℕ → List ℕ → List ℕ
push_byte (some hi) (some lo) rest = (16 * hi + lo) ∷ rest
push_byte _ _ rest = []

-- `Buffer.from(text, 'hex')`: pairs of digits up to the first that is none.
unfoldable pub hex_bytes : String → List ℕ
hex_bytes String.[] = []
hex_bytes (String.◌∷◌ c String.[]) = []
hex_bytes (String.◌∷◌ c (String.◌∷◌ d s)) =
    push_byte (hex_value (code c)) (hex_value (code d)) (hex_bytes s)

unfoldable pub same_bytes : List ℕ → List ℕ → Bool
same_bytes [] [] = true
same_bytes (a ∷ as') (b ∷ bs) = eqb a b && same_bytes as' bs
same_bytes _ _ = false

unfoldable pub lease_payload : ExecutionLeaseHeader → String
lease_payload l = join ":" (
    l.lease_id
    ∷ l.task_id
    ∷ l.agent_id
    ∷ l.tenant_id
    ∷ l.issued_at
    ∷ l.expires_at
    ∷ join "," l.scopes
    ∷ get_or l.nonce ""
    ∷ get_or l.policy_hash ""
    ∷ [])

unfoldable pub delegated_payload : DelegatedLeaseHeader → String
unfolding decimal
delegated_payload l = join ":" (
    l.base.lease_id
    ∷ l.base.task_id
    ∷ l.base.agent_id
    ∷ l.base.tenant_id
    ∷ l.parent_lease_id
    ∷ l.parent_task_id
    ∷ decimal l.delegation_depth
    ∷ l.workspace_id
    ∷ l.base.issued_at
    ∷ l.base.expires_at
    ∷ join "," l.base.scopes
    ∷ get_or l.base.nonce ""
    ∷ get_or l.base.policy_hash ""
    ∷ [])

unfoldable pub compute_lease_signature : Host → ExecutionLeaseHeader → String → String
unfolding lease_payload
compute_lease_signature host l secret = host.hmac_hex secret (lease_payload l)

unfoldable pub compute_delegated_signature : Host → DelegatedLeaseHeader → String → String
unfolding delegated_payload
compute_delegated_signature host l secret = host.hmac_hex secret (delegated_payload l)

-- The comparison: the same length as texts, then the same bytes. `timingSafeEqual` throws on byte
-- strings of different lengths, and the handler returns false.
unfoldable pub signature_matches : String → String → Bool
unfolding same_bytes hex_bytes
signature_matches signature expected =
    eqb (utf16_length signature) (utf16_length expected)
    && same_bytes (hex_bytes signature) (hex_bytes expected)

unfoldable pub verify_lease_signature : Host → ExecutionLeaseHeader → String → Bool
unfolding signature_matches compute_lease_signature
verify_lease_signature host l secret =
    signature_matches l.signature (compute_lease_signature host l secret)

unfoldable pub verify_delegated_signature : Host → DelegatedLeaseHeader → String → Bool
unfolding signature_matches compute_delegated_signature
verify_delegated_signature host l secret =
    signature_matches l.base.signature (compute_delegated_signature host l secret)

same_bytes_refl : (bs : List ℕ) → same_bytes bs bs ≡ true
unfolding same_bytes
same_bytes_refl [] = refl
same_bytes_refl (b ∷ bs) = ground (arith, same_bytes_refl bs)

pub signature_matches_refl : (s : String) → signature_matches s s ≡ true
unfolding signature_matches
signature_matches_refl s =
    ground (arith, same_bytes_refl (hex_bytes s), eqb_iff (utf16_length s) (utf16_length s))

-- A header signed with a secret verifies under it.
pub verify-signed :
    (host : Host) (l : ExecutionLeaseHeader) (secret : String)
    → verify_lease_signature host
        (record l { signature = compute_lease_signature host l secret })
        secret
      ≡ true
unfolding verify_lease_signature
verify-signed host l secret = signature_matches_refl (compute_lease_signature host l secret)

pub verify_delegated-signed :
    (host : Host) (l : DelegatedLeaseHeader) (secret : String)
    → verify_delegated_signature host
        (record l {
          base = record l.base { signature = compute_delegated_signature host l secret };
        })
        secret
      ≡ true
unfolding verify_delegated_signature
verify_delegated-signed host l secret =
    signature_matches_refl (compute_delegated_signature host l secret)

join_comma :
    (a b : String) (ss : List String) → join "," (a ∷ b ∷ ss) ≡ join "," (◌⊕◌ a (◌⊕◌ "," b) ∷ ss)
unfolding join
join_comma a b [] = refl
join_comma a b (c ∷ ss) = simp append_assoc

payload_comma :
    (l : ExecutionLeaseHeader) (a b : String) (ss : List String)
    → lease_payload (record l { scopes = ◌⊕◌ a (◌⊕◌ "," b) ∷ ss })
      ≡ lease_payload (record l { scopes = a ∷ b ∷ ss })
unfolding lease_payload
payload_comma l a b ss = ap payload (sym (join_comma a b ss))
  where
    payload : String → String
    payload scopes = join ":" (
        l.lease_id
        ∷ l.task_id
        ∷ l.agent_id
        ∷ l.tenant_id
        ∷ l.issued_at
        ∷ l.expires_at
        ∷ scopes
        ∷ get_or l.nonce ""
        ∷ get_or l.policy_hash ""
        ∷ [])

-- The signature does not tell two scopes from one scope with a comma between: a lease that was
-- signed for the scope `a,b` verifies as a lease for `a` and `b`.
pub verify-comma :
    (host : Host) (l : ExecutionLeaseHeader) (secret a b : String) (ss : List String)
    → verify_lease_signature host (record l { scopes = ◌⊕◌ a (◌⊕◌ "," b) ∷ ss }) secret
      ≡ verify_lease_signature host (record l { scopes = a ∷ b ∷ ss }) secret
unfolding verify_lease_signature
verify-comma host l secret a b ss =
    ap (λ p. signature_matches l.signature (host.hmac_hex secret p)) (payload_comma l a b ss)
