-- ===== src/Leases/Scopes.antt =====
-- Scope attenuation: services/backend/src/agents/attenuation.ts. The checks for values that are no
-- arrays or no strings have no counterpart: the model's lists hold texts.
use nexus_os_ai_workspace.Base.{
  String, ◌≡◌, refl, ◌≢◌, ◌↔◌, Bool, true, false, ◌||◌, ◌&&◌, not, List, [], ◌∷◌, ◌++◌, map, arith,
  ◌==◌, eq_iff, if◌then◌else◌, includes, All, trim, ends_with, Bool-cases, inl, inr,
}

pub data ErrorCode : Type 0 where
  empty_parent_scopes empty_child_scopes scope_amplification_forbidden : ErrorCode

pub data AttenuationResult : Type 0 where
  valid : AttenuationResult
  invalid : (unauthorized_scopes : List String) → ErrorCode → AttenuationResult

-- One round of the loop: what it appends to the unauthorized scopes.
unfoldable pub unauthorized_of : List String → String → List String
unauthorized_of parent_set scope =
    let trimmed = trim scope in
    if trimmed == ""
    then scope ∷ []
    else if (trimmed == "*" || ends_with trimmed ".*" || ends_with trimmed ":*")
        && not (includes trimmed parent_set)
    then trimmed ∷ []
    else if not (includes trimmed parent_set)
    then trimmed ∷ []
    else []

unfoldable pub unauthorized : List String → List String → List String
unfolding unauthorized_of
unauthorized parent_set [] = []
unauthorized parent_set (s ∷ ss) = unauthorized_of parent_set s ++ unauthorized parent_set ss

abbrev judge : List String → AttenuationResult
judge [] = valid
judge (u ∷ us) = invalid (u ∷ us) scope_amplification_forbidden

unfoldable pub verify_scope_attenuation : List String → List String → AttenuationResult
unfolding unauthorized
verify_scope_attenuation [] child = invalid child empty_parent_scopes
verify_scope_attenuation (p ∷ ps) [] = invalid [] empty_child_scopes
verify_scope_attenuation (p ∷ ps) (c ∷ cs) = judge (unauthorized (map trim (p ∷ ps)) (c ∷ cs))

abbrev pub is_valid : AttenuationResult → Bool
is_valid valid = true
is_valid (invalid us e) = false

-- A scope is granted: it is not blank, and without the space around it it is a scope of the parent.
abbrev pub Granted : List String → String → Type 0
Granted parent scope = (trim scope ≢ "") × (includes (trim scope) (map trim parent) ≡ true)

unauthorized_of_iff :
    (parent : List String) (s : String)
    → (unauthorized_of (map trim parent) s ≡ []) ↔ Granted parent s
unfolding unauthorized_of
unauthorized_of_iff parent s = (
  λ h. (ground (arith, eq_iff (trim s) ""), ground (arith, eq_iff (trim s) "")),
  λ h. ground (arith, eq_iff (trim s) ""),
)

append-eq-nil : (xs ys : List String) → xs ++ ys ≡ [] → (xs ≡ []) × (ys ≡ [])
append-eq-nil [] ys h = (refl, h)
append-eq-nil (x ∷ xs) ys h = cc

unauthorized_iff :
    (parent ss : List String) → (unauthorized (map trim parent) ss ≡ []) ↔ All (Granted parent) ss
unfolding unauthorized
unauthorized_iff parent [] = (λ h. tt, λ h. refl)
unauthorized_iff parent (s ∷ ss) =
    let one = unauthorized_of_iff parent s in
    let rest = unauthorized_iff parent ss in
    (
      λ h.
          let (a, b) = append-eq-nil (unauthorized_of (map trim parent) s) _ h in
          (one.0 a, rest.0 b),
      λ h. rw (one.1 h.0, rest.1 h.1),
    )

judge_iff : (us : List String) → (is_valid (judge us) ≡ true) ↔ (us ≡ [])
judge_iff [] = (λ h. refl, λ h. refl)
judge_iff (u ∷ us) = (λ h. cc, λ h. cc)

-- Attenuation succeeds exactly when both sides have scopes and each scope asked for is granted by
-- the parent. Wildcards get no special right: `*` is granted only by a parent that lists `*`.
pub attenuation_iff :
    (parent child : List String)
    → (is_valid (verify_scope_attenuation parent child) ≡ true)
      ↔ ((parent ≢ []) × (child ≢ []) × All (Granted parent) child)
unfolding verify_scope_attenuation
attenuation_iff [] child = (λ h. cc, λ h. absurd (h.0 refl))
attenuation_iff (p ∷ ps) [] = (λ h. cc, λ h. absurd (h.1 refl))
attenuation_iff (p ∷ ps) (c ∷ cs) =
    let us = unauthorized_iff (p ∷ ps) (c ∷ cs) in
    let j = judge_iff (unauthorized (map trim (p ∷ ps)) (c ∷ cs)) in
    (λ h. (λ e. cc, λ e. cc, us.0 (j.0 h)), λ h. j.1 (us.1 h.2))

-- A grant of a granted scope is a grant: attenuation is transitive.
pub Granted-trans :
    (parent child : List String) (s : String)
    → All (Granted parent) child
    → Granted child s
    → Granted parent s
Granted-trans parent [] s all g = cc (g.1)
Granted-trans parent (c ∷ cs) s all g = elim (Bool-cases (trim c == trim s)) [
  | inl same ↦ (g.0, rw (← (eq_iff (trim c) (trim s)).0 same) all.0.1)
  | inr other ↦ Granted-trans parent cs s all.1 (g.0, rw other at g.1)
]

pub All-Granted_trans :
    (parent child ss : List String)
    → All (Granted parent) child
    → All (Granted child) ss
    → All (Granted parent) ss
All-Granted_trans parent child [] all g = tt
All-Granted_trans parent child (s ∷ ss) all g =
    (Granted-trans parent child s all g.0, All-Granted_trans parent child ss all g.1)
