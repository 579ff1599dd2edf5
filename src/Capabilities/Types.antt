-- ===== src/Capabilities/Types.antt =====
-- The data of crates/kanbei-capabilities/src/lib.rs. Resources, verbs, purposes and arguments are
-- compared and never read: a number stands for each, in the order of the texts.
use kanbei.Base.{
  ◌≡◌, refl, ◌⊎◌, inl, inr, ℕ, Bool, true, false, Option, none, some, List, [], ◌∷◌, if◌then◌else◌,
  leb, ◌==◌,
}
use kanbei.Base.Map.{Map}

pub record Principal : Type 0 where
  pub session : ℕ
  pub generation : ℕ
  pub run : Option ℕ

pub record Capability : Type 0 where
  pub resource : ℕ
  pub verbs : List ℕ

-- `Vec::sort`.
unfoldable pub insert_verb : ℕ → List ℕ → List ℕ
insert_verb v [] = v ∷ []
insert_verb v (w ∷ ws) = let rest = insert_verb v ws in if leb v w then v ∷ w ∷ ws else w ∷ rest

unfoldable pub sort_verbs : List ℕ → List ℕ
unfolding insert_verb
sort_verbs [] = []
sort_verbs (v ∷ vs) = insert_verb v (sort_verbs vs)

-- `Vec::dedup`: of equal neighbours one stays.
unfoldable pub dedup : List ℕ → List ℕ
dedup [] = []
dedup (v ∷ []) = v ∷ []
dedup (v ∷ w ∷ ws) = let rest = dedup (w ∷ ws) in if v == w then rest else v ∷ rest

-- `Capability::new`.
unfoldable pub capability : ℕ → List ℕ → Capability
unfolding sort_verbs dedup
capability resource verbs = record { resource = resource; verbs = dedup (sort_verbs verbs) }

pub data TrustClass : Type 0 where
  user : TrustClass
  workspace : TrustClass
  agent : TrustClass
  builtin : TrustClass

-- The derived equality of `TrustClass`.
unfoldable pub class_number : TrustClass → ℕ
class_number TrustClass.user = 0
class_number TrustClass.workspace = 1
class_number TrustClass.agent = 2
class_number TrustClass.builtin = 3

unfoldable pub same_class : TrustClass → TrustClass → Bool
unfolding class_number
same_class c d = class_number c == class_number d

pub data GrantScope : Type 0 where
  run_scope : GrantScope
  session_scope : GrantScope
  project_scope : GrantScope
  standing : GrantScope

unfoldable pub is_standing : GrantScope → Bool
is_standing GrantScope.run_scope = false
is_standing GrantScope.session_scope = false
is_standing GrantScope.project_scope = false
is_standing GrantScope.standing = true

-- `expiry`, `budget` and `purpose` are optional: no expiry, uncounted, none.
pub record Grant : Type 0 where
  pub principal : Principal
  pub module_generation : ℕ
  pub capability : Capability
  pub scope : GrantScope
  pub expiry : Option ℕ
  pub budget : Option ℕ
  pub purpose : Option ℕ
  pub policy_version : ℕ
  pub grant_digest : ℕ

pub record ApprovalIntent : Type 0 where
  pub digest : ℕ
  pub principal : Principal
  pub module_generation : ℕ
  pub action : ℕ
  pub args : ℕ
  pub cwd_env_fingerprint : Option ℕ
  pub scope : GrantScope
  pub expiry : Option ℕ

pub record PolicyTemplate : Type 0 where
  pub trust_class : TrustClass
  pub allow : List Capability
  pub deny : List Capability
  pub require_approval : List Capability
  pub monotonic : Bool
  pub version : ℕ

pub record Effective : Type 0 where
  pub cap : Capability
  pub remaining_budget : Option ℕ
  pub requires_approval : Bool

pub data BrokerError : Type 0 where
  non_monotonic_policy : TrustClass → BrokerError
  no_grant : ℕ → Principal → BrokerError
  denied : ℕ → ℕ → Principal → BrokerError
  expired : ℕ → Principal → BrokerError
  budget_exhausted : ℕ → Principal → BrokerError
  policy_version_mismatch : ℕ → ℕ → BrokerError
  stale_grant : ℕ → BrokerError
  not_approval_gated : ℕ → ℕ → BrokerError
  stale_intent : ℕ → BrokerError
  grants_version_mismatch : ℕ → ℕ → BrokerError
  standing_requires_purpose : ℕ → BrokerError

pub data BrokerResult {ℓ} (A : Type ℓ) : Type ℓ where
  ok : A → BrokerResult A
  err : BrokerError → BrokerResult A

unfoldable pub is_ok {ℓ} : {A : Type ℓ} → BrokerResult A → Bool
is_ok (ok a) = true
is_ok (err e) = false

-- `spent` is the number of calls that succeeded, by the grant's digest.
pub record Broker : Type 0 where
  pub templates : List PolicyTemplate
  pub grants : List Grant
  pub spent : Map ℕ

-- The derived equality of optional runs.
unfoldable pub same_run : Option ℕ → Option ℕ → Bool
same_run none none = true
same_run none (some m) = false
same_run (some n) none = false
same_run (some n) (some m) = n == m

pub Result-cases {ℓ} :
    {A : Type ℓ} (r : BrokerResult A) → ((a : A) × (r ≡ ok a)) ⊎ ((e : BrokerError) × (r ≡ err e))
Result-cases (ok a) = inl (a, refl)
Result-cases (err e) = inr (e, refl)
