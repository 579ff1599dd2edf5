-- ===== src/Capabilities/Examples.antt =====
-- The broker of crates/kanbei-capabilities/src/lib.rs on a concrete policy and grant: resource 7, of
-- which verb 1 is allowed, and resource 8, of which verb 2 is denied.
use kanbei.Base.{ℕ, ◌+◌, ◌≡◌, ◌≤◌, refl, true, none, some, [], ◌∷◌, arith, any}
use kanbei.Base.Map.{lookup}
use kanbei.Capabilities.Types.{
  Principal, Capability, Grant, GrantScope, ApprovalIntent, PolicyTemplate, TrustClass, Broker,
  same_run, sort_verbs, insert_verb, dedup, capability, class_number, same_class,
}
use kanbei.Capabilities.Policy.{
  denies, allows, gates, lists, subset, keeps, template_grows, put_template, add_template,
  policy_version,
}
use kanbei.Capabilities.Grants.{is_expired, covers, find_grant, grants_version, spent_of, validate}
use kanbei.Capabilities.Check.{
  remaining, is_zero, decrement, first_denied, cover, check_verbs, check_grant, check, over_budget,
  recheck_grant, recheck,
}
use kanbei.Capabilities.Monotone.{add_template-denies}
use kanbei.Capabilities.Authority.{Granted, check-Granted}
use kanbei.Capabilities.Budget.{Request, uses, count_at, uses-bounded}
use kanbei.Capabilities.Recheck.{Dispatchable, recheck-Dispatchable}

abbrev caller : Principal
caller = record { session = 5; generation = 3; run = some 9 }

abbrev grant : Grant
grant = record {
  principal = record { session = 5; generation = 3; run = none };
  module_generation = 3;
  capability = record { resource = 7; verbs = 1 ∷ 2 ∷ [] };
  scope = GrantScope.session_scope;
  expiry = some 1000;
  budget = some 2;
  purpose = none;
  policy_version = 1;
  grant_digest = 42;
}

abbrev template : PolicyTemplate
template = record {
  trust_class = TrustClass.agent;
  allow = record { resource = 7; verbs = 1 ∷ [] } ∷ [];
  deny = record { resource = 8; verbs = 2 ∷ [] } ∷ [];
  require_approval = record { resource = 7; verbs = 1 ∷ [] } ∷ [];
  monotonic = true;
  version = 4;
}

abbrev grown : PolicyTemplate
grown = record template { deny = record { resource = 8; verbs = 2 ∷ 3 ∷ [] } ∷ []; version = 5 }

abbrev broker : Broker
broker = record { templates = template ∷ []; grants = grant ∷ []; spent = [] }

abbrev want : Capability
want = record { resource = 7; verbs = 1 ∷ [] }

abbrev intent : ApprovalIntent
intent = record {
  digest = 77;
  principal = caller;
  module_generation = 3;
  action = 7;
  args = 0;
  cwd_env_fingerprint = none;
  scope = GrantScope.run_scope;
  expiry = none;
}

abbrev derive : Grant → ℕ
derive g = 42

abbrev derive_intent : ApprovalIntent → ℕ
derive_intent i = 77

add_template-denies_example : denies (add_template grown broker).0.templates 8 2 ≡ true
unfolding denies lists any subset keeps template_grows put_template add_template class_number
    same_class
add_template-denies_example = add_template-denies grown broker 8 2 ((λ h. refl), tt) refl refl

check-Granted_example :
    Granted derive broker caller want 4 100
      (record { cap = want; remaining_budget = some 1; requires_approval = true })
unfolding denies allows gates lists any policy_version is_expired same_run covers find_grant
    spent_of validate remaining is_zero decrement first_denied cover check_verbs check_grant check
    lookup capability sort_verbs insert_verb dedup
check-Granted_example =
    check-Granted derive broker caller want 4 100
      (record { cap = want; remaining_budget = some 1; requires_approval = true }) refl

abbrev request : Request
request = record { principal = caller; want = want; policy = 4; now = 100 }

uses-bounded_example :
    uses derive 42 (request ∷ request ∷ request ∷ []) broker + count_at 42 broker ≤ 2
unfolding count_at lookup
uses-bounded_example =
    uses-bounded derive 42 2 (request ∷ request ∷ request ∷ []) broker ((λ h. refl), tt)
      (omega arith)

recheck-Dispatchable_example : Dispatchable derive derive_intent broker intent 1 4 100 101
unfolding denies lists any policy_version is_expired same_run covers find_grant spent_of validate
    first_denied grants_version over_budget recheck_grant recheck lookup
recheck-Dispatchable_example =
    recheck-Dispatchable derive derive_intent broker intent 1 4 100 101 refl
