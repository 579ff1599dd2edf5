-- ===== src/Capabilities/Recheck.antt =====
-- Verification at dispatch in crates/kanbei-capabilities/src/lib.rs.
use kanbei.Base.{ℕ, ◌≡◌, inl, inr, true, false, some, length, All, arith, Option-cases}
use kanbei.Capabilities.Types.{Grant, ApprovalIntent, Broker, ok}
use kanbei.Capabilities.Policy.{denies, policy_version}
use kanbei.Capabilities.Grants.{is_expired, find_grant, spent_of, validate, grants_version}
use kanbei.Capabilities.Check.{over_budget, recheck_grant, recheck}
use kanbei.Capabilities.Authority.{first_denied-none}

-- What a recheck that passes has seen.
pub record Dispatchable (derive : Grant → ℕ) (derive_intent : ApprovalIntent → ℕ) (b : Broker)
    (intent : ApprovalIntent) (version policy now later : ℕ) : Type 0 where
  pub grant : Grant
  pub untampered : derive_intent intent ≡ intent.digest
  pub unexpired : is_expired intent.expiry now ≡ false
  pub current : policy ≡ policy_version b.templates
  pub same_grants : version ≡ length b.grants
  pub found : find_grant intent.principal intent.action b.grants ≡ some grant
  pub valid : validate derive grant ≡ true
  pub fresh : is_expired grant.expiry later ≡ false
  pub funded : over_budget grant.budget (spent_of b grant) ≡ false
  pub allowed : All (λ v. denies b.templates intent.action v ≡ false) grant.capability.verbs

module _ (derive : Grant → ℕ) (derive_intent : ApprovalIntent → ℕ) where
  -- An intent passes the recheck at dispatch only if it is untampered and unexpired, neither the policy
  -- nor the number of grants has moved from the versions named, and the caller's grant is still there,
  -- valid, unexpired, within its budget, and no template denies one of its verbs.
  pub recheck-Dispatchable :
      (b : Broker) (intent : ApprovalIntent) (version policy now later : ℕ)
      → recheck derive derive_intent b intent version policy now later ≡ ok tt
      → Dispatchable derive derive_intent b intent version policy now later
  unfolding recheck recheck_grant grants_version
  recheck-Dispatchable b intent version policy now later h =
      elim (Option-cases (find_grant intent.principal intent.action b.grants)) [
        | inl missing ↦ absurd (ground (arith, h, missing))
        | inr (g, found) ↦ record {
          grant = g;
          untampered = ground (arith, h);
          unexpired = ground (arith, h);
          current = ground (arith, h);
          same_grants = ground (arith, h);
          found = found;
          valid = ground (arith, h, found);
          fresh = ground (arith, h, found);
          funded = ground (arith, h, found);
          allowed =
              first_denied-none b.templates intent.action g.capability.verbs
                (ground (arith, h, found));
        }
      ]
