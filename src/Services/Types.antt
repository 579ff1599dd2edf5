-- ===== src/Services/Types.antt =====
-- The data of crates/kanbei-services/src/lib.rs. Names and module identities are compared and never read:
-- a number stands for each. A cycle is reported by its keys, which the program displays.
use kanbei.Base.{ℕ, ◌≡◌, refl, ◌↔◌, Bool, true, false, ◌&&◌, List, [], ◌∷◌, ◌==◌, arith}

abbrev pub ScopePath : Type 0
ScopePath = List ℕ

-- `slice::starts_with`, from the prefix.
unfoldable pub is_prefix : List ℕ → List ℕ → Bool
is_prefix [] ys = true
is_prefix (x ∷ xs) [] = false
is_prefix (x ∷ xs) (y ∷ ys) = (x == y) && is_prefix xs ys

-- `is_same_or_ancestor_of`.
abbrev pub is_same_or_ancestor_of : ScopePath → ScopePath → Bool
is_same_or_ancestor_of scope other = is_prefix scope other

pub record ServiceKey : Type 0 where
  pub scope : ScopePath
  pub name : ℕ

-- The derived equalities.
unfoldable pub same_path : List ℕ → List ℕ → Bool
same_path [] [] = true
same_path [] (y ∷ ys) = false
same_path (x ∷ xs) [] = false
same_path (x ∷ xs) (y ∷ ys) = (x == y) && same_path xs ys

unfoldable pub same_key : ServiceKey → ServiceKey → Bool
unfolding same_path
same_key j k = (j.name == k.name) && same_path j.scope k.scope

pub record ServiceContract : Type 0 where
  pub name : ℕ
  pub version : ℕ

pub record ServiceDependency : Type 0 where
  pub key : ServiceKey
  pub required_version : ℕ

pub record ServiceProvider : Type 0 where
  pub module_id : ℕ
  pub generation : ℕ
  pub contract : ServiceContract

unfoldable pub same_provider : ServiceProvider → ServiceProvider → Bool
same_provider p q =
    (p.module_id == q.module_id)
    && (p.generation == q.generation)
    && (p.contract.name == q.contract.name)
    && (p.contract.version == q.contract.version)

pub record ReplaceIntent : Type 0 where
  pub current : ServiceProvider
  pub proposed : ServiceProvider

-- What an `InvalidInput` says.
pub data InputReason : Type 0 where
  name_differs : ℕ → ℕ → InputReason
  proposed_differs : InputReason
  no_holder : ServiceKey → InputReason
  not_published : ServiceKey → InputReason

pub data ServiceError : Type 0 where
  conflict : ServiceKey → ServiceProvider → ServiceProvider → ServiceError
  unresolved : ServiceKey → ℕ → ServiceError
  scope_violation : ServiceKey → ScopePath → ServiceError
  dependency_cycle : List ServiceKey → ServiceError
  dependents_exist : ServiceKey → List ServiceDependency → ServiceError
  not_owner : ServiceKey → ℕ → ServiceError
  version_mismatch : ServiceKey → ℕ → ℕ → ServiceError
  invalid_input : InputReason → ServiceError

pub data ServiceResult {ℓ} (A : Type ℓ) : Type ℓ where
  ok : A → ServiceResult A
  err : ServiceError → ServiceResult A

infixl 5 ◌>>=◌ ◌>>◌
abbrev pub ◌>>=◌ {ℓ κ} :
    {A : Type ℓ} {B : Type κ} → ServiceResult A → (A → ServiceResult B) → ServiceResult B
ok a >>= f = f a
err e >>= f = err e

abbrev pub ◌>>◌ {ℓ} : {B : Type ℓ} → ServiceResult (Unit {0}) → ServiceResult B → ServiceResult B
m >> k = m >>= λ _. k

pub same_path_iff : (xs ys : List ℕ) → (same_path xs ys ≡ true) ↔ (xs ≡ ys)
unfolding same_path
same_path_iff [] [] = ground arith
same_path_iff [] (y ∷ ys) = ground arith
same_path_iff (x ∷ xs) [] = ground arith
same_path_iff (x ∷ xs) (y ∷ ys) = ground (arith, same_path_iff xs ys)

pub same_key_iff : (j k : ServiceKey) → (same_key j k ≡ true) ↔ (j ≡ k)
unfolding same_key
same_key_iff j k = ground (arith, same_path_iff j.scope k.scope)

pub same_key_refl : (k : ServiceKey) → same_key k k ≡ true
same_key_refl k = (same_key_iff k k).1 refl
