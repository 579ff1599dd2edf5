-- ===== src/Services/Registry/Replacement.antt =====
-- `replacement::plan_replacement` of crates/kanbei-services/src/lib.rs: the dependents of a service that is replaced.
use kanbei.Base.{
  ℕ, ◌≡◌, refl, sym, subst, ◌⊎◌, inl, inr, none, some, List, [], ◌∷◌, ◌++◌, if◌then◌else◌, ◌==◌,
  not, Bool, true, false, All, Option-cases, Bool-cases, arith,
}
use kanbei.Base.Sorting.{sort_by, All-of-sort_by}
use kanbei.Services.Types.{
  ServiceKey, ServiceDependency, ServiceProvider, ServiceResult, ok, err, unresolved, same_key,
  ◌>>◌,
}
use kanbei.Services.KeyMap.{get}
use kanbei.Services.Registry.Graph.{Dependencies}
use kanbei.Services.Registry.Ops.{
  ServiceRegistry, deps_of, dependents_of, edges_to, all_edges_to, remove_held, remove,
}

pub record ReplacementPlan : Type 0 where
  pub rebind : List ServiceKey
  pub restart : List ServiceKey

unfoldable pub divide : ℕ → List ServiceDependency → ReplacementPlan
divide version [] = record { rebind = []; restart = [] }
divide version (d ∷ ds) =
    let rest = divide version ds in
    if d.required_version == version
    then record { rebind = d.key ∷ rest.rebind; restart = rest.restart }
    else record { rebind = rest.rebind; restart = d.key ∷ rest.restart }

-- The inner loop: the dependencies of one dependent that restarts.
unfoldable pub check_other :
    ServiceRegistry → ServiceKey → ServiceDependency → ServiceResult {0} Unit
unfolding get
check_other r dependent d = elim (get d.key r.holders) [
  | none ↦ err (unresolved dependent d.required_version)
  | some p ↦
      if not (p.contract.version == d.required_version)
      then err (unresolved dependent d.required_version)
      else ok tt
]

unfoldable pub check_others :
    ServiceRegistry → ServiceKey → ServiceKey → List ServiceDependency → ServiceResult {0} Unit
unfolding check_other same_key
check_others r key dependent [] = ok tt
check_others r key dependent (d ∷ ds) =
    let rest = check_others r key dependent ds in
    if same_key d.key key then rest else check_other r dependent d >> rest

unfoldable pub check_restarts :
    ServiceRegistry → ServiceKey → List ServiceKey → ServiceResult {0} Unit
unfolding check_others deps_of
check_restarts r key [] = ok tt
check_restarts r key (k ∷ ks) = check_others r key k (deps_of r k) >> check_restarts r key ks

Both-ok {ℓ} :
    {A : Type ℓ} {a : A} (m : ServiceResult {0} Unit) (n : ServiceResult A)
    → (m >> n) ≡ ok a
    → (m ≡ ok tt) × (n ≡ ok a)
Both-ok (ok tt) n h = (refl, h)
Both-ok (err e) n h = absurd (cc)

++-none {ℓ} : {A : Type ℓ} (xs ys : List A) → xs ++ ys ≡ [] → (xs ≡ []) × (ys ≡ [])
++-none [] ys h = (refl, h)
++-none (x ∷ xs) ys h = absurd (cc)

ok-inj {ℓ} : {A : Type ℓ} {a b : A} → ok a ≡ ok b → a ≡ b
ok-inj h = cc

All-absurd : (ds : List ServiceDependency) → All (λ _. true ≡ false) ds → ds ≡ []
All-absurd [] h = refl
All-absurd (d ∷ ds) h = absurd (cc)

-- The dependency is on the replaced key, or resolves.
unfoldable pub Rebound : ServiceRegistry → ServiceKey → ServiceDependency → Type 0
Rebound r key d =
    (same_key d.key key ≡ true)
    ⊎ ((p : ServiceProvider) × (get d.key r.holders ≡ some p)
        × (p.contract.version ≡ d.required_version))

check_other-ok :
    (r : ServiceRegistry) (key dependent : ServiceKey) (d : ServiceDependency)
    → check_other r dependent d ≡ ok tt
    → Rebound r key d
unfolding check_other Rebound
check_other-ok r key dependent d h = elim (Option-cases (get d.key r.holders)) [
  | inl e ↦ absurd (ground (arith, e, h))
  | inr (p, e) ↦ inr (p, e, ground (arith, e, h))
]

All-Rebound :
    (r : ServiceRegistry) (key dependent : ServiceKey) (ds : List ServiceDependency)
    → check_others r key dependent ds ≡ ok tt
    → All (Rebound r key) ds
unfolding check_others Rebound
All-Rebound r key dependent [] h = tt
All-Rebound r key dependent (d ∷ ds) h = elim (Bool-cases (same_key d.key key)) [
  | inl e ↦ (inl e, All-Rebound r key dependent ds (rw (e, check_others) at h))
  | inr e ↦
      let (f, g) =
        Both-ok (check_other r dependent d) (check_others r key dependent ds)
          (rw (e, check_others) at h) in
      (check_other-ok r key dependent d f, All-Rebound r key dependent ds g)
]

All-restarts :
    (r : ServiceRegistry) (key : ServiceKey) (ks : List ServiceKey)
    → check_restarts r key ks ≡ ok tt
    → All (λ k. All (Rebound r key) (deps_of r k)) ks
unfolding check_restarts
All-restarts r key [] h = tt
All-restarts r key (k ∷ ks) h =
    let (f, g) = Both-ok (check_others r key k (deps_of r k)) (check_restarts r key ks) h in
    (All-Rebound r key k (deps_of r k) f, All-restarts r key ks g)

edges_to-none :
    (k j : ServiceKey) (ds : List ServiceDependency)
    → edges_to k j ds ≡ []
    → All (λ d. same_key d.key k ≡ false) ds
unfolding edges_to
edges_to-none k j [] h = tt
edges_to-none k j (d ∷ ds) h = ground (arith, h, edges_to-none k j ds)

all_edges_to-none :
    (k j : ServiceKey) (m : Dependencies) (ds : List ServiceDependency)
    → all_edges_to k m ≡ []
    → get j m ≡ some ds
    → All (λ d. same_key d.key k ≡ false) ds
unfolding all_edges_to get
all_edges_to-none k j [] ds h e = absurd (cc)
all_edges_to-none k j ((i, es) ∷ m) ds h e = elim (Bool-cases (same_key i j)) [
  | inl s ↦
      subst (All (λ d. same_key d.key k ≡ false)) {x = es} (ground (arith, s, e))
        (edges_to-none k i es (++-none (edges_to k i es) (all_edges_to k m) h).0)
  | inr s ↦
      all_edges_to-none k j m ds (++-none (edges_to k i es) (all_edges_to k m) h).1
        (ground (arith, s, e))
]

module _ (before : ServiceKey → ServiceKey → Bool) where
  unfoldable pub plan_replacement :
      ServiceRegistry → ServiceKey → ServiceProvider → ServiceResult ReplacementPlan
  unfolding divide check_restarts dependents_of
  plan_replacement r key new_provider =
      let plan = divide new_provider.contract.version (dependents_of before r key) in
      check_restarts r key plan.restart >> ok plan

  -- A plan: each dependent that restarts has its other dependencies held, in the versions it requires.
  pub plan_replacement-Rebound :
      (r : ServiceRegistry) (key : ServiceKey) (new_provider : ServiceProvider)
      (plan : ReplacementPlan)
      → plan_replacement r key new_provider ≡ ok plan
      → All (λ k. All (Rebound r key) (deps_of r k)) plan.restart
  unfolding plan_replacement
  plan_replacement-Rebound r key new_provider plan h =
      let made = divide new_provider.contract.version (dependents_of before r key) in
      let (f, g) = Both-ok {A = ReplacementPlan} (check_restarts r key made.restart) (ok made) h in
      subst (λ p. All (λ k. All (Rebound r key) (deps_of r k)) p.restart) (ok-inj g)
        (All-restarts r key made.restart f)

  remove_held-ok :
      (k : ServiceKey) (module_id : ℕ) (p : ServiceProvider) (ds : List ServiceDependency)
      (r : ServiceRegistry)
      → (remove_held before k module_id p ds r).1 ≡ ok tt
      → (ds ≡ []) × (p.module_id ≡ module_id)
  unfolding remove_held
  remove_held-ok k module_id p [] r h = (refl, ground (arith, h))
  remove_held-ok k module_id p (d ∷ ds) r h = absurd (ground (arith, h))

  sort_by-none :
      (ds : List ServiceDependency)
      → sort_by (λ (a : ServiceDependency) b. before a.key b.key) ds ≡ []
      → ds ≡ []
  sort_by-none ds h = All-absurd ds (
      All-of-sort_by (λ (a : ServiceDependency) b. before a.key b.key) (λ _. true ≡ false) ds
        (subst (All (λ _. true ≡ false)) (sym h) tt))

  -- A removal that succeeds: the key was published by the module, and no published service depends on it.
  pub remove-unused :
      (k : ServiceKey) (module_id : ℕ) (r : ServiceRegistry)
      → (remove before k module_id r).1 ≡ ok tt
      → ((p : ServiceProvider) × (get k r.holders ≡ some p) × (p.module_id ≡ module_id))
        × ((j : ServiceKey) (ds : List ServiceDependency)
            → get j r.deps ≡ some ds
            → All (λ d. same_key d.key k ≡ false) ds)
  unfolding remove dependents_of
  remove-unused k module_id r h = elim (Option-cases (get k r.holders)) [
    | inl e ↦ absurd (ground (arith, e, h))
    | inr (p, e) ↦
        let (f, g) =
          remove_held-ok k module_id p (dependents_of before r k) r (rw (e, remove) at h) in
        (
          (p, e, g),
          λ j ds there.
              all_edges_to-none k j r.deps ds (sort_by-none (all_edges_to k r.deps) f) there,
        )
  ]
