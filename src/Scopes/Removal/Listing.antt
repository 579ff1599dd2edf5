-- ===== src/Scopes/Removal/Listing.antt =====
-- The lists that `remove_scope` of crates/kanbei-scopes/src/registry.rs makes of the published services.
use kanbei.Base.{
  ◌+◌, ◌≡◌, refl, ap, subst, ◌∙◌, ◌⊎◌, inl, inr, Bool, true, false, ◌||◌, none, some, List, [], ◌∷◌,
  map, length, All, Bool-cases, is_some, arith,
}
use kanbei.Base.Sorting.{insert_by, sort_by}
use kanbei.Base.Ranking.{filter}
use kanbei.Services.Types.{ServiceKey, ServiceDependency, ServiceProvider, same_key, same_key_iff}
use kanbei.Services.KeyMap.{KeyMap, get}
use kanbei.Services.Registry.Ops.{ServiceRegistry, with_deps}
use kanbei.Scopes.Removal.{Service, has_key, find_service, reversed}
use kanbei.Services.Unique.{IsUnique}
use kanbei.Scopes.Removal.Emptying.{IsOnce}

abbrev pub names : List Service → List ServiceKey
names = map (λ (e : Service). e.0)

has_key-insert_by :
    (before : Service → Service → Bool) (k : ServiceKey) (x : Service) (ys : List Service)
    → has_key k (names (insert_by before x ys)) ≡ (same_key x.0 k || has_key k (names ys))
unfolding has_key insert_by
has_key-insert_by before k x [] = refl
has_key-insert_by before k x (y ∷ ys) = ground (arith, has_key-insert_by before k x ys)

insert_by-IsOnce :
    (before : Service → Service → Bool) (x : Service) (ys : List Service)
    → has_key x.0 (names ys) ≡ false
    → IsOnce (names ys)
    → IsOnce (names (insert_by before x ys))
unfolding has_key insert_by
insert_by-IsOnce before x [] h u = (refl, tt)
insert_by-IsOnce before x (y ∷ ys) h u = elim (Bool-cases (before x y)) [
  | inl e ↦ rw (e, insert_by) (h, u)
  | inr e ↦
      rw (e, insert_by)
        (
          ground (
            arith,
            h,
            u.0,
            has_key-insert_by before y.0 x ys,
            same_key_iff x.0 y.0,
            same_key_iff y.0 x.0,
          ),
          insert_by-IsOnce before x ys (ground (arith, h)) u.1,
        )
]

pub has_key-sort_by :
    (before : Service → Service → Bool) (k : ServiceKey) (xs : List Service)
    → has_key k (names (sort_by before xs)) ≡ has_key k (names xs)
unfolding sort_by has_key
has_key-sort_by before k [] = refl
has_key-sort_by before k (x ∷ xs) =
    has_key-insert_by before k x (sort_by before xs)
    ∙ ap (λ b. same_key x.0 k || b) (has_key-sort_by before k xs)

pub sort_by-IsOnce :
    (before : Service → Service → Bool) (xs : List Service)
    → IsOnce (names xs)
    → IsOnce (names (sort_by before xs))
unfolding sort_by
sort_by-IsOnce before [] u = tt
sort_by-IsOnce before (x ∷ xs) u =
    insert_by-IsOnce before x (sort_by before xs) (has_key-sort_by before x.0 xs ∙ u.0)
      (sort_by-IsOnce before xs u.1)

module _ (keep : Service → Bool) where
  has_key-filter :
      (k : ServiceKey) (xs : List Service)
      → has_key k (names xs) ≡ false
      → has_key k (names (filter keep xs)) ≡ false
  unfolding has_key filter
  has_key-filter k [] h = refl
  has_key-filter k (x ∷ xs) h = elim (Bool-cases (keep x)) [
    | inl e ↦ rw (e, filter) (ground (arith, h, has_key-filter k xs))
    | inr e ↦ rw (e, filter) (has_key-filter k xs (ground (arith, h)))
  ]

  pub filter-IsOnce : (xs : List Service) → IsOnce (names xs) → IsOnce (names (filter keep xs))
  unfolding filter
  filter-IsOnce [] u = tt
  filter-IsOnce (x ∷ xs) u = elim (Bool-cases (keep x)) [
    | inl e ↦ rw (e, filter) (has_key-filter x.0 xs u.0, filter-IsOnce xs u.1)
    | inr e ↦ rw (e, filter) (filter-IsOnce xs u.1)
  ]

  pub All-names :
      (P : ServiceKey → Type 0) (xs : List Service)
      → All (λ e. P e.0) xs
      → All P (names (filter keep xs))
  unfolding filter
  All-names P [] h = tt
  All-names P (x ∷ xs) h = elim (Bool-cases (keep x)) [
    | inl e ↦ rw (e, filter) (h.0, All-names P xs h.1)
    | inr e ↦ rw (e, filter) (All-names P xs h.1)
  ]

module _ (s : ServiceRegistry) where
  pub All-with_deps :
      (P : ServiceKey → ServiceProvider → Type 0) (m : KeyMap ServiceProvider)
      → All (λ e. P e.0 e.1) m
      → All (λ (e : Service). P e.0 e.1) (with_deps s m)
  unfolding with_deps
  All-with_deps P [] h = tt
  All-with_deps P ((k, p) ∷ m) h = (h.0, All-with_deps P m h.1)

  with_deps-absent :
      (k : ServiceKey) (m : KeyMap ServiceProvider)
      → All (λ e. same_key k e.0 ≡ false) m
      → has_key k (names (with_deps s m)) ≡ false
  unfolding with_deps has_key
  with_deps-absent k [] h = refl
  with_deps-absent k ((j, p) ∷ m) h =
      ground (arith, h.0, same_key_iff k j, same_key_iff j k, with_deps-absent k m h.1)

  pub with_deps-IsOnce : (m : KeyMap ServiceProvider) → IsUnique m → IsOnce (names (with_deps s m))
  unfolding with_deps
  with_deps-IsOnce [] u = tt
  with_deps-IsOnce ((k, p) ∷ m) u = (with_deps-absent k m u.0, with_deps-IsOnce m u.1)

  pub with_deps-none :
      (k : ServiceKey) (m : KeyMap ServiceProvider)
      → All (λ (e : Service). same_key e.0 k ≡ false) (with_deps s m)
      → get k m ≡ none
  unfolding with_deps get
  with_deps-none k [] h = refl
  with_deps-none k ((j, p) ∷ m) h = ground (arith, h.0, with_deps-none k m h.1)

some-inj {ℓ} : {A : Type ℓ} {a b : A} → some a ≡ some b → a ≡ b
some-inj h = cc

pub find_service-cases :
    (P : ServiceKey → ServiceProvider → Type 0) (k : ServiceKey) (all : List Service)
    → All (λ (e : Service). P e.0 e.1) all
    → All (λ (e : Service). same_key e.0 k ≡ false) all
      ⊎ ((p : ServiceProvider) × (ds : List ServiceDependency) × (find_service k all ≡ some (p, ds))
          × P k p)
unfolding find_service
find_service-cases P k [] h = inl tt
find_service-cases P k ((j, p, ds) ∷ all) h = elim (Bool-cases (same_key j k)) [
  | inl e ↦ inr (p, ds, rw (e, find_service) refl, subst (λ i. P i p) ((same_key_iff j k).0 e) h.0)
  | inr e ↦ elim (find_service-cases P k all h.1) [
    | inl f ↦ inl (e, f)
    | inr (q, es, f, g) ↦ inr (q, es, rw (e, find_service) f, g)
  ]
]

pub reversed-has_key :
    (k : ServiceKey) (ks done : List ServiceKey)
    → has_key k (reversed ks done) ≡ (has_key k ks || has_key k done)
unfolding reversed has_key
reversed-has_key k [] done = refl
reversed-has_key k (j ∷ ks) done = ground (arith, reversed-has_key k ks (j ∷ done))

pub length-reversed :
    (ks done : List ServiceKey) → length (reversed ks done) ≡ length ks + length done
unfolding reversed
length-reversed [] done = omega arith
length-reversed (k ∷ ks) done = omega (arith, length-reversed ks (k ∷ done))

pub has_key-kept :
    (keep : Service → Bool) (k : ServiceKey) (xs : List Service)
    → All (λ e. e.0 ≡ k → keep e ≡ true) xs
    → has_key k (names xs) ≡ true
    → has_key k (names (filter keep xs)) ≡ true
unfolding has_key filter
has_key-kept keep k [] h e = absurd (cc)
has_key-kept keep k (x ∷ xs) h e = elim (Bool-cases (keep x)) [
  | inl f ↦ rw (f, filter) (ground (arith, e, has_key-kept keep k xs h.1))
  | inr f ↦ elim (Bool-cases (same_key x.0 k)) [
    | inl g ↦ absurd (cc (h.0 ((same_key_iff x.0 k).0 g), f))
    | inr g ↦ rw (f, filter) (has_key-kept keep k xs h.1 (ground (arith, e, g)))
  ]
]

pub has_key-with_deps :
    (s : ServiceRegistry) (k : ServiceKey) (m : KeyMap ServiceProvider)
    → has_key k (names (with_deps s m)) ≡ is_some (get k m)
unfolding has_key with_deps get
has_key-with_deps s k [] = refl
has_key-with_deps s k ((j, p) ∷ m) = ground (arith, has_key-with_deps s k m)
