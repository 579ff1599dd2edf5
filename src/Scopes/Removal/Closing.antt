-- ===== src/Scopes/Removal/Closing.antt =====
-- The first loop of `remove_scope` in crates/kanbei-scopes/src/registry.rs: the closure under dependents.
use kanbei.Base.{
  ℕ, zero, suc, ◌+◌, ◌≡◌, ◌≤◌, refl, sym, subst, ◌⊎◌, inl, inr, Bool, true, false, ◌||◌, some, List,
  [], ◌∷◌, ◌++◌, if◌then◌else◌, length, All, All-mono, Bool-cases, is_some, arith,
}
use kanbei.Services.Types.{
  ScopePath, ServiceKey, ServiceDependency, same_key, same_key_iff, same_key_refl,
}
use kanbei.Services.KeyMap.{get}
use kanbei.Services.Registry.Graph.{Dependencies}
use kanbei.Services.Registry.Ops.{ServiceRegistry, dependents_of}
use kanbei.Scopes.Contrib.{Contribution}
use kanbei.Scopes.Removal.{has_key, discover, closure}
use kanbei.Scopes.Removal.Emptying.{IsOnce, All-has_key, All-by_key}

has_key-snoc :
    (k j : ServiceKey) (ks : List ServiceKey)
    → has_key k (ks ++ j ∷ []) ≡ (has_key k ks || same_key j k)
unfolding has_key
has_key-snoc k j [] = ground arith
has_key-snoc k j (i ∷ ks) = ground (arith, has_key-snoc k j ks)

snoc-IsOnce :
    (j : ServiceKey) (ks : List ServiceKey)
    → has_key j ks ≡ false
    → IsOnce ks
    → IsOnce (ks ++ j ∷ [])
unfolding has_key
snoc-IsOnce j [] h u = (refl, tt)
snoc-IsOnce j (k ∷ ks) h u = (
  ground (arith, h, u.0, has_key-snoc k j ks, same_key_iff j k, same_key_iff k j),
  snoc-IsOnce j ks (ground (arith, h)) u.1,
)

-- The published keys that a list of keys does not have.
pub fresh : List ServiceKey → Dependencies → ℕ
fresh ks [] = 0
fresh ks ((j, ds) ∷ m) = let rest = fresh ks m in if has_key j ks then rest else suc rest

pub fresh-le : (ks : List ServiceKey) (m : Dependencies) → fresh ks m ≤ length m
unfolding fresh
fresh-le ks [] = omega arith
fresh-le ks ((j, ds) ∷ m) = ground (arith, fresh-le ks m)

fresh-snoc_le :
    (j : ServiceKey) (ks : List ServiceKey) (m : Dependencies) → fresh (ks ++ j ∷ []) m ≤ fresh ks m
unfolding fresh
fresh-snoc_le j ks [] = omega arith
fresh-snoc_le j ks ((i, ds) ∷ m) = ground (arith, fresh-snoc_le j ks m, has_key-snoc i j ks)

fresh-snoc_lt :
    (j : ServiceKey) (ks : List ServiceKey) (m : Dependencies)
    → has_key j ks ≡ false
    → is_some (get j m) ≡ true
    → suc (fresh (ks ++ j ∷ []) m) ≤ fresh ks m
unfolding fresh get
fresh-snoc_lt j ks [] h e = absurd (cc)
fresh-snoc_lt j ks ((i, ds) ∷ m) h e = elim (Bool-cases (same_key i j)) [
  | inl f ↦
      let g : has_key i ks ≡ false =
        subst (λ k. has_key k ks ≡ false) (sym ((same_key_iff i j).0 f)) h in
      ground
        (arith, g, f, has_key-snoc i j ks, same_key_iff i j, same_key_iff j i, fresh-snoc_le j ks m)
  | inr f ↦ ground (
    arith,
    f,
    has_key-snoc i j ks,
    same_key_iff i j,
    same_key_iff j i,
    fresh-snoc_lt j ks m h (ground (arith, e, f)),
  )
]

module _ (m : Dependencies) where
  -- The keys to remove, with those of them whose dependents are still to be read.
  pub record Known (ks queue : List ServiceKey) : Type 0 where
    pub published : All (λ k. is_some (get k m) ≡ true) ks
    pub once : IsOnce ks
    pub queued : All (λ k. has_key k ks ≡ true) queue

  record Discovered (ds : List ServiceDependency) (ks queue ls after : List ServiceKey)
      : Type 0 where
    known : Known ls after
    grows : (k : ServiceKey) → has_key k ks ≡ true → has_key k ls ≡ true
    waits : (k : ServiceKey) → has_key k queue ≡ true → has_key k after ≡ true
    new : (k : ServiceKey) → has_key k ls ≡ true → (has_key k ks ≡ true) ⊎ (has_key k after ≡ true)
    found : All (λ d. has_key d.key ls ≡ true) ds
    spent : length after + fresh ls m ≤ length queue + fresh ks m

  All-snoc :
      (P : ServiceKey → Type 0) (ks : List ServiceKey) (j : ServiceKey)
      → All P ks
      → P j
      → All P (ks ++ j ∷ [])
  All-snoc P [] j h p = (p, tt)
  All-snoc P (k ∷ ks) j h p = (h.0, All-snoc P ks j h.1 p)

  discover-Discovered :
      (ds : List ServiceDependency) (ks queue : List ServiceKey)
      → All (λ d. is_some (get d.key m) ≡ true) ds
      → Known ks queue
      → Discovered ds ks queue (discover ds ks queue).0 (discover ds ks queue).1
  unfolding discover has_key
  discover-Discovered [] ks queue h w = record {
    known = w;
    grows = λ k e. e;
    waits = λ k e. e;
    new = λ k e. inl e;
    found = tt;
    spent = omega arith;
  }
  discover-Discovered (d ∷ ds) ks queue h w = elim (Bool-cases (has_key d.key ks)) [
    | inl e ↦
        let o = discover-Discovered ds ks queue h.1 w in
        rw (e, discover)
          (record {
            known = o.known;
            grows = o.grows;
            waits = o.waits;
            new = o.new;
            found = (o.grows d.key e, o.found);
            spent = o.spent;
          })
    | inr e ↦
        let o = discover-Discovered ds (ks ++ d.key ∷ []) (d.key ∷ queue) h.1 (record {
          published = All-snoc (λ k. is_some (get k m) ≡ true) ks d.key w.published h.0;
          once = snoc-IsOnce d.key ks e w.once;
          queued = (
            ground (arith, has_key-snoc d.key d.key ks, same_key_refl d.key),
            All-mono (λ k. has_key k ks ≡ true) (λ k. has_key k (ks ++ d.key ∷ []) ≡ true)
                (λ k f. ground (arith, f, has_key-snoc k d.key ks)) queue w.queued,
          );
        }) in
        rw (e, discover)
          (record {
            known = o.known;
            grows = λ k f. o.grows k (ground (arith, f, has_key-snoc k d.key ks));
            waits = λ k f. o.waits k (ground (arith, f));
            new = λ k f. elim (o.new k f) [
              | inr g ↦ inr g
              | inl g ↦ elim (Bool-cases (has_key k ks)) [
                | inl t ↦ inl t
                | inr t ↦ inr (o.waits k (ground (arith, g, t, has_key-snoc k d.key ks)))
              ]
            ];
            found = (
              o.grows d.key (ground (arith, has_key-snoc d.key d.key ks, same_key_refl d.key)),
              o.found,
            );
            spent = omega (arith, o.spent, fresh-snoc_lt d.key ks m e h.0);
          })
  ]

module _ (before : ServiceKey → ServiceKey → Bool) (prior : Contribution → Contribution → Bool)
    (above : ScopePath → ScopePath → Bool) (s : ServiceRegistry) where
  -- The dependents of a key are to be removed too.
  abbrev pub Covers : List ServiceKey → ServiceKey → Type 0
  Covers ks k = All (λ d. has_key d.key ks ≡ true) (dependents_of before s k)

  -- With fuel for each key that can be pushed, the closure ends, closed.
  pub closure-Covers :
      (dependents : (k : ServiceKey)
        → is_some (get k s.deps) ≡ true
        → All (λ d. is_some (get d.key s.deps) ≡ true) (dependents_of before s k))
      (fuel : ℕ) (ks queue : List ServiceKey)
      → length queue + fresh ks s.deps ≤ fuel
      → Known s.deps ks queue
      → ((k : ServiceKey) → has_key k ks ≡ true → (has_key k queue ≡ true) ⊎ Covers ks k)
      → (end : List ServiceKey) × (closure before prior above s fuel ks queue ≡ some end)
        × All (λ k. is_some (get k s.deps) ≡ true) end
        × IsOnce end
        × All (Covers end) end
        × ((j : ServiceKey) → has_key j ks ≡ true → has_key j end ≡ true)
  unfolding closure has_key
  closure-Covers dependents fuel ks [] h w c = (
    ks,
    refl,
    w.published,
    w.once,
    All-by_key (Covers ks) ks (λ k e. elim (c k e) [ inl f ↦ absurd (cc) | inr f ↦ f ]),
    λ j e. e,
  )
  closure-Covers dependents zero ks (k ∷ queue) h w c = absurd (omega (arith, h))
  closure-Covers dependents (suc fuel) ks (k ∷ queue) h w c =
      let there = All-has_key (λ j. is_some (get j s.deps) ≡ true) k ks w.queued.0 w.published in
      let o =
        discover-Discovered s.deps (dependents_of before s k) ks queue (dependents k there)
          (record { published = w.published; once = w.once; queued = w.queued.1 }) in
      let found = discover (dependents_of before s k) ks queue in
      let (end, e, published, once, covers, keeps) =
        closure-Covers dependents fuel found.0 found.1 (omega (arith, o.spent, h)) o.known (λ j e.
          elim (o.new j e) [
            | inr f ↦ inl f
            | inl f ↦ elim (Bool-cases (same_key k j)) [
              | inl g ↦ inr (subst (Covers found.0) ((same_key_iff k j).0 g) o.found)
              | inr g ↦ elim (c j f) [
                | inl q ↦ inl (o.waits j (ground (arith, g, q)))
                | inr q ↦ inr (
                    All-mono (λ d. has_key d.key ks ≡ true) (λ d. has_key d.key found.0 ≡ true)
                      (λ d t. o.grows d.key t) (dependents_of before s j) q)
              ]
            ]
          ]) in
      (end, e, published, once, covers, λ j t. keeps j (o.grows j t))
