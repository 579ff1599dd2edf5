-- ===== src/Scopes/Removal/Looping.antt =====
-- The second loop of `remove_scope` in crates/kanbei-scopes/src/registry.rs ends with every pending service removed.
use kanbei.Base.{
  ℕ, zero, suc, ◌≡◌, ◌≢◌, ◌<◌, ◌≤◌, refl, sym, ap, subst, ◌∙◌, inl, inr, Bool, true, false, none,
  some, List, [], ◌∷◌, if◌then◌else◌, length, All, All-mono, Bool-cases, Option-cases, is_some,
  ==_refl, arith,
}
use kanbei.Services.Types.{
  ScopePath, ServiceKey, ServiceProvider, ServiceResult, same_key, same_key_iff, same_key_refl,
}
use kanbei.Services.KeyMap.{get, delete, get-delete}
use kanbei.Services.Registry.Ops.{dependents_of, remove, remove_held}
use kanbei.Services.Registry.Acyclic.{IsAcyclic}
use kanbei.Services.Registry.Invariant.{delete-IsAcyclic}
use kanbei.Scopes.Contrib.{Contribution}
use kanbei.Scopes.Removal.{
  Removing, Service, has_key, take_first, all_removed, remove_key, remove_pending, after_removal,
}
use kanbei.Scopes.Removal.Edges.{dependents_of-Above}
use kanbei.Services.Unique.{IsUnique, delete-IsUnique}
use kanbei.Scopes.Removal.Emptying.{
  IsOnce, All-has_key, highest, take_first-none, Taken, take_first-Taken, All-by_key,
  dependents_of-delete,
}
use kanbei.Scopes.Removal.Pending.{Published, Holding, all_removed-nil, All-three, none_above}

module _ (before : ServiceKey → ServiceKey → Bool) where
  are_published :
      (all : List Service) (pending : List ServiceKey) (st : Removing)
      → Holding before all pending st
      → All (λ k. is_some (get k st.services.deps) ≡ true) pending
  are_published all pending st w =
      All-mono (Published all st.services) (λ k. is_some (get k st.services.deps) ≡ true)
        (λ k f. f.0) pending w.published

  -- Some pending key is ready.
  some_ready :
      (all : List Service) (k : ServiceKey) (ks : List ServiceKey) (st : Removing)
      → Holding before all (k ∷ ks) st
      → take_first (λ j. all_removed (dependents_of before st.services j) st.removed_keys) (k ∷ ks)
        ≢ none
  unfolding all_removed
  some_ready all k ks st w h =
      let ready : ServiceKey → Bool =
        λ j. all_removed (dependents_of before st.services j) st.removed_keys in
      let (m, (waits, there, close), above) =
        highest w.acyclic.rank
          (λ j.
            (ready j ≡ false)
            × (is_some (get j st.services.deps) ≡ true)
            × All (λ d. has_key d.key (k ∷ ks) ≡ true) (dependents_of before st.services j))
          k ks
          (All-three (λ j. ready j ≡ false) (λ j. is_some (get j st.services.deps) ≡ true)
            (λ j. All (λ d. has_key d.key (k ∷ ks) ≡ true) (dependents_of before st.services j))
            (k ∷ ks) (take_first-none ready (k ∷ ks) h) (are_published all (k ∷ ks) st w)
            w.closed) in
      let nil =
        none_above w.acyclic.rank m (k ∷ ks) (dependents_of before st.services m) above close (
          All-mono
            (λ d.
              (is_some (get d.key st.services.deps) ≡ true)
              × (w.acyclic.rank m < w.acyclic.rank d.key))
            (λ d. w.acyclic.rank m < w.acyclic.rank d.key) (λ d f. f.1)
            (dependents_of before st.services m)
            (dependents_of-Above before st.services w.acyclic m w.unique there)) in
      cc (ap (λ ds. all_removed ds st.removed_keys) nil, waits)

  module _ (all : List Service) (pending rest : List ServiceKey) (k : ServiceKey) (st : Removing)
      (w : Holding before all pending st)
      (t : Taken
        (λ j. all_removed (dependents_of before st.services j) st.removed_keys)
        pending
        k
        rest) where
    taken_pending : has_key k pending ≡ true
    taken_pending = ground (arith, t.parts k, same_key_refl k)

    others_pending : (j : ServiceKey) → has_key j rest ≡ true → has_key j pending ≡ true
    others_pending j h = ground (arith, t.parts j, h)

    no_dependents : dependents_of before st.services k ≡ []
    no_dependents =
        let there =
          All-has_key (λ j. is_some (get j st.services.deps) ≡ true) k pending taken_pending
            (are_published all pending st w) in
        all_removed-nil (dependents_of before st.services k) st.removed_keys st.services.deps w.gone
          (All-mono
            (λ d.
              (is_some (get d.key st.services.deps) ≡ true)
              × (w.acyclic.rank k < w.acyclic.rank d.key))
            (λ d. is_some (get d.key st.services.deps) ≡ true) (λ d f. f.0)
            (dependents_of before st.services k)
            (dependents_of-Above before st.services w.acyclic k w.unique there))
          t.passes

    remove-done :
        (p : ServiceProvider)
        → get k st.services.holders ≡ some p
        → remove before k p.module_id st.services ≡ (
          record { holders = delete k st.services.holders; deps = delete k st.services.deps },
          ServiceResult.ok tt,
        )
    unfolding remove remove_held
    remove-done p e = rw (e, remove, no_dependents, remove_held, ==_refl p.module_id) refl

    other_key : (j : ServiceKey) → has_key j rest ≡ true → IsOnce pending → same_key k j ≡ false
    other_key j h u = elim (Bool-cases (same_key k j)) [
      | inr e ↦ e
      | inl e ↦
          absurd
            (cc (subst (λ i. has_key i rest ≡ true) (sym ((same_key_iff k j).0 e)) h, (t.once u).1))
    ]

    after-Holding :
        (next : Removing)
        → next.services
          ≡ record { holders = delete k st.services.holders; deps = delete k st.services.deps }
        → next.removed_keys ≡ k ∷ st.removed_keys
        → Holding before all rest next
    after-Holding next e f = record {
      acyclic =
          subst (λ s. IsAcyclic s.deps) (sym e) (delete-IsAcyclic k st.services.deps w.acyclic);
      unique = subst (λ s. IsUnique s.deps) (sym e) (delete-IsUnique k st.services.deps w.unique);
      once = (t.once w.once).0;
      published = All-by_key (Published all next.services) rest (λ j h.
          let apart = other_key j h w.once in
          let (there, (p, ds, found, held)) =
            All-has_key (Published all st.services) j pending (others_pending j h) w.published in
          subst (λ s. Published all s j) (sym e)
            (
              ground (arith, there, apart, get-delete k j st.services.deps),
              (p, ds, found, ground (arith, held, apart, get-delete k j st.services.holders)),
            ));
      closed =
          All-by_key
            (λ j. All (λ d. has_key d.key rest ≡ true) (dependents_of before next.services j)) rest
            (λ j h.
              All-mono (λ d. (has_key d.key pending ≡ true) × (same_key k d.key ≡ false))
                (λ d. has_key d.key rest ≡ true) (λ d g. ground (arith, t.parts d.key, g))
                (dependents_of before next.services j)
                (dependents_of-delete before st.services next.services k j
                  (λ d. has_key d.key pending ≡ true) (ap (λ s. s.deps) e)
                  (All-has_key
                    (λ i.
                      All (λ d. has_key d.key pending ≡ true) (dependents_of before st.services i))
                    j pending (others_pending j h) w.closed)));
      gone =
          subst (λ s. All (λ j. get j s.deps ≡ none) next.removed_keys) (sym e)
            (subst (λ ks. All (λ j. get j (delete k st.services.deps) ≡ none) ks) (sym f)
              (
                ground (arith, same_key_refl k, get-delete k k st.services.deps),
                All-mono (λ j. get j st.services.deps ≡ none)
                    (λ j. get j (delete k st.services.deps) ≡ none)
                    (λ j g. ground (arith, g, get-delete k j st.services.deps)) st.removed_keys
                    w.gone,
              ));
    }

  -- With a turn for each pending key, all are removed.
  pub remove_pending-none :
      (prior : Contribution → Contribution → Bool) (above : ScopePath → ScopePath → Bool)
      (scope : ScopePath) (all : List Service) (fuel : ℕ) (pending : List ServiceKey)
      (st : Removing)
      → length pending ≤ fuel
      → Holding before all pending st
      → (done : Removing) × (remove_pending before prior above scope all fuel pending st
          ≡ (done, none))
        × ((i : ServiceKey)
            → get i done.services.holders
              ≡ (if has_key i pending then none else get i st.services.holders))
  unfolding remove_pending remove_key after_removal has_key
  remove_pending-none prior above scope all fuel [] st h w = (st, refl, λ i. refl)
  remove_pending-none prior above scope all zero (k ∷ ks) st h w = absurd (omega (arith, h))
  remove_pending-none prior above scope all (suc fuel) (k ∷ ks) st h w =
      elim (Option-cases (
        take_first (λ j. all_removed (dependents_of before st.services j) st.removed_keys)
          (k ∷ ks))) [
            | inl e ↦ absurd (some_ready all k ks st w e)
            | inr ((j, rest), e) ↦
                let t =
                  take_first-Taken
                    (λ i. all_removed (dependents_of before st.services i) st.removed_keys) (k ∷ ks)
                    j rest e in
                let (there, (p, ds, found, held)) =
                  All-has_key (Published all st.services) j (k ∷ ks)
                    (taken_pending all (k ∷ ks) rest j st w t) w.published in
                let next =
                  (remove_key before prior above scope j p ds st (
                    record {
                      holders = delete j st.services.holders;
                      deps = delete j st.services.deps;
                    },
                    ServiceResult.ok tt,
                  )).0 in
                let (end, f, left) =
                  remove_pending-none prior above scope all fuel rest next
                    (omega (arith, h, t.count))
                    (after-Holding all (k ∷ ks) rest j st w t next refl refl) in
                let rewritten =
                  ap
                    (λ o.
                      after_removal before prior above
                        (remove_pending before prior above scope all fuel rest)
                        (remove_key before prior above scope j p ds st o))
                    (remove-done all (k ∷ ks) rest j st w t p held) in
                (
                  end,
                  rw (e, found, remove_pending) (rewritten ∙ f),
                  λ i. ground (arith, left i, t.parts i, get-delete j i st.services.holders),
                )
          ]
