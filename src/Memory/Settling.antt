-- ===== src/Memory/Settling.antt =====
-- Every path of `MemoryRootActor::propose` of crates/kanbei-memory/src/actor.rs leaves a scope in order.
use kanbei.Base.{
  ℕ, ◌+◌, ◌<◌, ◌≡◌, refl, sym, subst, ◌∙◌, inl, inr, Option, List, [], ◌∷◌, length, Option-cases,
  u64_mod, ==_iff,
}
use kanbei.Objects.{ObjectStore, InstallResult, install}
use kanbei.Log.Types.{Profile, AppendLog}
use kanbei.Log.Writer.{check_events, append}
use kanbei.Log.Durable.{append-refused}
use kanbei.Memory.Types.{
  MemoryScope, RootManifest, MemoryTransition, MemoryResult, MemoryError, ok, err, Codec, Lawful,
}
use kanbei.Memory.Fold.{load_manifest}
use kanbei.Memory.Growth.{Grows, install-Grows}
use kanbei.Memory.Check.{Verdict, accepted, stale, check}
use kanbei.Memory.Actor.{
  Moment, TransitionOutcome, committed, cas_failed, envelope_of, give_back, after_append,
  write_frame_for, commit, decide,
}
use kanbei.Memory.Scan.{ScopeDir}
use kanbei.Memory.Admitting.{Admitted, check-Admitted}
use kanbei.Memory.Rereading.{actor_at, reopened}
use kanbei.Memory.Contents.{StoreHolds-Grows}
use kanbei.Memory.Recording.{read_line-envelope, append-LogHolds}
use kanbei.Memory.Proposing.{
  MemoryHolds, Uncollided, Settled, load_manifest-install, MemoryHolds-snoc,
}
use kanbei.Memory.Answering.{
  LogHolds-clean, install-cases, err-committed, Settled-same, after_append-Settled,
}

module _ (c : Codec) (lawful : Lawful c) (d : ScopeDir) (ts : List MemoryTransition)
    (w : MemoryHolds c d ts) (small : length ts + 2 < u64_mod) (scope : MemoryScope)
    (t : MemoryTransition) (claims edges : List ℕ) (moment : Moment) where
  abbrev cut : ScopeDir
  cut = record d { file = record d.file { tail = [] } }

  abbrev behind_log : AppendLog
  behind_log = reopened c d.file ts w.log d

  grown : (s : ObjectStore) → Grows c d.store s → MemoryHolds c (record cut { store = s }) ts
  grown s grows = record {
    log = LogHolds-clean c d.file ts w.log;
    store = StoreHolds-Grows c d.store s grows ts w.store;
    linear = w.linear;
    once = w.once;
  }

  appended-Settled :
      (s : ObjectStore) (m : RootManifest)
      → Grows c d.store s
      → load_manifest c s t.accepted_new_root ≡ ok m
      → Admitted c d.store (actor_at scope ts) t claims edges m
      → Settled c ts t (
          after_append
            (record cut { store = s })
            (actor_at scope ts)
            t
            t.accepted_new_root
            moment
            (append c.to_line c.frame_hash c.frame_size
              (record behind_log { queue = s.queue })
              (envelope_of c behind_log.seq t m moment ∷ [])
              Profile.strict
              moment.now
              moment.appended))
  unfolding after_append give_back
  appended-Settled s m grows here ad =
      let env = envelope_of c behind_log.seq t m moment in
      let writer = record behind_log { queue = s.queue } in
      let r =
        append c.to_line c.frame_hash c.frame_size writer (env ∷ []) Profile.strict moment.now
          moment.appended in
      elim (Option-cases (check_events writer.seq 0 (env ∷ []))) [
        | inl checked ↦
            let next = MemoryHolds-snoc c d s scope ts t claims edges m w grows here ad in
            after_append-Settled c ts t scope (record cut { store = s }) moment next.1 next.2 next.0
              r.0 r.1
              (append-LogHolds c lawful d.file ts w.log d s.queue small env t moment.now
                moment.appended (read_line-envelope c lawful behind_log.seq t m moment ad.versioned)
                checked)
        | inr (e, refused) ↦
            let same =
              append-refused c.to_line c.frame_hash c.frame_size writer (env ∷ []) Profile.strict
                moment.now moment.appended (inr (e, refused)) in
            subst
              (λ p. Settled c ts t (
                after_append (record cut { store = s }) (actor_at scope ts) t t.accepted_new_root
                  moment p))
              (λ i. (sym same.0 i, sym same.1.1 i))
              (Settled-same c ts t scope (record cut { store = s })
                (err (MemoryError.append same.1.0)) (grown s grows)
                (err-committed (MemoryError.append same.1.0)))
      ]

  commit-Settled :
      (m : RootManifest)
      → Uncollided c d.store (c.write_manifest m)
      → Admitted c d.store (actor_at scope ts) t claims edges m
      → Settled c ts t (commit c cut (actor_at scope ts) behind_log t m moment)
  unfolding commit write_frame_for
  commit-Settled m free ad =
      let r = install c.hash d.store (c.write_manifest m) in
      let grows = install-Grows c d.store (c.write_manifest m) in
      elim (install-cases r) [
        | inl (s, n, e) ↦
            subst
              (λ p.
                Settled c ts t (write_frame_for c cut (actor_at scope ts) behind_log t m moment p))
              (sym e)
              (Settled-same c ts t scope (record cut { store = s }) (err (MemoryError.too_large n))
                (grown s (subst (λ p. Grows c d.store p.0) e grows))
                (err-committed (MemoryError.too_large n)))
        | inr (s, root, e) ↦
            let loaded =
              load_manifest-install c lawful d.store s m root e free
                ((==_iff m.schema 1).1 ad.schema) in
            let named : root ≡ t.accepted_new_root = loaded.0 ∙ ad.root in
            subst
              (λ p.
                Settled c ts t (write_frame_for c cut (actor_at scope ts) behind_log t m moment p))
              (sym e)
              (subst
                (λ x. Settled c ts t (
                  write_frame_for c cut (actor_at scope ts) behind_log t m moment
                    (s, InstallResult.installed x)))
                (sym named)
                (appended-Settled s m (subst (λ p. Grows c d.store p.0) e grows)
                  (subst (λ x. load_manifest c s x ≡ ok m) named loaded.1) ad))
      ]

  stale-committed :
      (x y : Option ℕ) (ds : List ℕ) (id root : ℕ)
      → ◌≡◌ {A = MemoryResult TransitionOutcome} (ok (cas_failed x y ds)) (ok (committed id root))
      → ⊥
  stale-committed x y ds id root h = cc

  -- The validation says what is done.
  pub decide-Settled :
      (v : MemoryResult Verdict)
      → check c d.store (actor_at scope ts) t claims edges ≡ v
      → ((m : RootManifest) → v ≡ ok (accepted m) → Uncollided c d.store (c.write_manifest m))
      → Settled c ts t (decide c cut (actor_at scope ts) behind_log t moment v)
  unfolding decide
  decide-Settled (err e) h free =
      Settled-same c ts t scope cut (err e) (grown d.store (λ i b k. k)) (err-committed e)
  decide-Settled (ok (stale x y ds)) h free =
      Settled-same c ts t scope cut (ok (cas_failed x y ds)) (grown d.store (λ i b k. k))
        (stale-committed x y ds)
  decide-Settled (ok (accepted m)) h free =
      commit-Settled m (free m refl)
        (check-Admitted c d.store (actor_at scope ts) t claims edges m h)
