-- ===== src/Memory/Answering.antt =====
-- What an answer of `propose` of crates/kanbei-memory/src/actor.rs leaves, with and without a frame in the log.
use kanbei.Base.{
  ℕ, ◌++◌, ◌≡◌, ◌⊎◌, refl, sym, ap, subst, inl, inr, false, Option, none, some, List, [], ◌∷◌,
}
use kanbei.Objects.{ObjectStore, InstallResult, get, SyncOp}
use kanbei.Log.Types.{LogFile, AppendLog, AppendError, FramePlan, LogResult}
use kanbei.Log.Reader.{scan_tail}
use kanbei.Memory.Types.{MemoryScope, MemoryTransition, MemoryResult, MemoryError, ok, err, Codec}
use kanbei.Memory.Fold.{load}
use kanbei.Memory.Growth.{Grows}
use kanbei.Memory.Actor.{
  Moment, TransitionOutcome, committed, answered, barrier, advance, give_back, after_append,
}
use kanbei.Memory.Scan.{ScopeDir}
use kanbei.Memory.Rereading.{actor_at, LogHolds, Behind}
use kanbei.Memory.Lineage.{keys_of, IsLinear, KeysOnce, actor_at-scope}
use kanbei.Memory.Contents.{StoreHolds, StoreHolds-Grows}
use kanbei.Memory.Proposing.{MemoryHolds, Settled, Behind-at, actor_at-snoc}

pub LogHolds-clean :
    (c : Codec) (file : LogFile) (ts : List MemoryTransition)
    → LogHolds c file ts
    → LogHolds c (record file { tail = [] }) ts
unfolding scan_tail
LogHolds-clean c file ts w = record {
  state = w.state;
  reads = w.reads;
  last = w.last;
  counted = w.counted;
  scanned = w.scanned;
  torn_tail = false;
  tail = refl;
}

pub queue-Grows :
    (c : Codec) (s : ObjectStore) (queue : List SyncOp) → Grows c s (record s { queue = queue })
unfolding load get
queue-Grows c s queue d b h = h

pub install-cases :
    (r : ObjectStore × InstallResult)
    → ((s : ObjectStore) × (n : ℕ) × (r ≡ (s, InstallResult.too_large n)))
      ⊎ ((s : ObjectStore) × (root : ℕ) × (r ≡ (s, InstallResult.installed root)))
install-cases (s, InstallResult.too_large n) = inl (s, n, refl)
install-cases (s, InstallResult.installed root) = inr (s, root, refl)

pub err-committed :
    (e : MemoryError) (id root : ℕ)
    → ◌≡◌ {A = MemoryResult TransitionOutcome} (err e) (ok (committed id root))
    → ⊥
err-committed e id root h = cc

module _ (c : Codec) (ts : List MemoryTransition) (t : MemoryTransition) (scope : MemoryScope) where
  -- A call that records nothing.
  pub Settled-same :
      (d : ScopeDir) (answer : MemoryResult TransitionOutcome)
      → MemoryHolds c d ts
      → ((id root : ℕ) → answer ≡ ok (committed id root) → ⊥)
      → Settled c ts t (answered d (actor_at scope ts) answer)
  Settled-same d answer w not = record {
    after = ts;
    either = inl refl;
    holds = w;
    behind = Behind-at scope ts;
    recorded = λ id root e. absurd (not id root e);
  }

  barrier-committed :
      (outcome : Option ℕ) (i r id root : ℕ)
      → barrier outcome (committed i r) ≡ ok (committed id root)
      → (id ≡ i) × (root ≡ r)
  unfolding barrier
  barrier-committed none i r id root h = (cc, cc)
  barrier-committed (some e) i r id root h = absurd (cc)

  module _ (d : ScopeDir) (moment : Moment) (linear : IsLinear none (ts ++ t ∷ []))
      (once : KeysOnce (keys_of (ts ++ t ∷ []))) (store : StoreHolds c d.store (ts ++ t ∷ [])) where
    with_queue :
        (queue : List SyncOp) → StoreHolds c (record d.store { queue = queue }) (ts ++ t ∷ [])
    with_queue queue =
        StoreHolds-Grows c d.store (record d.store { queue = queue }) (queue-Grows c d.store queue)
          (ts ++ t ∷ []) store

    -- The frame is in the log: the transition stands, whether or not the flushes succeed.
    pub after_append-Settled :
        (log : AppendLog) (r : LogResult AppendError FramePlan)
        → LogHolds c log.file (ts ++ t ∷ [])
        → Settled c ts t (after_append d (actor_at scope ts) t t.accepted_new_root moment (log, r))
    unfolding after_append give_back advance
    after_append-Settled log (LogResult.err e) w = record {
      after = ts ++ t ∷ [];
      either = inr refl;
      holds = record { log = w; store = with_queue log.queue; linear = linear; once = once };
      behind = record {
        known = ts;
        later = t ∷ [];
        split = refl;
        is = ap (λ s. actor_at s ts) (sym (actor_at-scope scope ts));
      };
      recorded = λ id root h. absurd (err-committed (MemoryError.append e) id root h);
    }
    after_append-Settled log (LogResult.ok plan) w = record {
      after = ts ++ t ∷ [];
      either = inr refl;
      holds = record { log = w; store = with_queue _; linear = linear; once = once };
      behind =
          subst (λ a. Behind a (ts ++ t ∷ [])) (sym (actor_at-snoc scope ts t))
            (Behind-at scope (ts ++ t ∷ []));
      recorded = λ id root h.
          let e = barrier-committed moment.flushed t.transition_id t.accepted_new_root id root h in
          (refl, e.0, e.1);
    }
