-- ===== src/Memory/Contents.antt =====
-- What the store of a scope of crates/kanbei-memory/src/actor.rs holds of its transitions.
use kanbei.Base.{ℕ, ◌++◌, ◌≡◌, refl, sym, ap, ◌∙◌, none, List, [], ◌∷◌, length, All, All-mono}
use kanbei.Objects.{ObjectStore}
use kanbei.Memory.Types.{MemoryScope, RootManifest, RootFold, MemoryTransition, ok, Codec}
use kanbei.Memory.Fold.{Folding, walk, apply_all, fold, history, load_manifest}
use kanbei.Memory.Growth.{Grows, walk-grows, apply_all-grows}
use kanbei.Memory.Loading.{ClaimLoads, EdgeLoads}
use kanbei.Memory.Folding.{FoldLoads, ClaimLoads-Grows, apply_manifest-Folds}
use kanbei.Memory.Rereading.{actor_at}
use kanbei.Memory.Lineage.{
  last_root, roots, last_root-append, map-snoc, length-snoc, actor_at-head, actor_at-count,
}

-- The store has the manifests of all transitions, in their order, and the fold of the last root reads.
pub record StoreHolds (c : Codec) (s : ObjectStore) (ts : List MemoryTransition) : Type 0 where
  pub manifests : List (ℕ × RootManifest)
  pub walked : walk c s (length ts) (last_root none ts) ≡ ok manifests
  pub path : history manifests ≡ roots ts
  pub folding : Folding
  pub folded : apply_all c s manifests ≡ ok folding
  pub loads : FoldLoads c s folding

module _ (c : Codec) (s u : ObjectStore) (grows : Grows c s u) where
  FoldLoads-Grows : (st : Folding) → FoldLoads c s st → FoldLoads c u st
  FoldLoads-Grows st w = record {
    claims =
        All-mono (λ x. ClaimLoads c s x.0) (λ x. ClaimLoads c u x.0)
          (λ x. ClaimLoads-Grows c s u grows x.0) st.claims w.claims;
    retracted =
        All-mono (λ x. ClaimLoads c s x.0) (λ x. ClaimLoads c u x.0)
          (λ x. ClaimLoads-Grows c s u grows x.0) st.retracted w.retracted;
  }

  pub StoreHolds-Grows : (ts : List MemoryTransition) → StoreHolds c s ts → StoreHolds c u ts
  StoreHolds-Grows ts w = record {
    manifests = w.manifests;
    walked = walk-grows c s u grows (length ts) (last_root none ts) w.manifests w.walked;
    path = w.path;
    folding = w.folding;
    folded = apply_all-grows c s u grows w.manifests w.folding w.folded;
    loads = FoldLoads-Grows w.folding w.loads;
  }

-- One more manifest behind the last root.
pub StoreHolds-snoc :
    (c : Codec) (s : ObjectStore) (ts : List MemoryTransition) (t : MemoryTransition)
    (m : RootManifest)
    → StoreHolds c s ts
    → load_manifest c s t.accepted_new_root ≡ ok m
    → m.parent ≡ last_root none ts
    → All (ClaimLoads c s) m.added_claims
    → All (EdgeLoads c s) m.added_edges
    → All (ClaimLoads c s) m.retracted
    → StoreHolds c s (ts ++ t ∷ [])
unfolding walk apply_all history last_root
StoreHolds-snoc c s ts t m w here parent claims edges retracted =
    let (st, e, v) = apply_manifest-Folds c s m w.folding claims edges retracted w.loads in
    record {
      manifests = (t.accepted_new_root, m) ∷ w.manifests;
      walked =
          rw (length-snoc ts t, last_root-append none ts (t ∷ []), here, parent, w.walked) refl;
      path =
          ap (λ ds. ds ++ t.accepted_new_root ∷ []) w.path
          ∙ sym (map-snoc (λ (u : MemoryTransition). u.accepted_new_root) ts t);
      folding = st;
      folded = rw w.folded e;
      loads = v;
    }

-- The fold of the last root.
abbrev pub fold_of :
    (c : Codec) (s : ObjectStore) (ts : List MemoryTransition) → StoreHolds c s ts → RootFold
fold_of c s ts w = record {
  root = last_root none ts;
  claims = w.folding.claims;
  edges = w.folding.edges;
  retracted = w.folding.retracted;
  history = roots ts;
}

pub StoreHolds-fold :
    (c : Codec) (s : ObjectStore) (ts : List MemoryTransition) (w : StoreHolds c s ts)
    → fold c s (length ts) (last_root none ts) ≡ ok (fold_of c s ts w)
unfolding fold
StoreHolds-fold c s ts w = rw (w.walked, w.folded, w.path) refl

-- The actor that knows the transitions folds its head so.
pub actor_at-fold :
    (c : Codec) (s : ObjectStore) (scope : MemoryScope) (ts : List MemoryTransition)
    (w : StoreHolds c s ts)
    → fold c s (length (actor_at scope ts).seen_keys) (actor_at scope ts).head
      ≡ ok (fold_of c s ts w)
actor_at-fold c s scope ts w =
    rw (actor_at-count scope ts, actor_at-head scope ts) (StoreHolds-fold c s ts w)
