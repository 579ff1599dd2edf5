-- ===== src/Scopes/Trees.antt =====
-- Sequences of creations and disposals of crates/kanbei-scopes/src/scope_tree.rs.
use kanbei.Base.{ℕ, inl, inr, Bool, ◌==◌, Option, List, [], ◌∷◌, Bool-cases, Option-cases}
use kanbei.Base.Table.{find}
use kanbei.Services.Types.{ScopePath, same_path}
use kanbei.Scopes.Contrib.{ScopeError}
use kanbei.Scopes.Tree.{OwnerLease, ScopeTree, is_root, any_last, create_child, dispose_scope}
use kanbei.Scopes.Leveled.{IsLeveled, with_child-IsLeveled}
use kanbei.Scopes.Disposal.{dispose_scope-Ended}

pub data TreeRequest : Type 0 where
  creating : ScopePath → ℕ → OwnerLease → TreeRequest
  disposing : ScopePath → Bool → TreeRequest

module _ {R : Type 0} (remove : ScopePath → Bool → R → R × Option ScopeError) where
  unfoldable pub serve : ScopeTree × R → TreeRequest → ScopeTree × R
  unfolding create_child dispose_scope
  serve st (creating parent name owner) = ((create_child st.0 parent name owner).0, st.1)
  serve st (disposing path force) = (dispose_scope remove 2 force path st).0

  unfoldable pub serve_all : ScopeTree × R → List TreeRequest → ScopeTree × R
  unfolding serve
  serve_all st [] = st
  serve_all st (q ∷ qs) = serve_all (serve st q) qs

  create_child-IsLeveled :
      (tree : ScopeTree) (parent : ScopePath) (name : ℕ) (owner : OwnerLease)
      → IsLeveled tree
      → IsLeveled (create_child tree parent name owner).0
  unfolding create_child
  create_child-IsLeveled tree parent name owner w = elim (Bool-cases (is_root parent)) [
    | inr e ↦ rw (e, create_child) w
    | inl e ↦ elim (Option-cases (find same_path [] tree)) [
      | inl f ↦ rw (e, f, create_child) w
      | inr (root, f) ↦ elim (Bool-cases (name == 0)) [
        | inl g ↦ rw (e, f, g, create_child) w
        | inr g ↦ elim (Bool-cases (any_last name root.children)) [
          | inl h ↦ rw (e, f, g, h, create_child) w
          | inr h ↦ rw (e, f, g, h, create_child) (with_child-IsLeveled tree root name owner w f)
        ]
      ]
    ]
  ]

  -- Creations and disposals, however contributions are removed, keep a tree with one level below its root.
  pub serve_all-IsLeveled :
      (st : ScopeTree × R) (qs : List TreeRequest) → IsLeveled st.0 → IsLeveled (serve_all st qs).0
  unfolding serve_all serve
  serve_all-IsLeveled st [] w = w
  serve_all-IsLeveled st (creating parent name owner ∷ qs) w =
      serve_all-IsLeveled ((create_child st.0 parent name owner).0, st.1) qs
        (create_child-IsLeveled st.0 parent name owner w)
  serve_all-IsLeveled st (disposing path force ∷ qs) w =
      serve_all-IsLeveled (dispose_scope remove 2 force path st).0 qs
        (dispose_scope-Ended remove force path st w).1
