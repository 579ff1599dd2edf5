-- ===== src/Scopes/Disposed.antt =====
-- What a disposal of crates/kanbei-scopes/src/scope_tree.rs has removed.
use kanbei.Base.{◌≡◌, ◌⊎◌, Bool, true, false, Option, none, List, [], All, is_some}
use kanbei.Base.Table.{find}
use kanbei.Services.Types.{ScopePath, same_path}
use kanbei.Scopes.Contrib.{ScopeError}
use kanbei.Scopes.Tree.{Scope, ScopeTree, DisposeEnd, disposed, failed}
use kanbei.Scopes.Leveled.{single}
use kanbei.Scopes.Unlisting.{lists}

-- `Gone` says of a scope that its contributions are removed: a removal that succeeds makes it so, and no other
-- removal undoes it.
module _ {R : Type 0} (remove : ScopePath → Bool → R → R × Option ScopeError)
    (Gone : ScopePath → R → Type 0)
    (removes : (p : ScopePath) (force : Bool) (r : R)
      → (remove p force r).1 ≡ none
      → Gone p (remove p force r).0)
    (keeps : (p q : ScopePath) (force : Bool) (r : R)
      → Gone p r
      → Gone p (remove q force r).0) where
  -- A disposal below the root brings no scope back.
  record Shrinks (st u : ScopeTree × R) : Type 0 where
    pub absent :
        (q : ScopePath)
        → single q ≡ true
        → find same_path q st.0 ≡ none
        → find same_path q u.0 ≡ none
    pub gone : (q : ScopePath) → Gone q st.1 → Gone q u.1
    pub rooted : is_some (find same_path [] u.0) ≡ is_some (find same_path [] st.0)

  -- What the disposal of one child comes to.
  abbrev OneDisposed : ScopePath → ScopeTree × R → (ScopeTree × R) × DisposeEnd → Type 0
  OneDisposed path st o =
      Shrinks st o.0
      × (((o.1 ≡ disposed)
            × (find same_path path o.0.0 ≡ none)
            × Gone path o.0.1
            × (lists path o.0.0 ≡ false))
          ⊎ ((e : ScopeError) × (o.1 ≡ failed e) × (o.0.0 ≡ st.0)))

  -- What the disposal of children comes to.
  abbrev AllDisposed : List ScopePath → ScopeTree × R → (ScopeTree × R) × DisposeEnd → Type 0
  AllDisposed cs st o =
      Shrinks st o.0
      × (((o.1 ≡ disposed) × All (λ c. (find same_path c o.0.0 ≡ none) × Gone c o.0.1) cs)
          ⊎ ((e : ScopeError) × (o.1 ≡ failed e)))

  -- What the disposal of a scope comes to: it, the scopes that it listed and their contributions are gone and
  -- the root does not list it, or an error is answered and it is still there.
  abbrev pub Disposed : ScopePath → Scope → (ScopeTree × R) × DisposeEnd → Type 0
  Disposed path scope o =
      ((o.1 ≡ disposed)
        × (find same_path path o.0.0 ≡ none)
        × Gone path o.0.1
        × (lists path o.0.0 ≡ false)
        × All (λ c. (find same_path c o.0.0 ≡ none) × Gone c o.0.1) scope.children)
      ⊎ ((e : ScopeError) × (o.1 ≡ failed e) × (is_some (find same_path path o.0.0) ≡ true))
