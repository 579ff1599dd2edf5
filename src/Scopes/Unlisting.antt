-- ===== src/Scopes/Unlisting.antt =====
-- What the root of a tree of crates/kanbei-scopes/src/scope_tree.rs lists once a scope is taken off.
use kanbei.Base.{
  ◌≡◌, refl, inl, inr, Bool, true, false, not, none, some, List, [], ◌∷◌, any, is_some,
  Option-cases, arith,
}
use kanbei.Base.Ranking.{filter}
use kanbei.Base.Table.{find, find-store}
use kanbei.Services.Types.{ScopePath, same_path, same_path_iff}
use kanbei.Scopes.Tree.{ScopeTree, unlist}
use kanbei.Scopes.Leveled.{single}

-- The children that the root lists.
abbrev pub listed_children : ScopeTree → List ScopePath
listed_children tree = elim (find same_path [] tree) [ none ↦ [] | some root ↦ root.children ]

abbrev pub lists : ScopePath → ScopeTree → Bool
lists path tree = any (λ c. same_path c path) (listed_children tree)

any-filter :
    (p : ScopePath → Bool) (xs : List ScopePath) → any p (filter (λ x. not (p x)) xs) ≡ false
unfolding any filter
any-filter p [] = refl
any-filter p (x ∷ xs) = ground (arith, any-filter p xs)

pub same_path_refl : (p : ScopePath) → same_path p p ≡ true
same_path_refl p = (same_path_iff p p).1 refl

-- No other scope than the root changes, and the root goes on listing the rest.
pub unlist-find :
    (path q : ScopePath) (tree : ScopeTree)
    → same_path [] q ≡ false
    → find same_path q (unlist path (some []) tree) ≡ find same_path q tree
unfolding unlist
unlist-find path q tree h = elim (Option-cases (find same_path [] tree)) [
  | inl e ↦ rw (unlist, e) refl
  | inr (root, e) ↦
      rw (unlist, e)
        (ground (
          arith,
          h,
          find-store same_path same_path_iff [] q
              (record root { children = filter (λ c. not (same_path c path)) root.children }) tree,
        ))
]

pub unlist-root :
    (path : ScopePath) (tree : ScopeTree)
    → is_some (find same_path [] (unlist path (some []) tree)) ≡ is_some (find same_path [] tree)
unfolding unlist
unlist-root path tree = elim (Option-cases (find same_path [] tree)) [
  | inl e ↦ rw (unlist, e) (rw e refl)
  | inr (root, e) ↦
      rw (unlist, e)
        (ground (
          arith,
          same_path_refl [],
          find-store same_path same_path_iff [] []
              (record root { children = filter (λ c. not (same_path c path)) root.children }) tree,
        ))
]

pub unlist-lists :
    (path : ScopePath) (tree : ScopeTree) → lists path (unlist path (some []) tree) ≡ false
unfolding unlist any
unlist-lists path tree = elim (Option-cases (find same_path [] tree)) [
  | inl e ↦ rw (unlist, e) (rw (any, e) refl)
  | inr (root, e) ↦ rw (unlist, e) (any-filter (λ c. same_path c path) root.children)
]

pub single_root : (p : ScopePath) → single p ≡ true → same_path [] p ≡ false
unfolding same_path
single_root [] h = absurd (cc)
single_root (n ∷ ns) h = refl
