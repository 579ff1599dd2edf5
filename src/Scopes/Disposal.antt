-- ===== src/Scopes/Disposal.antt =====
-- The disposal of a scope ends: crates/kanbei-scopes/src/scope_tree.rs.
use kanbei.Base.{
  ℕ, suc, ◌≡◌, ◌≢◌, refl, sym, subst, ◌⊎◌, inl, inr, Bool, true, Option, none, some, List, [], ◌∷◌,
  All, Option-cases,
}
use kanbei.Base.Table.{find, drop}
use kanbei.Services.Types.{ScopePath, same_path}
use kanbei.Scopes.Contrib.{ScopeError}
use kanbei.Scopes.Tree.{
  Scope, ScopeTree, DisposeEnd, disposed, failed, too_deep, remove_record, dispose_children,
  finish_dispose, dispose_scope,
}
use kanbei.Scopes.Leveled.{root_path, drop-IsLeveled, unlist-IsLeveled, single, IsLeveled}

End-cases :
    (end : DisposeEnd)
    → (end ≡ disposed) ⊎ (((e : ScopeError) × (end ≡ failed e)) ⊎ (end ≡ too_deep))
End-cases disposed = inl refl
End-cases (failed e) = inr (inl (e, refl))
End-cases too_deep = inr (inr refl)

-- A disposal that ends, and its tree.
unfoldable pub Ended : {R : Type 0} → (ScopeTree × R) × DisposeEnd → Type 0
Ended o = (o.1 ≢ too_deep) × IsLeveled o.0.0

module _ {R : Type 0} (remove : ScopePath → Bool → R → R × Option ScopeError) where
  remove_record-Ended :
      (path : ScopePath) (scope : Scope) (force : Bool) (st : ScopeTree × R)
      → (scope.parent ≡ none) ⊎ (scope.parent ≡ some [])
      → IsLeveled st.0
      → Ended (remove_record remove path scope force st)
  unfolding Ended remove_record
  remove_record-Ended path scope force (tree, r) h w =
      elim (Option-cases ((remove path force r).1)) [
        | inl e ↦
            rw (e, remove_record)
              (
                (λ f. cc),
                unlist-IsLeveled path scope.parent (drop same_path path tree) h
                    (drop-IsLeveled path tree w),
              )
        | inr (x, e) ↦ rw (e, remove_record) ((λ f. cc), w)
      ]

  finish_dispose-Ended :
      (path : ScopePath) (scope : Scope) (force : Bool) (below : (ScopeTree × R) × DisposeEnd)
      → (scope.parent ≡ none) ⊎ (scope.parent ≡ some [])
      → Ended below
      → Ended (finish_dispose remove path scope force below)
  unfolding finish_dispose Ended
  finish_dispose-Ended path scope force (st, disposed) h w =
      remove_record-Ended path scope force st h w.1
  finish_dispose-Ended path scope force (st, failed e) h w = w
  finish_dispose-Ended path scope force (st, too_deep) h w = w

  pub nothing_below :
      (go : ScopePath → ScopeTree × R → (ScopeTree × R) × DisposeEnd) (cs : List ScopePath)
      (st : ScopeTree × R)
      → cs ≡ []
      → dispose_children remove go cs st ≡ (st, disposed)
  unfolding dispose_children
  nothing_below go [] st h = refl
  nothing_below go (c ∷ cs) st h = absurd (cc)

  pub child-Ended :
      (fuel : ℕ) (force : Bool) (path : ScopePath) (st : ScopeTree × R)
      → single path ≡ true
      → IsLeveled st.0
      → Ended (dispose_scope remove (suc fuel) force path st)
  unfolding dispose_scope Ended dispose_children
  child-Ended fuel force path st one w = elim (Option-cases (find same_path path st.0)) [
    | inl e ↦ rw (e, dispose_scope) ((λ f. cc), w)
    | inr (scope, e) ↦
        let (none_below, up) = w.childless path scope e one in
        rw (e, dispose_scope)
          (finish_dispose-Ended path scope force
            (dispose_children remove (dispose_scope remove fuel force) scope.children st) (inr up)
            (subst Ended
              (sym (nothing_below (dispose_scope remove fuel force) scope.children st none_below))
              ((λ f. cc), w)))
  ]

  children-Ended :
      (force : Bool) (cs : List ScopePath) (st : ScopeTree × R)
      → All (λ c. single c ≡ true) cs
      → IsLeveled st.0
      → Ended (dispose_children remove (dispose_scope remove 1 force) cs st)
  unfolding dispose_children Ended
  children-Ended force [] st h w = ((λ f. cc), w)
  children-Ended force (c ∷ cs) st h w =
      let next = dispose_scope remove 1 force c st in
      let (ends, v) = child-Ended 0 force c st h.0 w in
      elim (End-cases next.1) [
        | inl e ↦ rw (e, dispose_children) (children-Ended force cs next.0 h.1 v)
        | inr (inl (x, e)) ↦ rw (e, dispose_children) (ends, v)
        | inr (inr e) ↦ absurd (ends e)
      ]

  -- Two levels of fuel are enough for a disposal, which keeps the tree leveled.
  pub dispose_scope-Ended :
      (force : Bool) (path : ScopePath) (st : ScopeTree × R)
      → IsLeveled st.0
      → ((dispose_scope remove 2 force path st).1 ≢ too_deep)
        × IsLeveled (dispose_scope remove 2 force path st).0.0
  unfolding Ended dispose_scope
  dispose_scope-Ended force path st w = elim (Option-cases (find same_path path st.0)) [
    | inl e ↦ rw (e, dispose_scope) ((λ f. cc), w)
    | inr (scope, e) ↦ elim (w.rooted path scope e) [
      | inr one ↦ child-Ended 1 force path st one w
      | inl top ↦
          let (all, up) =
            w.listed scope
              (subst (λ p. find same_path p st.0 ≡ some scope) (root_path path top) e) in
          rw (e, dispose_scope)
            (finish_dispose-Ended path scope force
              (dispose_children remove (dispose_scope remove 1 force) scope.children st) (inl up)
              (children-Ended force scope.children st all w))
    ]
  ]
