-- ===== src/Scopes/Leveled.antt =====
-- The scope tree of crates/kanbei-scopes/src/scope_tree.rs has one level below the root.
use kanbei.Base.{
  ℕ, ◌≡◌, refl, sym, ap, subst, ◌∙◌, ◌⊎◌, inl, inr, Bool, true, false, not, Option, none, some,
  List, [], ◌∷◌, ◌++◌, if◌then◌else◌, All, Bool-cases, Option-cases, arith,
}
use kanbei.Base.Ranking.{filter}
use kanbei.Base.Table.{find, drop, store, find-store, find-drop}
use kanbei.Services.Types.{ScopePath, same_path, same_path_iff}
use kanbei.Scopes.Tree.{OwnerLease, Scope, ScopeTree, new_root, is_root, with_child, run, unlist}

abbrev pub single : ScopePath → Bool
single [] = false
single (n ∷ []) = true
single (n ∷ m ∷ ns) = false

-- The root lists scopes of one name, which list none; no other scope is there.
pub record IsLeveled (tree : ScopeTree) : Type 0 where
  pub rooted :
      (p : ScopePath) (s : Scope)
      → find same_path p tree ≡ some s
      → (is_root p ≡ true) ⊎ (single p ≡ true)
  pub childless :
      (p : ScopePath) (s : Scope)
      → find same_path p tree ≡ some s
      → single p ≡ true
      → (s.children ≡ []) × (s.parent ≡ some [])
  pub listed :
      (s : Scope)
      → find same_path [] tree ≡ some s
      → All (λ c. single c ≡ true) s.children × (s.parent ≡ none)

some-inj {ℓ} : {A : Type ℓ} {a b : A} → some a ≡ some b → a ≡ b
some-inj h = cc

pub root_path : (p : ScopePath) → is_root p ≡ true → p ≡ []
unfolding is_root
root_path [] h = refl
root_path (n ∷ ns) h = absurd (cc)

single_root : (p : ScopePath) → single p ≡ true → same_path [] p ≡ false
unfolding same_path
single_root [] h = absurd (cc)
single_root (n ∷ ns) h = refl

pub drop-IsLeveled :
    (q : ScopePath) (tree : ScopeTree) → IsLeveled tree → IsLeveled (drop same_path q tree)
drop-IsLeveled q tree w =
    let there : (p : ScopePath) (s : Scope)
        → find same_path p (drop same_path q tree) ≡ some s
        → find same_path p tree ≡ some s =
      λ p s e. ground (arith, e, find-drop same_path same_path_iff q p tree) in
    record {
      rooted = λ p s e. w.rooted p s (there p s e);
      childless = λ p s e. w.childless p s (there p s e);
      listed = λ s e. w.listed s (there [] s e);
    }

-- The record of the root is replaced.
root-IsLeveled :
    (root : Scope) (tree : ScopeTree)
    → IsLeveled tree
    → All (λ c. single c ≡ true) root.children
    → root.parent ≡ none
    → IsLeveled (store same_path [] root tree)
unfolding is_root same_path
root-IsLeveled root tree w all top = record {
  rooted = λ p s e. elim (Bool-cases (same_path [] p)) [
    | inl f ↦ inl (ap is_root (sym ((same_path_iff [] p).0 f)))
    | inr f ↦ w.rooted p s (ground (arith, e, f, find-store same_path same_path_iff [] p root tree))
  ];
  childless = λ p s e one.
      w.childless p s
        (ground (arith, e, single_root p one, find-store same_path same_path_iff [] p root tree))
        one;
  listed = λ s e.
      subst (λ t. All (λ c. single c ≡ true) t.children × (t.parent ≡ none))
        (some-inj (sym (find-store same_path same_path_iff [] [] root tree) ∙ e)) (all, top);
}

pub new_root-IsLeveled : IsLeveled new_root
unfolding new_root store drop find
new_root-IsLeveled =
    root-IsLeveled (record { path = []; owner = run 0; parent = none; children = [] }) []
      (record {
        rooted = λ p s e. absurd (cc);
        childless = λ p s e. absurd (cc);
        listed = λ s e. absurd (cc);
      })
      tt refl

All-snoc :
    (P : ScopePath → Type 0) (xs : List ScopePath) (x : ScopePath)
    → All P xs
    → P x
    → All P (xs ++ x ∷ [])
All-snoc P [] x h p = (p, tt)
All-snoc P (y ∷ ys) x h p = (h.0, All-snoc P ys x h.1 p)

pub with_child-IsLeveled :
    (tree : ScopeTree) (root : Scope) (name : ℕ) (owner : OwnerLease)
    → IsLeveled tree
    → find same_path [] tree ≡ some root
    → IsLeveled (with_child tree root name owner)
unfolding with_child same_path
with_child-IsLeveled tree root name owner w e =
    let grown : Scope = record root { children = root.children ++ (name ∷ []) ∷ [] } in
    let child : Scope = record {
      path = name ∷ [];
      owner = owner;
      parent = some [];
      children = [];
    } in
    let (all, top) = w.listed root e in
    let v =
      root-IsLeveled grown (tree) w
        (All-snoc (λ c. single c ≡ true) root.children (name ∷ []) all refl) top in
    let at : (p : ScopePath)
        → find same_path p (store same_path (name ∷ []) child (store same_path [] grown tree)) ≡ (
            if same_path (name ∷ []) p
            then some child
            else find same_path p (store same_path [] grown tree)) =
      λ p. find-store same_path same_path_iff (name ∷ []) p child (store same_path [] grown tree) in
    record {
      rooted = λ p s f. elim (Bool-cases (same_path (name ∷ []) p)) [
        | inl g ↦ inr (ap single (sym ((same_path_iff (name ∷ []) p).0 g)))
        | inr g ↦ v.rooted p s (ground (arith, f, g, at p))
      ];
      childless = λ p s f one. elim (Bool-cases (same_path (name ∷ []) p)) [
        | inl g ↦
            subst (λ t. (t.children ≡ []) × (t.parent ≡ some [])) {x = child} {y = s}
              (ground (arith, f, g, at p)) (refl, refl)
        | inr g ↦ v.childless p s (ground (arith, f, g, at p)) one
      ];
      listed = λ s f. v.listed s (sym (at []) ∙ f);
    }

All-kept :
    (P : ScopePath → Type 0) (keep : ScopePath → Bool) (xs : List ScopePath)
    → All P xs
    → All P (filter keep xs)
unfolding filter
All-kept P keep [] f = tt
All-kept P keep (x ∷ xs) f = elim (Bool-cases (keep x)) [
  | inl e ↦ rw (e, filter) (f.0, All-kept P keep xs f.1)
  | inr e ↦ rw (e, filter) (All-kept P keep xs f.1)
]

pub unlist-IsLeveled :
    (path : ScopePath) (parent : Option ScopePath) (tree : ScopeTree)
    → (parent ≡ none) ⊎ (parent ≡ some [])
    → IsLeveled tree
    → IsLeveled (unlist path parent tree)
unfolding unlist
unlist-IsLeveled path none tree h w = w
unlist-IsLeveled path (some (n ∷ ns)) tree (inl e) w = absurd (cc)
unlist-IsLeveled path (some (n ∷ ns)) tree (inr e) w = absurd (cc)
unlist-IsLeveled path (some []) tree h w = elim (Option-cases (find same_path [] tree)) [
  | inl e ↦ rw (e, unlist) w
  | inr (root, e) ↦
      let (all, top) = w.listed root e in
      rw (e, unlist)
        (root-IsLeveled
          (record root { children = filter (λ c. not (same_path c path)) root.children }) tree w
          (All-kept (λ c. single c ≡ true) (λ c. not (same_path c path)) root.children all) top)
]
