-- ===== src/Scopes/Bindings.antt =====
-- The two lookups of a key in crates/kanbei-scopes/src/registry.rs: in the registry, and in its bindings alone.
use kanbei.Base.{
  ℕ, ◌+◌, ◌≡◌, refl, sym, ap, ◌∙◌, inl, inr, Bool, true, false, Option, none, some, List, [], ◌∷◌,
  map, if◌then◌else◌, Bool-cases,
}
use kanbei.Base.Ranking.{Rank, rank_le, enumerate, filter, greater, greatest, max_by_key}
use kanbei.Services.Types.{ScopePath}
use kanbei.Scopes.Contrib.{Keybinding, KeyContext}
use kanbei.Scopes.State.{ContributionRegistry}
use kanbei.Scopes.Validate.{map_option}
use kanbei.Scopes.Keymap.{live, layer, keymap_winner, keymap_winner_in, keybindings}

module _ {A B : Type 0} (g : A → B) where
  abbrev numbered : ℕ × A → ℕ × B
  numbered e = (e.0, g e.1)

  enumerate-map : (i : ℕ) (xs : List A) → enumerate i (map g xs) ≡ map numbered (enumerate i xs)
  unfolding enumerate
  enumerate-map i [] = refl
  enumerate-map i (x ∷ xs) = ap (λ es. (i, g x) ∷ es) (enumerate-map (i + 1) xs)

  filter-map :
      (keep : B → Bool) (xs : List A) → filter keep (map g xs) ≡ map g (filter (λ x. keep (g x)) xs)
  unfolding filter
  filter-map keep [] = refl
  filter-map keep (x ∷ xs) = elim (Bool-cases (keep (g x))) [
    | inl e ↦ rw (e, filter) (ap (λ ys. g x ∷ ys) (filter-map keep xs))
    | inr e ↦ rw (e, filter) (filter-map keep xs)
  ]

  module _ (rank : B → Rank) where
    greater-map : (best x : A) → greater rank (g best) (g x) ≡ g (greater (λ a. rank (g a)) best x)
    unfolding greater
    greater-map best x = choose (rank_le (rank (g best)) (rank (g x)))
      where
        choose : (c : Bool) → (if c then g x else g best) ≡ g (if c then x else best)
        choose true = refl
        choose false = refl

    greatest-map :
        (best : A) (xs : List A)
        → greatest rank (g best) (map g xs) ≡ g (greatest (λ a. rank (g a)) best xs)
    unfolding greatest
    greatest-map best [] = refl
    greatest-map best (x ∷ xs) =
        ap (λ b. greatest rank b (map g xs)) (greater-map best x)
        ∙ greatest-map (greater (λ a. rank (g a)) best x) xs

    max_by_key-map :
        (xs : List A) → max_by_key rank (map g xs) ≡ map_option g (max_by_key (λ a. rank (g a)) xs)
    unfolding max_by_key map_option
    max_by_key-map [] = refl
    max_by_key-map (x ∷ xs) = ap some (greatest-map x xs)

map_option-map_option :
    {A B C : Type 0} (f : B → C) (g : A → B) (o : Option A)
    → map_option f (map_option g o) ≡ map_option (λ a. f (g a)) o
unfolding map_option
map_option-map_option f g none = refl
map_option-map_option f g (some a) = refl

-- A lookup in the bindings alone finds the binding that the registry finds.
pub keymap_winner_in-keybindings :
    (r : ContributionRegistry) (key : ℕ) (ctx : KeyContext)
    → keymap_winner_in (keybindings r) key ctx ≡ map_option (λ e. e.1) (keymap_winner r key ctx)
unfolding keymap_winner_in keymap_winner
keymap_winner_in-keybindings r key ctx =
    let binding : ScopePath × Keybinding → Keybinding = λ e. e.1 in
    let shifted : ℕ × (ScopePath × Keybinding) → ℕ × Keybinding = λ e. (e.0, e.1.1) in
    let among =
      filter (λ (e : ℕ × (ScopePath × Keybinding)). live key ctx e.1.1) (enumerate 0 r.keymaps) in
    ap
      (λ es.
        map_option (λ e. e.1) (max_by_key (λ e. layer e.0 e.1) (filter (λ e. live key ctx e.1) es)))
      (enumerate-map binding 0 r.keymaps)
    ∙ ap (λ es. map_option (λ e. e.1) (max_by_key (λ e. layer e.0 e.1) es))
        (filter-map shifted (λ e. live key ctx e.1) (enumerate 0 r.keymaps))
    ∙ ap (map_option (λ e. e.1)) (max_by_key-map shifted (λ e. layer e.0 e.1) among)
    ∙ map_option-map_option (λ e. e.1) shifted (max_by_key (λ e. layer e.0 e.1.1) among)
    ∙ sym (map_option-map_option binding (λ e. e.1) (max_by_key (λ e. layer e.0 e.1.1) among))
