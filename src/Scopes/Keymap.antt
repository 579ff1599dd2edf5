-- ===== src/Scopes/Keymap.antt =====
-- The layered lookup of key bindings in crates/kanbei-scopes/src/registry.rs: `keymap_for`, `keymap_winner`,
-- `keymap_winner_in` and `keybindings`.
use kanbei.Base.{
  ℕ, ◌+◌, ◌≡◌, refl, subst, inl, inr, Bool, true, false, ◌&&◌, ◌==◌, ltb, leb, Option, none, some,
  List, [], ◌∷◌, map, if◌then◌else◌, All, All-mono, Bool-cases, arith,
}
use kanbei.Base.Ranking.{
  Rank, rank_le, enumerate, filter, max_by_key, max_by_key-above, max_by_key-All,
}
use kanbei.Services.Types.{ScopePath, same_path}
use kanbei.Scopes.Contrib.{Keybinding, KeyContext, matches, context_rank, origin_rank}
use kanbei.Scopes.State.{ContributionRegistry}
use kanbei.Scopes.Validate.{map_option}

-- The filter and the rank of a binding at its index.
unfoldable pub live : ℕ → KeyContext → Keybinding → Bool
unfolding matches
live key ctx kb = (kb.key == key) && matches kb.context ctx

unfoldable pub layer : ℕ → Keybinding → Rank
unfolding context_rank origin_rank
layer i kb = record { first = context_rank kb.context; second = origin_rank kb.origin; third = i }

unfoldable pub keymap_winner :
    ContributionRegistry → ℕ → KeyContext → Option (ScopePath × Keybinding)
unfolding live layer max_by_key filter enumerate map_option
keymap_winner r key ctx =
    map_option (λ e. e.1)
      (max_by_key (λ e. layer e.0 e.1.1) (filter (λ e. live key ctx e.1.1) (enumerate 0 r.keymaps)))

unfoldable pub keymap_for : ContributionRegistry → ScopePath → ℕ → KeyContext → Option Keybinding
unfolding live layer max_by_key filter enumerate map_option same_path
keymap_for r scope key ctx =
    map_option (λ e. e.1.1)
      (max_by_key (λ e. layer e.0 e.1.1)
        (filter (λ e. same_path e.1.0 scope && live key ctx e.1.1) (enumerate 0 r.keymaps)))

unfoldable pub keymap_winner_in : List Keybinding → ℕ → KeyContext → Option Keybinding
unfolding live layer max_by_key filter enumerate map_option
keymap_winner_in bindings key ctx =
    map_option (λ e. e.1)
      (max_by_key (λ e. layer e.0 e.1) (filter (λ e. live key ctx e.1) (enumerate 0 bindings)))

abbrev pub keybindings : ContributionRegistry → List Keybinding
keybindings r = map (λ e. e.1) r.keymaps

-- One binding outranks another, by its context and then by its origin, or by neither.
unfoldable pub outranked : Keybinding → Keybinding → Bool
unfolding context_rank origin_rank
outranked a b =
    if ltb (context_rank a.context) (context_rank b.context)
    then true
    else if ltb (context_rank b.context) (context_rank a.context)
    then false
    else leb (origin_rank a.origin) (origin_rank b.origin)

outranked-rank_le :
    (i j : ℕ) (a b : Keybinding) → rank_le (layer i a) (layer j b) ≡ true → outranked a b ≡ true
unfolding rank_le layer outranked
outranked-rank_le i j a b h = ground (arith, h)

module _ {A : Type 0} (P : A → Type 0) where
  All-enumerate : (i : ℕ) (xs : List A) → All P xs → All (λ (e : ℕ × A). P e.1) (enumerate i xs)
  unfolding enumerate
  All-enumerate i [] h = tt
  All-enumerate i (x ∷ xs) h = (h.0, All-enumerate (i + 1) xs h.1)

  All-of-enumerate : (i : ℕ) (xs : List A) → All (λ (e : ℕ × A). P e.1) (enumerate i xs) → All P xs
  unfolding enumerate
  All-of-enumerate i [] h = tt
  All-of-enumerate i (x ∷ xs) h = (h.0, All-of-enumerate (i + 1) xs h.1)

  All-filter :
      (keep : A → Bool) (xs : List A) → ((x : A) → keep x ≡ true → P x) → All P (filter keep xs)
  unfolding filter
  All-filter keep [] f = tt
  All-filter keep (x ∷ xs) f = elim (Bool-cases (keep x)) [
    | inl e ↦ rw (e, filter) (f x e, All-filter keep xs f)
    | inr e ↦ rw (e, filter) (All-filter keep xs f)
  ]

  All-of-filter :
      (keep : A → Bool) (xs : List A) → All P (filter keep xs) → All (λ x. keep x ≡ true → P x) xs
  unfolding filter
  All-of-filter keep [] h = tt
  All-of-filter keep (x ∷ xs) h = elim (Bool-cases (keep x)) [
    | inl e ↦
        let k : P x × All P (filter keep xs) = rw (e, filter) at h in
        (λ _. k.0, All-of-filter keep xs k.1)
    | inr e ↦ (λ f. absurd (cc), All-of-filter keep xs (rw (e, filter) at h))
  ]

map_option-some :
    {A B : Type 0} (f : A → B) (o : Option A) (b : B)
    → map_option f o ≡ some b
    → (a : A) × (o ≡ some a) × (f a ≡ b)
unfolding map_option
map_option-some f none b h = absurd (cc)
map_option-some f (some a) b h = (a, refl, cc)

-- The winner of a key is a live binding of it, and outranks every live binding of the key in context and origin.
pub keymap_winner-outranks :
    (r : ContributionRegistry) (key : ℕ) (ctx : KeyContext) (scope : ScopePath) (kb : Keybinding)
    → keymap_winner r key ctx ≡ some (scope, kb)
    → (live key ctx kb ≡ true)
      × All (λ e. live key ctx e.1 ≡ true → outranked e.1 kb ≡ true) r.keymaps
unfolding keymap_winner
keymap_winner-outranks r key ctx scope kb h =
    let candidates =
      filter (λ (e : ℕ × (ScopePath × Keybinding)). live key ctx e.1.1) (enumerate 0 r.keymaps) in
    let (won, e, f) =
      map_option-some (λ (e : ℕ × (ScopePath × Keybinding)). e.1)
        (max_by_key (λ e. layer e.0 e.1.1) candidates) (scope, kb) h in
    let alive =
      max_by_key-All (λ (e : ℕ × (ScopePath × Keybinding)). layer e.0 e.1.1)
        (λ e. live key ctx e.1.1 ≡ true) candidates won e
        (All-filter (λ e. live key ctx e.1.1 ≡ true) (λ e. live key ctx e.1.1)
          (enumerate 0 r.keymaps) (λ x t. t)) in
    let above =
      All-of-filter
        (λ (x : ℕ × (ScopePath × Keybinding)).
          rank_le (layer x.0 x.1.1) (layer won.0 won.1.1) ≡ true)
        (λ e. live key ctx e.1.1) (enumerate 0 r.keymaps)
        (max_by_key-above (λ (e : ℕ × (ScopePath × Keybinding)). layer e.0 e.1.1) candidates won
          e) in
    subst
      (λ (p : ScopePath × Keybinding).
        (live key ctx p.1 ≡ true)
        × All (λ x. live key ctx x.1 ≡ true → outranked x.1 p.1 ≡ true) r.keymaps)
      f
      (
        alive,
        All-of-enumerate (λ x. live key ctx x.1 ≡ true → outranked x.1 won.1.1 ≡ true) 0 r.keymaps
            (All-mono
              (λ (x : ℕ × (ScopePath × Keybinding)).
                live key ctx x.1.1 ≡ true → rank_le (layer x.0 x.1.1) (layer won.0 won.1.1) ≡ true)
              (λ (x : ℕ × (ScopePath × Keybinding)).
                live key ctx x.1.1 ≡ true → outranked x.1.1 won.1.1 ≡ true)
              (λ x g t. outranked-rank_le x.0 won.0 x.1.1 won.1.1 (g t)) (enumerate 0 r.keymaps)
              above),
      )
