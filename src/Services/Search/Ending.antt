-- ===== src/Services/Search/Ending.antt =====
-- The search of crates/kanbei-services/src/lib.rs ends: fuel for each node is enough.
use kanbei.Base.{
  ℕ, zero, suc, ◌≡◌, ◌≤◌, ◌<◌, refl, inl, inr, List, [], ◌∷◌, ◌++◌, ==_iff, All, Bool, true, false,
  contains, keep, length, length-keep-le, arith,
}
use kanbei.Base.Map.{Map, insert}
use kanbei.Services.Search.{
  DfsColor, white, gray, black, Visit, cycle, clear, out_of_fuel, color_of, paint, visit_all, visit,
  visit_starts,
}
use kanbei.Services.Search.Order.{color_of-insert, color-cases}

abbrev is_white : DfsColor → Bool
is_white white = true
is_white gray = false
is_white black = false

whites-list :
    (node : ℕ) (c : DfsColor) (color : Map DfsColor) (vs : List ℕ)
    → is_white c ≡ false
    → (length (keep (λ v. is_white (color_of v (insert node c color))) vs)
        ≤ length (keep (λ v. is_white (color_of v color)) vs))
      × (color_of node color ≡ white
          → contains node vs ≡ true
          → length (keep (λ v. is_white (color_of v (insert node c color))) vs)
            < length (keep (λ v. is_white (color_of v color)) vs))
unfolding keep
whites-list node c color [] h = (omega arith, λ w k. absurd (cc))
whites-list node c color (v ∷ vs) h =
    let rest = whites-list node c color vs h in
    (
      ground (arith, color_of-insert node v c color, rest.0),
      λ w k. ground (arith, color_of-insert node v c color, rest.0, rest.1 w, ==_iff node v),
    )

module _ (nodes : List ℕ) where
  -- The nodes that no search has met.
  unfoldable pub whites : Map DfsColor → ℕ
  unfolding keep
  whites color = length (keep (λ v. is_white (color_of v color)) nodes)

  -- A search that ends, with no more white nodes than `k`.
  abbrev pub Within : Visit → ℕ → Type 0
  Within (clear color) k = whites color ≤ k
  Within (cycle ns) k = Unit
  Within out_of_fuel k = true ≡ false

  Within-mono : (v : Visit) (j k : ℕ) → Within v j → j ≤ k → Within v k
  Within-mono (clear color) j k h le = omega arith
  Within-mono (cycle ns) j k h le = tt
  Within-mono out_of_fuel j k h le = h

  whites-insert :
      (node : ℕ) (c : DfsColor) (color : Map DfsColor)
      → is_white c ≡ false
      → whites (insert node c color) ≤ whites color
  unfolding whites
  whites-insert node c color h = (whites-list node c color nodes h).0

  whites-gray :
      (node : ℕ) (color : Map DfsColor)
      → color_of node color ≡ white
      → contains node nodes ≡ true
      → whites (insert node gray color) < whites color
  unfolding whites
  whites-gray node color w k = (whites-list node gray color nodes refl).1 w k

  paint-Within : (node : ℕ) (v : Visit) (k : ℕ) → Within v k → Within (paint black node v) k
  unfolding paint
  paint-Within node (clear color) k h = omega (arith, h, whites-insert node black color refl)
  paint-Within node (cycle ns) k h = tt
  paint-Within node out_of_fuel k h = h

  -- A call of the search with few white nodes ends.
  abbrev Ends : ℕ → (ℕ → Map DfsColor → Visit) → Type 0
  Ends fuel go =
      (s : ℕ) (color : Map DfsColor)
      → color_of s color ≡ white
      → contains s nodes ≡ true
      → whites color ≤ fuel
      → Within (go s color) (whites color)

  -- What the search of one node leaves is searched on.
  after_white :
      (rest : Map DfsColor → Visit) (v : Visit) (color : Map DfsColor)
      → Within v (whites color)
      → ((c : Map DfsColor) → whites c ≤ whites color → Within (rest c) (whites c))
      → Within
          (elim v as (λ x. Visit) [
            | clear painted ↦ rest painted
            | cycle nodes ↦ cycle nodes
            | out_of_fuel ↦ out_of_fuel
          ])
          (whites color)
  after_white rest (clear c) color h k = Within-mono (rest c) (whites c) (whites color) (k c h) h
  after_white rest (cycle ns) color h k = tt
  after_white rest out_of_fuel color h k = h

  visit_all-Within :
      (fuel : ℕ) (go : ℕ → Map DfsColor → Visit) (path ss : List ℕ) (color : Map DfsColor)
      → Ends fuel go
      → All (λ s. contains s nodes ≡ true) ss
      → whites color ≤ fuel
      → Within (visit_all go path ss color) (whites color)
  unfolding visit_all
  visit_all-Within fuel go path [] color e h le = omega arith
  visit_all-Within fuel go path (s ∷ ss) color e h le = elim (color-cases (color_of s color)) [
    | inl w ↦
        rw (w, visit_all)
          (after_white (visit_all go path ss) (go s color) color (e s color w h.0 le)
            (λ c j. visit_all-Within fuel go path ss c e h.1 (omega (arith, j, le))))
    | inr (inl w) ↦ rw (w, visit_all) tt
    | inr (inr w) ↦ rw (w, visit_all) (visit_all-Within fuel go path ss color e h.1 le)
  ]

  visit-Ends :
      (next : ℕ → List ℕ) (fuel : ℕ) (path : List ℕ)
      → ((u : ℕ) → All (λ s. contains s nodes ≡ true) (next u))
      → Ends fuel (visit next fuel path)
  unfolding visit
  visit-Ends next zero path h s color w k le = absurd (omega (arith, whites-gray s color w k))
  visit-Ends next (suc fuel) path h s color w k le =
      let painted =
        visit_all-Within fuel (visit next fuel (path ++ s ∷ [])) (path ++ s ∷ []) (next s)
          (insert s gray color) (visit-Ends next fuel (path ++ s ∷ []) h) (h s)
          (omega (arith, whites-gray s color w k)) in
      paint-Within s
        (visit_all (visit next fuel (path ++ s ∷ [])) (path ++ s ∷ []) (next s)
          (insert s gray color))
        (whites color)
        (Within-mono
          (visit_all (visit next fuel (path ++ s ∷ [])) (path ++ s ∷ []) (next s)
            (insert s gray color))
          (whites (insert s gray color)) (whites color) painted (whites-insert s gray color refl))

  -- The whole search ends within as much fuel as there are nodes.
  pub visit_starts-Within :
      (next : ℕ → List ℕ) (fuel : ℕ) (starts : List ℕ) (color : Map DfsColor)
      → ((u : ℕ) → All (λ s. contains s nodes ≡ true) (next u))
      → All (λ s. contains s nodes ≡ true) starts
      → whites color ≤ fuel
      → Within (visit_starts next fuel starts color) (whites color)
  unfolding visit_starts
  visit_starts-Within next fuel [] color h k le = omega arith
  visit_starts-Within next fuel (s ∷ ss) color h k le = elim (color-cases (color_of s color)) [
    | inl w ↦
        rw (w, visit_starts)
          (after_white (visit_starts next fuel ss) (visit next fuel [] s color) color
            (visit-Ends next fuel [] h s color w k.0 le)
            (λ c j. visit_starts-Within next fuel ss c h k.1 (omega (arith, j, le))))
    | inr (inl w) ↦ rw (w, visit_starts) (visit_starts-Within next fuel ss color h k.1 le)
    | inr (inr w) ↦ rw (w, visit_starts) (visit_starts-Within next fuel ss color h k.1 le)
  ]

  pub whites-le : (color : Map DfsColor) → whites color ≤ length nodes
  unfolding whites
  whites-le color = length-keep-le (λ v. is_white (color_of v color)) nodes
