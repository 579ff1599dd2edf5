-- ===== src/Services/Search/Order.antt =====
-- A search of crates/kanbei-services/src/lib.rs that meets no cycle orders the nodes: each finished node stands
-- above its successors.
use kanbei.Base.{
  ℕ, zero, suc, ◌+◌, ◌≡◌, ◌≢◌, ◌<◌, refl, ◌⊎◌, inl, inr, List, [], ◌∷◌, ◌++◌, if◌then◌else◌, ◌==◌,
  ==_iff, ==_refl, Bool-cases, subst, All, All-mono, arith,
}
use kanbei.Base.Map.{Map, insert, lookup-insert}
use kanbei.Services.Search.{
  DfsColor, white, gray, black, Visit, cycle, clear, out_of_fuel, color_of, paint, visit_all, visit,
  visit_starts,
}

pub color_of-insert :
    (node v : ℕ) (c : DfsColor) (color : Map DfsColor)
    → color_of v (insert node c color) ≡ (if node == v then c else color_of v color)
unfolding color_of
color_of-insert node v c color = ground (arith, lookup-insert node v c color)

pub color-cases : (c : DfsColor) → (c ≡ white) ⊎ (c ≡ gray) ⊎ (c ≡ black)
color-cases white = inl refl
color-cases gray = inr (inl refl)
color-cases black = inr (inr refl)

pub Visit-cases :
    (v : Visit)
    → ((c : Map DfsColor) × (v ≡ clear c)) ⊎ ((ns : List ℕ) × (v ≡ cycle ns)) ⊎ (v ≡ out_of_fuel)
Visit-cases (clear c) = inl (c, refl)
Visit-cases (cycle ns) = inr (inl (ns, refl))
Visit-cases out_of_fuel = inr (inr refl)

clear-inj : {a b : Map DfsColor} → Visit.clear a ≡ clear b → a ≡ b
clear-inj h = cc

module _ (next : ℕ → List ℕ) where
  -- Finished nodes have ranks, each above those of its successors.
  pub record Ranked (color : Map DfsColor) : Type 0 where
    pub rank : ℕ → ℕ
    pub top : ℕ
    pub below : (u : ℕ) → color_of u color ≡ black → rank u < top
    pub falls :
        (u : ℕ)
        → color_of u color ≡ black
        → All (λ v. (color_of v color ≡ black) × (rank v < rank u)) (next u)

  -- What a search leaves: an order, and the colors but for white nodes that have become black.
  pub record Painted (old new : Map DfsColor) : Type 0 where
    pub ranked : Ranked new
    pub still_black : (v : ℕ) → color_of v old ≡ black → color_of v new ≡ black
    pub still_gray : (v : ℕ) → color_of v old ≡ gray → color_of v new ≡ gray
    pub no_gray : (v : ℕ) → color_of v new ≡ gray → color_of v old ≡ gray

  Painted-trans : {a b c : Map DfsColor} → Painted a b → Painted b c → Painted a c
  Painted-trans p q = record {
    ranked = q.ranked;
    still_black = λ v h. q.still_black v (p.still_black v h);
    still_gray = λ v h. q.still_gray v (p.still_gray v h);
    no_gray = λ v h. p.no_gray v (q.no_gray v h);
  }

  Painted-refl : (color : Map DfsColor) → Ranked color → Painted color color
  Painted-refl color r = record {
    ranked = r;
    still_black = λ v h. h;
    still_gray = λ v h. h;
    no_gray = λ v h. h;
  }

  abbrev Finishes : (ℕ → Map DfsColor → Visit) → Type 0
  Finishes go =
      (s : ℕ) (color painted : Map DfsColor)
      → Ranked color
      → color_of s color ≡ white
      → go s color ≡ clear painted
      → Painted color painted × (color_of s painted ≡ black)

  visit_all-Painted :
      (go : ℕ → Map DfsColor → Visit) (path ss : List ℕ) (color painted : Map DfsColor)
      → Finishes go
      → Ranked color
      → visit_all go path ss color ≡ clear painted
      → Painted color painted × All (λ s. color_of s painted ≡ black) ss
  unfolding visit_all
  visit_all-Painted go path [] color painted f r h =
      (subst (λ (p : Map DfsColor). Painted color p) (clear-inj h) (Painted-refl color r), tt)
  visit_all-Painted go path (s ∷ ss) color painted f r h = elim (color-cases (color_of s color)) [
    | inl e ↦ elim (Visit-cases (go s color)) [
      | inl (c, g) ↦
          let p = f s color c r e g in
          let rest =
            visit_all-Painted go path ss c painted f p.0.ranked (ground (arith, h, e, g)) in
          (Painted-trans p.0 rest.0, (rest.0.still_black s p.1, rest.1))
      | inr (inl (ns, g)) ↦ absurd (ground (arith, h, e, g))
      | inr (inr g) ↦ absurd (ground (arith, h, e, g))
    ]
    | inr (inl e) ↦ absurd (ground (arith, h, e))
    | inr (inr e) ↦
        let rest = visit_all-Painted go path ss color painted f r (ground (arith, h, e)) in
        (rest.0, (rest.0.still_black s e, rest.1))
  ]

  -- A node that is painted gray keeps the order of the finished ones.
  gray-Ranked :
      (node : ℕ) (color : Map DfsColor)
      → Ranked color
      → color_of node color ≡ white
      → Ranked (insert node gray color)
  gray-Ranked node color r w = record {
    rank = r.rank;
    top = r.top;
    below = λ u b. r.below u (ground (arith, b, color_of-insert node u gray color));
    falls = λ u b.
        All-mono (λ v. (color_of v color ≡ black) × (r.rank v < r.rank u))
          (λ v. (color_of v (insert node gray color) ≡ black) × (r.rank v < r.rank u))
          (λ v k. (ground (arith, k.0, w, color_of-insert node v gray color, ==_iff node v), k.1))
          (next u) (r.falls u (ground (arith, b, color_of-insert node u gray color)));
  }

  black_below :
      (node u : ℕ) (color : Map DfsColor) (r : Ranked color)
      → color_of u (insert node black color) ≡ black
      → (if node == u then r.top else r.rank u) < r.top + 1
  black_below node u color r b = ground (arith, b, color_of-insert node u black color, r.below u)

  black_falls :
      (node u v : ℕ) (color : Map DfsColor) (r : Ranked color)
      → color_of node color ≡ gray
      → color_of v color ≡ black
      → (node ≡ u) ⊎ (r.rank v < r.rank u) × (node ≢ u)
      → (color_of v (insert node black color) ≡ black)
        × ((if node == v then r.top else r.rank v) < (if node == u then r.top else r.rank u))
  black_falls node u v color r g b k =
      ground (arith, color_of-insert node v black color, r.below v b, g, b, k, ==_iff node v)

  -- A gray node whose successors are all finished is finished above them.
  black-Ranked :
      (node : ℕ) (color : Map DfsColor)
      → Ranked color
      → color_of node color ≡ gray
      → All (λ s. color_of s color ≡ black) (next node)
      → Ranked (insert node black color)
  black-Ranked node color r g done = record {
    rank = λ u. if node == u then r.top else r.rank u;
    top = r.top + 1;
    below = λ u b. black_below node u color r b;
    falls = λ u b. elim (Bool-cases (node == u)) [
      | inl e ↦
          All-mono (λ v. color_of v color ≡ black)
            (λ v.
              (color_of v (insert node black color) ≡ black)
              × ((if node == v then r.top else r.rank v) < (if node == u then r.top else r.rank u)))
            (λ v k. black_falls node u v color r g k (inl (ground (arith, e)))) (next u)
            (subst (λ (x : ℕ). All (λ v. color_of v color ≡ black) (next x)) (ground (arith, e))
              done)
      | inr e ↦
          All-mono (λ v. (color_of v color ≡ black) × (r.rank v < r.rank u))
            (λ v.
              (color_of v (insert node black color) ≡ black)
              × ((if node == v then r.top else r.rank v) < (if node == u then r.top else r.rank u)))
            (λ v k.
              black_falls node u v color r g k.0
                (inr (k.1, λ (x : node ≡ u). ground (arith, e, x))))
            (next u) (r.falls u (ground (arith, b, e, color_of-insert node u black color)))
    ];
  }

  finished-Painted :
      (s : ℕ) (color c : Map DfsColor)
      → color_of s color ≡ white
      → Painted (insert s gray color) c
      → Ranked (insert s black c)
      → Painted color (insert s black c) × (color_of s (insert s black c) ≡ black)
  finished-Painted s color c w p r = (
    record {
      ranked = r;
      still_black = λ v h. ground (
        arith,
        w,
        h,
        color_of-insert s v gray color,
        color_of-insert s v black c,
        p.still_black v,
        ==_iff s v,
      );
      still_gray = λ v h. ground (
        arith,
        w,
        h,
        color_of-insert s v gray color,
        color_of-insert s v black c,
        p.still_gray v,
        ==_iff s v,
      );
      no_gray = λ v h. ground (
        arith,
        w,
        h,
        color_of-insert s v gray color,
        color_of-insert s v black c,
        p.no_gray v,
        ==_iff s v,
      );
    },
    ground (arith, color_of-insert s s black c, ==_refl s),
  )

  visit-Painted : (fuel : ℕ) (path : List ℕ) → Finishes (visit next fuel path)
  unfolding visit paint
  visit-Painted zero path s color painted r w h = absurd (cc)
  visit-Painted (suc fuel) path s color painted r w h =
      elim (Visit-cases (
        visit_all (visit next fuel (path ++ s ∷ [])) (path ++ s ∷ []) (next s)
          (insert s gray color))) [
            | inl (c, g) ↦
                let done =
                  visit_all-Painted (visit next fuel (path ++ s ∷ [])) (path ++ s ∷ []) (next s)
                    (insert s gray color) c (visit-Painted fuel (path ++ s ∷ []))
                    (gray-Ranked s color r w) g in
                let still =
                  done.0.still_gray s (ground (arith, color_of-insert s s gray color, ==_refl s)) in
                subst (λ (p : Map DfsColor). Painted color p × (color_of s p ≡ black))
                  (clear-inj (ground (arith, h, g)))
                  (finished-Painted s color c w done.0
                    (black-Ranked s c done.0.ranked still done.1))
            | inr (inl (ns, g)) ↦ absurd (ground (arith, h, g))
            | inr (inr g) ↦ absurd (ground (arith, h, g))
          ]

  -- Where the search over all starts ends clear, each start is finished, in an order in which every node
  -- stands above its successors.
  pub visit_starts-Ranked :
      (fuel : ℕ) (starts : List ℕ) (color painted : Map DfsColor)
      → Ranked color
      → ((v : ℕ) → color_of v color ≢ gray)
      → visit_starts next fuel starts color ≡ clear painted
      → Painted color painted × All (λ s. color_of s painted ≡ black) starts
  unfolding visit_starts
  visit_starts-Ranked fuel [] color painted r n h =
      (subst (λ (p : Map DfsColor). Painted color p) (clear-inj h) (Painted-refl color r), tt)
  visit_starts-Ranked fuel (s ∷ ss) color painted r n h = elim (color-cases (color_of s color)) [
    | inl e ↦ elim (Visit-cases (visit next fuel [] s color)) [
      | inl (c, g) ↦
          let p = visit-Painted fuel [] s color c r e g in
          let rest =
            visit_starts-Ranked fuel ss c painted p.0.ranked (λ v k. n v (p.0.no_gray v k))
              (ground (arith, h, e, g)) in
          (Painted-trans p.0 rest.0, (rest.0.still_black s p.1, rest.1))
      | inr (inl (ns, g)) ↦ absurd (ground (arith, h, e, g))
      | inr (inr g) ↦ absurd (ground (arith, h, e, g))
    ]
    | inr (inl e) ↦ absurd (n s e)
    | inr (inr e) ↦
        let rest = visit_starts-Ranked fuel ss color painted r n (ground (arith, h, e)) in
        (rest.0, (rest.0.still_black s e, rest.1))
  ]
