-- ===== src/Services/Search.antt =====
-- `visit` of crates/kanbei-services/src/lib.rs: the depth-first search for a cycle, over the numbers of the
-- nodes. The vector of colors is a map in which an absent node is white. The path that the program
-- pushes to and pops from is an argument; fuel bounds the depth, and `out_of_fuel` is proved impossible.
pub mod Order
pub mod Ending
use kanbei.Base.{
  ℕ, zero, suc, ◌≡◌, Option, none, some, List, [], ◌∷◌, ◌++◌, if◌then◌else◌, ◌==◌, Bool, true,
  false,
}
use kanbei.Base.Map.{Map, lookup, insert}

pub data DfsColor : Type 0 where
  white : DfsColor
  gray : DfsColor
  black : DfsColor

pub data Visit : Type 0 where
  cycle : List ℕ → Visit
  clear : Map DfsColor → Visit
  out_of_fuel : Visit

unfoldable pub color_of : ℕ → Map DfsColor → DfsColor
unfolding lookup
color_of node color = elim (lookup node color) [ none ↦ white | some c ↦ c ]

-- `path[start..]`, where `start` is the first position of the node.
unfoldable pub path_from : ℕ → List ℕ → List ℕ
path_from node [] = []
path_from node (p ∷ ps) = if p == node then p ∷ ps else path_from node ps

unfoldable pub paint : DfsColor → ℕ → Visit → Visit
unfolding insert
paint c node (clear color) = clear (insert node c color)
paint c node (cycle nodes) = cycle nodes
paint c node out_of_fuel = out_of_fuel

-- The loop over the successors; `go` is the recursive call, with its path.
unfoldable pub visit_all : (ℕ → Map DfsColor → Visit) → List ℕ → List ℕ → Map DfsColor → Visit
unfolding color_of path_from
visit_all go path [] color = clear color
visit_all go path (s ∷ ss) color = elim (color_of s color) [
  | gray ↦ cycle (path_from s path ++ s ∷ [])
  | black ↦ visit_all go path ss color
  | white ↦ elim (go s color) [
    | clear painted ↦ visit_all go path ss painted
    | cycle nodes ↦ cycle nodes
    | out_of_fuel ↦ out_of_fuel
  ]
]

module _ (next : ℕ → List ℕ) where
  unfoldable pub visit : ℕ → List ℕ → ℕ → Map DfsColor → Visit
  unfolding visit_all paint insert
  visit zero path node color = out_of_fuel
  visit (suc fuel) path node color = paint black node (
      visit_all (visit fuel (path ++ node ∷ [])) (path ++ node ∷ []) (next node)
        (insert node gray color))

  -- The loop of `check_dependency_cycle` over the nodes, which starts at each white one.
  unfoldable pub visit_starts : ℕ → List ℕ → Map DfsColor → Visit
  unfolding visit color_of
  visit_starts fuel [] color = clear color
  visit_starts fuel (s ∷ ss) color = elim (color_of s color) [
    | gray ↦ visit_starts fuel ss color
    | black ↦ visit_starts fuel ss color
    | white ↦ elim (visit fuel [] s color) [
      | clear painted ↦ visit_starts fuel ss painted
      | cycle nodes ↦ cycle nodes
      | out_of_fuel ↦ out_of_fuel
    ]
  ]
