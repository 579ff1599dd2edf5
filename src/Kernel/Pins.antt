-- ===== src/Kernel/Pins.antt =====
-- The writer pins of crates/kanbei-kernel/src/pins.rs: a set of digests, and a guard that remembers what it
-- has pinned.
use kanbei.Base.{
  ℕ, ◌≡◌, not, ◌&&◌, List, [], ◌∷◌, ◌++◌, if◌then◌else◌, ◌==◌, contains, contains-append,
  contains-keep, keep, arith,
}

-- `HashSet::insert`, and the guard's list.
unfoldable pub pin : ℕ → List ℕ × List ℕ → List ℕ × List ℕ
pin d (pins, added) = (if contains d pins then pins else d ∷ pins, added ++ d ∷ [])

-- `Drop::drop`.
unfoldable pub drop_guard : List ℕ × List ℕ → List ℕ
drop_guard (pins, added) = keep (λ d. not (contains d added)) pins

pub contains-drop_guard :
    (d : ℕ) (g : List ℕ × List ℕ)
    → contains d (drop_guard g) ≡ (not (contains d g.1) && contains d g.0)
unfolding drop_guard
contains-drop_guard d (pins, added) = contains-keep d (λ e. not (contains e added)) pins

-- Where a guard has also pinned `e`, its end leaves pinned what it would have left without, but for `e`.
pub drop_guard-pin :
    (d e : ℕ) (g : List ℕ × List ℕ)
    → contains d (drop_guard (pin e g)) ≡ (not (e == d) && contains d (drop_guard g))
unfolding pin
drop_guard-pin d e g =
    rw
      (
        contains-drop_guard d (pin e g),
        contains-drop_guard d g,
        contains-append d g.1 (e ∷ []),
        pin,
      )
      (ground arith)
