-- ===== src/Scopes/Vacancy.antt =====
-- The names that crates/kanbei-scopes/src/registry.rs finds free, and the success of a chain of its checks.
use kanbei.Base.{ℕ, ◌≡◌, ◌↔◌, refl, Bool, true, Option, none, some, if◌then◌else◌, ◌||◌, is_some}
use kanbei.Base.Table.{Table, find, store, store-free}
use kanbei.Services.Types.{ScopePath}
use kanbei.Scopes.Contrib.{KindTag, ScopeError, Holder, named, ScopeResult, ok, err, ◌>>◌}
use kanbei.Scopes.Validate.{or_else, map_option, require_free}

pub ok-inj {ℓ} : {A : Type ℓ} {a b : A} → ok a ≡ ok b → a ≡ b
ok-inj h = cc

pub first-ok {ℓ} :
    {A : Type ℓ} {a : A} (m : ScopeResult {0} Unit) (n : ScopeResult A)
    → (m >> n) ≡ ok a
    → m ≡ ok tt
first-ok (ok _) n h = refl
first-ok (err e) n h = absurd (cc)

pub then-ok {ℓ} :
    {A : Type ℓ} {a : A} (m : ScopeResult {0} Unit) (n : ScopeResult A) → (m >> n) ≡ ok a → n ≡ ok a
then-ok (ok _) n h = h
then-ok (err e) n h = absurd (cc)

pub unheld :
    {V W : Type 0} (e : ScopeError) (o : Option V) (p : Option W)
    → (if is_some o || is_some p then err e else ok tt) ≡ ok (tt {0})
    → p ≡ none
unheld e none none h = refl
unheld e none (some w) h = absurd (cc)
unheld e (some v) p h = absurd (cc)

pub require_free-none :
    (tag : KindTag) (scope : ScopePath) (name : ℕ) (challenger : Holder) (held : Option Holder)
    → require_free tag scope name challenger held ≡ ok tt
    → held ≡ none
unfolding require_free
require_free-none tag scope name challenger none h = refl
require_free-none tag scope name challenger (some holder) h = absurd (cc)

-- Neither the set nor the registry holds the name.
pub or_else-none {ℓ κ} :
    {A : Type ℓ} {B : Type κ} (f : B → A) (a : Option A) (o : Option B)
    → or_else a (map_option f o) ≡ none
    → o ≡ none
unfolding or_else map_option
or_else-none f (some a) o h = absurd (cc)
or_else-none f none none h = refl
or_else-none f none (some b) h = absurd (cc)

map_option-none {ℓ κ} :
    {A : Type ℓ} {B : Type κ} (f : B → A) (o : Option B) → map_option f o ≡ none → o ≡ none
unfolding map_option
map_option-none f none h = refl
map_option-none f (some b) h = absurd (cc)

module _ {V : Type 0} (f : V → ℕ) (tag : KindTag) (scope : ScopePath) (name : ℕ)
    (challenger : Holder) (a : Option ℕ) (o : Option V) where
  pub free-none :
      require_free tag scope name challenger (map_option named (or_else a (map_option f o))) ≡ ok tt
      → o ≡ none
  free-none h = or_else-none f a o (
      map_option-none named (or_else a (map_option f o)) (
        require_free-none tag scope name challenger (map_option named (or_else a (map_option f o)))
          h))

-- A key that the old table does not have is stored.
pub stores :
    {K V : Type 0} (same : K → K → Bool) (same_iff : (j k : K) → (same j k ≡ true) ↔ (j ≡ k))
    (k : K) (w : V) (n m : Table K V)
    → find same k n ≡ none
    → ((j : K) (v : V) → find same j n ≡ some v → find same j m ≡ some v)
    → (j : K) (v : V) → find same j n ≡ some v
    → find same j (store same k w m) ≡ some v
stores same same_iff k w n m e f j v h = store-free same same_iff k j w v m n e h (f j v h)
