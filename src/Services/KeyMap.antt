-- ===== src/Services/KeyMap.antt =====
-- `HashMap` with service keys, for crates/kanbei-services/src/lib.rs. A key stands in the list once.
use kanbei.Base.{◌≡◌, Option, none, some, List, [], ◌∷◌, if◌then◌else◌, arith}
use kanbei.Services.Types.{ServiceKey, same_key, same_key_iff}

abbrev pub KeyMap {ℓ} : Type ℓ → Type ℓ
KeyMap V = List (ServiceKey × V)

module _ {ℓ} {V : Type ℓ} where
  unfoldable pub get : ServiceKey → KeyMap V → Option V
  get k [] = none
  get k ((j, v) ∷ m) = if same_key j k then some v else get k m

  unfoldable pub delete : ServiceKey → KeyMap V → KeyMap V
  delete k [] = []
  delete k ((j, v) ∷ m) = let rest = delete k m in if same_key j k then rest else (j, v) ∷ rest

  unfoldable pub put : ServiceKey → V → KeyMap V → KeyMap V
  unfolding delete
  put k v m = (k, v) ∷ delete k m

  pub get-delete :
      (k j : ServiceKey) (m : KeyMap V)
      → get j (delete k m) ≡ (if same_key k j then none else get j m)
  unfolding get delete
  get-delete k j [] = ground arith
  get-delete k j ((i, v) ∷ m) =
      ground (arith, same_key_iff i k, same_key_iff i j, same_key_iff k j, get-delete k j m)

  pub get-put :
      (k j : ServiceKey) (v : V) (m : KeyMap V)
      → get j (put k v m) ≡ (if same_key k j then some v else get j m)
  unfolding get put
  get-put k j v m = ground (arith, get-delete k j m)
