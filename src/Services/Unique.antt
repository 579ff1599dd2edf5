-- ===== src/Services/Unique.antt =====
-- The maps of crates/kanbei-services/src/lib.rs have each key once.
use kanbei.Base.{◌≡◌, inl, inr, false, some, [], ◌∷◌, All, Bool-cases, arith}
use kanbei.Services.Types.{ServiceKey, same_key, same_key_iff, same_key_refl}
use kanbei.Services.KeyMap.{KeyMap, get, put, delete}

-- A key stands once.
abbrev pub IsUnique {ℓ} : {V : Type ℓ} → KeyMap V → Type 0
IsUnique [] = Unit
IsUnique ((k, v) ∷ m) = All (λ e. same_key k e.0 ≡ false) m × IsUnique m

module _ {V : Type 0} where
  abbrev Stored : KeyMap V → ServiceKey × V → Type 0
  Stored m e = get e.0 m ≡ some e.1

  push-Stored :
      (k : ServiceKey) (v : V) (m n : KeyMap V)
      → All (λ e. same_key k e.0 ≡ false) n
      → All (Stored m) n
      → All (Stored ((k, v) ∷ m)) n
  unfolding get
  push-Stored k v m [] f h = tt
  push-Stored k v m ((j, w) ∷ n) f h = (ground (arith, f.0, h.0), push-Stored k v m n f.1 h.1)

  -- Each entry is the one that its key finds.
  pub IsUnique-Stored : (m : KeyMap V) → IsUnique m → All (λ e. get e.0 m ≡ some e.1) m
  unfolding get
  IsUnique-Stored [] u = tt
  IsUnique-Stored ((k, v) ∷ m) u =
      (ground (arith, same_key_refl k), push-Stored k v m m u.0 (IsUnique-Stored m u.1))

  All-delete :
      (P : ServiceKey × V → Type 0) (k : ServiceKey) (m : KeyMap V) → All P m → All P (delete k m)
  unfolding delete
  All-delete P k [] h = tt
  All-delete P k ((j, v) ∷ m) h = elim (Bool-cases (same_key j k)) [
    | inl e ↦ rw (e, delete) (All-delete P k m h.1)
    | inr e ↦ rw (e, delete) (h.0, All-delete P k m h.1)
  ]

  pub delete-IsUnique : (k : ServiceKey) (m : KeyMap V) → IsUnique m → IsUnique (delete k m)
  unfolding delete
  delete-IsUnique k [] u = tt
  delete-IsUnique k ((j, v) ∷ m) u = elim (Bool-cases (same_key j k)) [
    | inl e ↦ rw (e, delete) (delete-IsUnique k m u.1)
    | inr e ↦
        rw (e, delete) (All-delete (λ i. same_key j i.0 ≡ false) k m u.0, delete-IsUnique k m u.1)
  ]

  delete-absent : (k : ServiceKey) (m : KeyMap V) → All (λ e. same_key k e.0 ≡ false) (delete k m)
  unfolding delete
  delete-absent k [] = tt
  delete-absent k ((j, v) ∷ m) = elim (Bool-cases (same_key j k)) [
    | inl e ↦ rw (e, delete) (delete-absent k m)
    | inr e ↦
        rw (e, delete) (ground (arith, e, same_key_iff j k, same_key_iff k j), delete-absent k m)
  ]

  pub put-IsUnique : (k : ServiceKey) (v : V) (m : KeyMap V) → IsUnique m → IsUnique (put k v m)
  unfolding put
  put-IsUnique k v m u = (delete-absent k m, delete-IsUnique k m u)
