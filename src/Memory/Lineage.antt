-- ===== src/Memory/Lineage.antt =====
-- The committed transitions of a scope of crates/kanbei-memory/src/actor.rs as one line of roots.
use mathlib.Core.List.{append_assoc, append-nil}
use kanbei.Base.{
  ℕ, suc, ◌++◌, ◌||◌, ◌≡◌, refl, sym, ap, ◌∙◌, inl, inr, false, Option, none, some, List, [], ◌∷◌,
  map, length, length-append, Option-cases, arith,
}
use kanbei.Memory.Types.{MemoryScope, IdempotencyKey, same_key, MemoryTransition}
use kanbei.Memory.Check.{seen}
use kanbei.Memory.Scan.{LogScan, no_scan, note, adopt, unopened}
use kanbei.Memory.Rereading.{noted, actor_at}

-- The root behind the transitions.
unfoldable pub last_root : Option ℕ → List MemoryTransition → Option ℕ
last_root r [] = r
last_root r (t ∷ ts) = last_root (some t.accepted_new_root) ts

abbrev pub roots : List MemoryTransition → List ℕ
roots ts = map (λ t. t.accepted_new_root) ts

abbrev pub keys_of : List MemoryTransition → List IdempotencyKey
keys_of ts = map (λ t. t.idempotency_key) ts

-- Each transition expects the root of the one before.
abbrev pub IsLinear : Option ℕ → List MemoryTransition → Type 0
IsLinear r [] = Unit
IsLinear r (t ∷ ts) = (t.expected_old_root ≡ r) × IsLinear (some t.accepted_new_root) ts

-- No key stands twice.
abbrev pub KeysOnce : List IdempotencyKey → Type 0
KeysOnce [] = Unit
KeysOnce (k ∷ ks) = (seen k ks ≡ false) × KeysOnce ks

pub last_root-append :
    (r : Option ℕ) (ts us : List MemoryTransition)
    → last_root r (ts ++ us) ≡ last_root (last_root r ts) us
unfolding last_root
last_root-append r [] us = refl
last_root-append r (t ∷ ts) us = last_root-append (some t.accepted_new_root) ts us

pub IsLinear-snoc :
    (r : Option ℕ) (ts : List MemoryTransition) (t : MemoryTransition)
    → IsLinear r ts
    → t.expected_old_root ≡ last_root r ts
    → IsLinear r (ts ++ t ∷ [])
unfolding last_root
IsLinear-snoc r [] t h e = (e, tt)
IsLinear-snoc r (u ∷ ts) t h e = (h.0, IsLinear-snoc (some u.accepted_new_root) ts t h.1 e)

same_key-sym : (j k : IdempotencyKey) → same_key j k ≡ same_key k j
unfolding same_key
same_key-sym j k = ground arith

seen-snoc :
    (j k : IdempotencyKey) (ks : List IdempotencyKey)
    → seen j (ks ++ k ∷ []) ≡ (seen j ks || same_key k j)
unfolding seen
seen-snoc j k [] = ground arith
seen-snoc j k (i ∷ ks) = ground (arith, seen-snoc j k ks)

pub KeysOnce-snoc :
    (ks : List IdempotencyKey) (k : IdempotencyKey)
    → KeysOnce ks
    → seen k ks ≡ false
    → KeysOnce (ks ++ k ∷ [])
unfolding seen
KeysOnce-snoc [] k h e = (refl, tt)
KeysOnce-snoc (j ∷ ks) k h e = (
  ground (arith, h.0, e, seen-snoc j k ks, same_key-sym j k),
  KeysOnce-snoc ks k h.1 (ground (arith, e)),
)

pub map-snoc {ℓ κ} :
    {A : Type ℓ} {B : Type κ} (f : A → B) (xs : List A) (x : A)
    → map f (xs ++ x ∷ []) ≡ map f xs ++ f x ∷ []
map-snoc f [] x = refl
map-snoc f (y ∷ ys) x = ap (λ zs. f y ∷ zs) (map-snoc f ys x)

pub length-snoc {ℓ} : {A : Type ℓ} (xs : List A) (x : A) → length (xs ++ x ∷ []) ≡ suc (length xs)
length-snoc xs x = omega (arith, length-append xs (x ∷ []))

pub noted-keys :
    (scan : LogScan) (ts : List MemoryTransition) → (noted scan ts).keys ≡ scan.keys ++ keys_of ts
unfolding noted note
noted-keys scan [] = sym (append-nil scan.keys)
noted-keys scan (t ∷ ts) =
    noted-keys (note t scan) ts ∙ append_assoc scan.keys (t.idempotency_key ∷ []) (keys_of ts)

root_of : Option (ℕ × ℕ) → Option ℕ
root_of none = none
root_of (some p) = some p.0

noted-root :
    (scan : LogScan) (ts : List MemoryTransition)
    → root_of (noted scan ts).last ≡ last_root (root_of scan.last) ts
unfolding noted note last_root root_of
noted-root scan [] = refl
noted-root scan (t ∷ ts) = noted-root (note t scan) ts

adopt-head :
    (scan : LogScan) (scope : MemoryScope) → (adopt scan (unopened scope)).head ≡ root_of scan.last
unfolding adopt root_of
adopt-head scan scope = elim (Option-cases scan.last) [ inl e ↦ rw e refl | inr (p, e) ↦ rw e refl ]

pub actor_at-head :
    (scope : MemoryScope) (ts : List MemoryTransition)
    → (actor_at scope ts).head ≡ last_root none ts
unfolding actor_at root_of
actor_at-head scope ts = adopt-head (noted no_scan ts) scope ∙ noted-root no_scan ts

adopt-keys :
    (scan : LogScan) (scope : MemoryScope)
    → ((adopt scan (unopened scope)).seen_keys ≡ scan.keys)
      × ((adopt scan (unopened scope)).scope ≡ scope)
unfolding adopt
adopt-keys scan scope = elim (Option-cases scan.last) [
  | inl e ↦ rw e (refl, refl)
  | inr (p, e) ↦ rw e (refl, refl)
]

pub actor_at-keys :
    (scope : MemoryScope) (ts : List MemoryTransition) → (actor_at scope ts).seen_keys ≡ keys_of ts
unfolding actor_at
actor_at-keys scope ts = (adopt-keys (noted no_scan ts) scope).0 ∙ noted-keys no_scan ts

pub actor_at-scope :
    (scope : MemoryScope) (ts : List MemoryTransition) → (actor_at scope ts).scope ≡ scope
unfolding actor_at
actor_at-scope scope ts = (adopt-keys (noted no_scan ts) scope).1

length-map {ℓ κ} :
    {A : Type ℓ} {B : Type κ} (f : A → B) (xs : List A) → length (map f xs) ≡ length xs
length-map f [] = refl
length-map f (x ∷ xs) = ap suc (length-map f xs)

pub actor_at-count :
    (scope : MemoryScope) (ts : List MemoryTransition)
    → length (actor_at scope ts).seen_keys ≡ length ts
actor_at-count scope ts =
    ap length (actor_at-keys scope ts) ∙ length-map (λ (t : MemoryTransition). t.idempotency_key) ts
