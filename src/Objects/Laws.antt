-- ===== src/Objects/Laws.antt =====
-- Laws of the object store of crates/kanbei-objects/src/lib.rs: the listing of the quarantine, what is
-- read back after an install, and the file operations of the collector.
use kanbei.Base.{
  ℕ, ◌≤◌, ◌≡◌, refl, ◌∙◌, ◌==◌, ==_refl, ==_iff, false, ◌||◌, some, List, [], ◌∷◌, arith,
  Option-cases, inl, inr, ◌↔◌, contains, All, length,
}
use kanbei.Base.Map.{Map, lookup, keys, lookup-insert, IsDistinct}
use kanbei.Objects.{
  Bytes, ObjectStore, ok, installed, install, get, exists, insert_by_digest, times,
  max_object_bytes,
}

contains-insert_by_digest :
    (a d t : ℕ) (es : List (ℕ × ℕ))
    → contains a (keys (insert_by_digest (d, t) es)) ≡ ((d == a) || contains a (keys es))
unfolding insert_by_digest
contains-insert_by_digest a d t [] = refl
contains-insert_by_digest a d t ((e, u) ∷ es) = ground (arith, contains-insert_by_digest a d t es)

pub contains-times :
    (a : ℕ) (m : Map (Bytes × ℕ)) → contains a (keys (times m)) ≡ contains a (keys m)
unfolding times
contains-times a [] = refl
contains-times a ((d, (b, t)) ∷ m) =
    contains-insert_by_digest a d t (times m) ∙ ground (arith, contains-times a m)

insert_by_digest-IsDistinct :
    (d t : ℕ) (es : List (ℕ × ℕ))
    → contains d (keys es) ≡ false
    → IsDistinct (keys es)
    → IsDistinct (keys (insert_by_digest (d, t) es))
unfolding insert_by_digest
insert_by_digest-IsDistinct d t [] h k = (refl, tt)
insert_by_digest-IsDistinct d t ((e, u) ∷ es) h k =
    ground (arith, contains-insert_by_digest e d t es, insert_by_digest-IsDistinct d t es)

pub times-IsDistinct : (m : Map (Bytes × ℕ)) → IsDistinct (keys m) → IsDistinct (keys (times m))
unfolding times
times-IsDistinct [] h = tt
times-IsDistinct ((d, (b, t)) ∷ m) h =
    insert_by_digest-IsDistinct d t (times m) (contains-times d m ∙ h.0) (times-IsDistinct m h.1)

-- A listed digest is in the quarantine with the listed time.
abbrev pub IsListed : Map (Bytes × ℕ) → ℕ × ℕ → Type 0
IsListed m (d, t) = (b : Bytes) × (lookup d m ≡ some (b, t))

All-insert_by_digest {κ} :
    (P : ℕ × ℕ → Type κ) (x : ℕ × ℕ) (es : List (ℕ × ℕ))
    → P x
    → All P es
    → All P (insert_by_digest x es)
unfolding insert_by_digest
All-insert_by_digest P (d, t) [] h k = (h, tt)
All-insert_by_digest P (d, t) ((e, u) ∷ es) h k =
    ground (arith, All-insert_by_digest P (d, t) es h k.1)

IsListed-cons :
    (d t : ℕ) (b : Bytes) (m : Map (Bytes × ℕ)) (es : List (ℕ × ℕ))
    → contains d (keys es) ≡ false
    → All (IsListed m) es
    → All (IsListed ((d, (b, t)) ∷ m)) es
unfolding lookup
IsListed-cons d t b m [] h k = tt
IsListed-cons d t b m ((e, u) ∷ es) h k =
    ((k.0.0, ground (arith, k.0.1)), IsListed-cons d t b m es (ground arith) k.1)

pub times-IsListed : (m : Map (Bytes × ℕ)) → IsDistinct (keys m) → All (IsListed m) (times m)
unfolding times lookup
times-IsListed [] h = tt
times-IsListed ((d, (b, t)) ∷ m) h =
    All-insert_by_digest (IsListed ((d, (b, t)) ∷ m)) (d, t) (times m)
      (b, ground (arith, ==_refl d))
      (IsListed-cons d t b m (times m) (contains-times d m ∙ h.0) (times-IsListed m h.1))

-- The file operations of the collector of crates/kanbei-gc/src/lib.rs stay in `Gc`; these are the laws of
-- installs and verified reads.
module _ (hash : Bytes → ℕ) where
  -- Every object of the store has its digest for a name, and a size within the quota.
  pub record IsVerified (s : ObjectStore) : Type 0 where
    pub at :
        (d : ℕ) (b : Bytes)
        → lookup d s.objects ≡ some b
        → (hash b ≡ d) × (length b ≤ max_object_bytes)

  -- A read returns bytes exactly when they are the file's, within the quota, and have the digest asked
  -- for: it never returns unverified bytes.
  pub get-ok_iff :
      (s : ObjectStore) (d : ℕ) (b : Bytes)
      → (get hash s d ≡ ok b)
        ↔ ((lookup d s.objects ≡ some b) × (length b ≤ max_object_bytes) × (hash b ≡ d))
  unfolding get
  get-ok_iff s d b = (λ h. (ground arith, ground arith, ground arith), λ (h, k, e). ground arith)

  -- An install within the quota leaves every object in place with its bytes, keeps the store verified,
  -- and is read back: if no other bytes have that digest, as the bytes that were installed.
  pub get-install :
      (s : ObjectStore) (b : Bytes)
      → length b ≤ max_object_bytes
      → IsVerified s
      → ((x : Bytes) → hash x ≡ hash b → x ≡ b)
      → ((install hash s b).1 ≡ installed (hash b))
        × (get hash (install hash s b).0 (hash b) ≡ ok b)
        × IsVerified (install hash s b).0
        × ((d : ℕ) (x : Bytes)
            → lookup d s.objects ≡ some x
            → lookup d (install hash s b).0.objects ≡ some x)
  unfolding install get exists
  get-install s b small v injective = elim (Option-cases (lookup (hash b) s.objects)) [
    | inl e ↦ (
      ground arith,
      ground (arith, lookup-insert (hash b) (hash b) b s.objects),
      record { at = λ d x p. ground (arith, v.at d x, lookup-insert (hash b) d b s.objects) },
      λ d x p. ground (arith, lookup-insert (hash b) d b s.objects, ==_iff (hash b) d),
    )
    | inr (y, e) ↦
        let same = injective y (v.at (hash b) y e).0 in
        (ground arith, ground arith, ground arith, λ d x p. ground arith)
  ]
