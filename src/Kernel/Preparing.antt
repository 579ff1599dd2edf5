-- ===== src/Kernel/Preparing.antt =====
-- The object phase of crates/kanbei-kernel/src/commit.rs resolves every reference.
use kanbei.Base.{
  ℕ, ◌≡◌, subst, ◌++◌, Bool, true, false, ◌||◌, none, List, [], ◌∷◌, All, All-append, All-mono,
  arith, ltb, length, Bool-cases, inl, inr, Option-cases, if◌then◌else◌,
}
use kanbei.Objects.{Bytes, ObjectStore, exists}
use kanbei.Kernel.Commit.{
  NewEvent, Work, CommitResult, Commits, continue_with, ok, done, first_missing, check_refs,
  install_one, install_all, promote, prepare, prepare_all,
}
use kanbei.Kernel.Growth.{
  Grows-stays, Grows, Grows-refl, Grows-then, then-ok, install_one-Grows, install_one-ok,
  install_all-Grows,
}

-- One of the two sources has the object.
abbrev pub Resolves : (ℕ → Bool) → ObjectStore → ℕ → Type 0
Resolves has s r = (exists s r || has r) ≡ true

first_missing-none :
    (has : ℕ → Bool) (s : ObjectStore) (rs : List ℕ)
    → first_missing has s rs ≡ none
    → All (Resolves has s) rs
unfolding first_missing
first_missing-none has s [] h = tt
first_missing-none has s (r ∷ rs) h = ground (arith, h, first_missing-none has s rs)

Resolves-Grows :
    (has : ℕ → Bool) (w v : Work) (rs : List ℕ)
    → Grows w v
    → All (Resolves has w.store) rs
    → All (Resolves has v.store) rs
Resolves-Grows has w v rs g h =
    All-mono (Resolves has w.store) (Resolves has v.store)
      (λ r k. ground (arith, k, Grows-stays g r)) rs h

check_refs-Grows : (has : ℕ → Bool) (refs : List ℕ) (w : Work) → Grows w (check_refs has refs w).0
unfolding check_refs
check_refs-Grows has refs w = elim (Option-cases (first_missing has w.store refs)) [
  | inl h ↦ rw (h, check_refs) (Grows-refl w)
  | inr (d, h) ↦ rw (h, check_refs) (Grows-refl w)
]

check_refs-ok :
    (has : ℕ → Bool) (refs out : List ℕ) (w : Work)
    → (check_refs has refs w).1 ≡ ok out
    → (out ≡ refs) × ((check_refs has refs w).0 ≡ w) × All (Resolves has w.store) refs
unfolding check_refs
check_refs-ok has refs out w h = elim (Option-cases (first_missing has w.store refs)) [
  | inl e ↦ (ground (arith, h, e), ground (arith, e), first_missing-none has w.store refs e)
  | inr (d, e) ↦ absurd (ground (arith, h, e))
]

pub ok-inj {ℓ} : {A : Type ℓ} {a b : A} → CommitResult.ok a ≡ ok b → a ≡ b
ok-inj h = cc

module _ (hash : Bytes → ℕ) (object_payload : ℕ → Bytes) (has : ℕ → Bool) where
  promote-Grows :
      (inline_max : ℕ) (ev : NewEvent) (w : Work)
      → Grows w (promote hash object_payload inline_max ev w).0
  unfolding promote
  promote-Grows inline_max ev w = elim (Bool-cases (ltb inline_max (length ev.payload))) [
    | inl large ↦ rw large (
        Grows-then w
          (λ d. done (record ev { payload = object_payload d; refs = ev.refs ++ d ∷ [] }))
          (install_one hash ev.payload w) (install_one-Grows hash ev.payload w)
          (λ d v. Grows-refl v))
    | inr small ↦ rw small (Grows-refl w)
  ]

  abbrev promoted : NewEvent → ℕ → Commits NewEvent
  promoted ev d = done (record ev { payload = object_payload d; refs = ev.refs ++ d ∷ [] })

  installed-Resolves :
      (ev out : NewEvent) (w : Work)
      → All (Resolves has w.store) ev.refs
      → (continue_with (promoted ev) (install_one hash ev.payload w)).1 ≡ ok out
      → All
          (Resolves has (continue_with (promoted ev) (install_one hash ev.payload w)).0.store)
          out.refs
  installed-Resolves ev out w h k =
      let t = then-ok (promoted ev) (install_one hash ev.payload w) out k in
      let v = (install_one hash ev.payload w).0 in
      rw t.3 (
        subst (λ (o : NewEvent). All (Resolves has v.store) o.refs) (ok-inj t.2)
          (All-append (Resolves has v.store) ev.refs (t.0 ∷ [])
            (Resolves-Grows has w v ev.refs (install_one-Grows hash ev.payload w) h)
            (ground (arith, install_one-ok hash ev.payload w t.0 t.1), tt)))

  branch-Resolves :
      (large : Bool) (ev out : NewEvent) (w : Work)
      → All (Resolves has w.store) ev.refs
      → ((if large
            then (λ v. continue_with (promoted ev) (install_one hash ev.payload v))
            else done ev)
          w).1
        ≡ ok out
      → All
          (Resolves has
            ((if large
                then (λ v. continue_with (promoted ev) (install_one hash ev.payload v))
                else done ev)
              w).0.store)
          out.refs
  branch-Resolves true ev out w h k = installed-Resolves ev out w h k
  branch-Resolves false ev out w h k =
      subst (λ (o : NewEvent). All (Resolves has w.store) o.refs) (ok-inj k) h

  promote-Resolves :
      (inline_max : ℕ) (ev out : NewEvent) (w : Work)
      → All (Resolves has w.store) ev.refs
      → (promote hash object_payload inline_max ev w).1 ≡ ok out
      → All (Resolves has (promote hash object_payload inline_max ev w).0.store) out.refs
  unfolding promote
  promote-Resolves inline_max ev out w h k =
      branch-Resolves (ltb inline_max (length ev.payload)) ev out w h k

  pub prepare-Grows :
      (inline_max : ℕ) (ev : NewEvent) (w : Work)
      → Grows w (prepare hash object_payload has inline_max ev w).0
  unfolding prepare
  prepare-Grows inline_max ev w =
      Grows-then w
        (λ installed v.
          continue_with (λ refs. promote hash object_payload inline_max (record ev { refs = refs }))
            (check_refs has installed v))
        (install_all hash ev.objects ev.refs w) (install_all-Grows hash ev.objects ev.refs w)
        (λ installed v.
          Grows-then v (λ refs. promote hash object_payload inline_max (record ev { refs = refs }))
            (check_refs has installed v) (check_refs-Grows has installed v)
            (λ refs u. promote-Grows inline_max (record ev { refs = refs }) u))

  prepare-Resolves :
      (inline_max : ℕ) (ev out : NewEvent) (w : Work)
      → (prepare hash object_payload has inline_max ev w).1 ≡ ok out
      → All (Resolves has (prepare hash object_payload has inline_max ev w).0.store) out.refs
  unfolding prepare
  prepare-Resolves inline_max ev out w h =
      let finish : List ℕ → Commits NewEvent =
        λ refs. promote hash object_payload inline_max (record ev { refs = refs }) in
      let first =
        then-ok (λ installed v. continue_with finish (check_refs has installed v))
          (install_all hash ev.objects ev.refs w) out h in
      let w1 = (install_all hash ev.objects ev.refs w).0 in
      let second = then-ok finish (check_refs has first.0 w1) out first.2 in
      let checked = check_refs-ok has first.0 second.0 w1 second.1 in
      rw (first.3, second.3)
        (promote-Resolves inline_max (record ev { refs = second.0 }) out
          (check_refs has first.0 w1).0 (rw (checked.0, checked.1) checked.2) second.2)

  pub prepare_all-Grows :
      (inline_max : ℕ) (evs : List NewEvent) (w : Work)
      → Grows w (prepare_all hash object_payload has inline_max evs w).0
  unfolding prepare_all
  prepare_all-Grows inline_max [] w = Grows-refl w
  prepare_all-Grows inline_max (ev ∷ evs) w =
      Grows-then w
        (λ first v.
          continue_with (λ rest. done (first ∷ rest))
            (prepare_all hash object_payload has inline_max evs v))
        (prepare hash object_payload has inline_max ev w) (prepare-Grows inline_max ev w)
        (λ first v.
          Grows-then v (λ rest. done (first ∷ rest))
            (prepare_all hash object_payload has inline_max evs v)
            (prepare_all-Grows inline_max evs v) (λ rest u. Grows-refl u))

  pub prepare_all-Resolves :
      (inline_max : ℕ) (evs outs : List NewEvent) (w : Work)
      → (prepare_all hash object_payload has inline_max evs w).1 ≡ ok outs
      → All
          (λ o.
            All
              (Resolves has (prepare_all hash object_payload has inline_max evs w).0.store)
              o.refs)
          outs
  unfolding prepare_all
  prepare_all-Resolves inline_max [] outs w h =
      subst (λ (os : List NewEvent). All (λ o. All (Resolves has w.store) o.refs) os) (ok-inj h) tt
  prepare_all-Resolves inline_max (ev ∷ evs) outs w h =
      let w1 = (prepare hash object_payload has inline_max ev w).0 in
      let w2 = (prepare_all hash object_payload has inline_max evs w1).0 in
      let first =
        then-ok
          (λ o v.
            continue_with (λ rest. done (o ∷ rest))
              (prepare_all hash object_payload has inline_max evs v))
          (prepare hash object_payload has inline_max ev w) outs h in
      let second =
        then-ok (λ rest. done (first.0 ∷ rest))
          (prepare_all hash object_payload has inline_max evs w1) outs first.2 in
      rw (first.3, second.3)
        (subst (λ (os : List NewEvent). All (λ o. All (Resolves has w2.store) o.refs) os)
          (ok-inj second.2)
          (
            Resolves-Grows has w1 w2 first.0.refs (prepare_all-Grows inline_max evs w1)
                (prepare-Resolves inline_max ev first.0 w first.1),
            prepare_all-Resolves inline_max evs second.0 w1 second.1,
          ))
