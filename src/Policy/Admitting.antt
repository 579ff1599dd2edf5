-- ===== src/Policy/Admitting.antt =====
-- What the gate of crates/kanbei-policy/src/lib.rs lets through.
use kanbei.Base.{
  ℕ, ◌≡◌, ◌≢◌, refl, sym, ◌∙◌, ◌≤◌, ◌⊎◌, inl, inr, Bool, true, false, ltb, List, [], ◌∷◌, length,
  some, Bool-cases, arith,
}
use kanbei.Policy.{
  Candidate, RetentionDecision, store, transform, drop, reject_execution, oversized, plugin_error,
  rejected_error, non_resumable_error, invalid_pattern, PolicyResult, ok, err, Admission, stored,
  dropped, non_resumable_boundary, RetentionGate, gate_replay_relevant, admission_of,
  admit_decision, admit,
}
use kanbei.Policy.Builtins.{Pattern, redact, pattern_redaction}

ok-inj {ℓ} : {A : Type ℓ} {a b : A} → ok a ≡ ok b → a ≡ b
ok-inj h = cc

admission-dropped :
    (content : List ℕ) (relevant : Bool) (d : RetentionDecision) (reason : ℕ)
    → admission_of content relevant d ≡ dropped reason
    → (d ≡ drop reason) × (relevant ≡ false)
unfolding admission_of
admission-dropped content relevant store reason h = absurd (cc)
admission-dropped content relevant (transform bytes) reason h = absurd (cc)
admission-dropped content true (drop r) reason h = absurd (cc)
admission-dropped content false (drop r) reason h = (cc, refl)
admission-dropped content relevant (reject_execution r) reason h = absurd (cc)

admission-stored :
    (content : List ℕ) (relevant : Bool) (d : RetentionDecision) (bytes : List ℕ)
    → admission_of content relevant d ≡ stored bytes
    → ((d ≡ store) × (bytes ≡ content)) ⊎ (d ≡ transform bytes)
unfolding admission_of
admission-stored content relevant store bytes h = inl (refl, cc)
admission-stored content relevant (transform b) bytes h = inr (cc)
admission-stored content true (drop r) bytes h = absurd (cc)
admission-stored content false (drop r) bytes h = absurd (cc)
admission-stored content relevant (reject_execution r) bytes h = absurd (cc)

-- An admission that is no boundary: the plugin has decided.
decided :
    (gate : RetentionGate) (candidate : Candidate) (m : PolicyResult RetentionDecision)
    (a : Admission)
    → admit_decision gate candidate m ≡ ok a
    → ((d : RetentionDecision) × (m ≡ ok d)
        × (admission_of candidate.content
              (gate_replay_relevant gate candidate.role (some candidate.replay_relevant))
              d
            ≡ a))
      ⊎ ((reason : ℕ) × (a ≡ non_resumable_boundary reason))
unfolding admit_decision
decided gate candidate (ok d) a h = inl (d, refl, ok-inj h)
decided gate candidate (err (plugin_error m)) a h = absurd (cc)
decided gate candidate (err (non_resumable_error reason)) a h = inr (reason, sym (ok-inj h))
decided gate candidate (err (oversized b l)) a h = absurd (cc)
decided gate candidate (err (rejected_error reason)) a h = absurd (cc)
decided gate candidate (err (invalid_pattern p)) a h = absurd (cc)

module _ (gate : RetentionGate) (candidate : Candidate) where
  within :
      (a : Admission)
      → admit gate candidate ≡ ok a
      → (length candidate.content ≤ gate.max_candidate_bytes)
        × (admit_decision gate candidate (gate.decide candidate) ≡ ok a)
  unfolding admit
  within a h = elim (Bool-cases (ltb gate.max_candidate_bytes (length candidate.content))) [
    | inl e ↦ absurd (cc (rw (e, admit) at h))
    | inr e ↦ (ground (arith, e), rw (e, admit) at h)
  ]

  -- A candidate is dropped in silence only if it is within the limit, its plugin drops it, and it is not relevant to
  -- a replay.
  pub admit-dropped :
      (reason : ℕ)
      → admit gate candidate ≡ ok (dropped reason)
      → (length candidate.content ≤ gate.max_candidate_bytes)
        × (gate.decide candidate ≡ ok (drop reason))
        × (gate_replay_relevant gate candidate.role (some candidate.replay_relevant) ≡ false)
  admit-dropped reason h =
      let (fits, k) = within (dropped reason) h in
      elim (decided gate candidate (gate.decide candidate) (dropped reason) k) [
        | inr (r, e) ↦ absurd (cc)
        | inl (d, e, f) ↦
            let (g, n) =
              admission-dropped candidate.content
                (gate_replay_relevant gate candidate.role (some candidate.replay_relevant)) d reason
                f in
            (fits, cc, n)
      ]

  -- The bytes that are stored are within the limit before the plugin runs, and are the candidate's if the plugin
  -- stores it, else those that the plugin gave.
  pub admit-stored :
      (bytes : List ℕ)
      → admit gate candidate ≡ ok (stored bytes)
      → (length candidate.content ≤ gate.max_candidate_bytes)
        × (((gate.decide candidate ≡ ok store) × (bytes ≡ candidate.content))
            ⊎ (gate.decide candidate ≡ ok (transform bytes)))
  admit-stored bytes h =
      let (fits, k) = within (stored bytes) h in
      elim (decided gate candidate (gate.decide candidate) (stored bytes) k) [
        | inr (r, e) ↦ absurd (cc)
        | inl (d, e, f) ↦
            elim (admission-stored candidate.content
              (gate_replay_relevant gate candidate.role (some candidate.replay_relevant)) d bytes
              f) [ inl (g, n) ↦ (fits, inl (cc, n)) | inr g ↦ (fits, inr (cc)) ]
      ]

redact-unmatched :
    (patterns : List Pattern) (current : List ℕ) (matched : Bool)
    → (redact patterns current matched).1 ≡ false
    → (redact patterns current matched).0 ≡ current
unfolding redact
redact-unmatched [] current matched h = refl
redact-unmatched (p ∷ ps) current matched h = elim (Bool-cases (p.is_match current)) [
  | inl e ↦ absurd (matched-stays ps (p.replace_all current) (rw (e, redact) at h))
  | inr e ↦ rw (e, redact) (redact-unmatched ps current matched (rw (e, redact) at h))
]
  where
    matched-stays : (qs : List Pattern) (bytes : List ℕ) → (redact qs bytes true).1 ≢ false
    matched-stays [] bytes k = cc
    matched-stays (q ∷ qs) bytes k = elim (Bool-cases (q.is_match bytes)) [
      | inl e ↦ matched-stays qs (q.replace_all bytes) (rw (e, redact) at k)
      | inr e ↦ matched-stays qs bytes (rw (e, redact) at k)
    ]

redaction-cases :
    (patterns : List Pattern) (candidate : Candidate)
    → ((redact patterns candidate.content false).1 ≡ true)
        × (pattern_redaction patterns candidate
            ≡ ok (transform (redact patterns candidate.content false).0))
      ⊎ ((redact patterns candidate.content false).0 ≡ candidate.content)
        × (pattern_redaction patterns candidate ≡ ok store)
unfolding pattern_redaction
redaction-cases patterns candidate = elim (Bool-cases (redact patterns candidate.content false).1) [
  | inl e ↦ inl (e, rw (e, pattern_redaction) refl)
  | inr e ↦
      inr (redact-unmatched patterns candidate.content false e, rw (e, pattern_redaction) refl)
]

transform-inj : {a b : List ℕ} → ok (transform a) ≡ ok (transform b) → a ≡ b
transform-inj h = cc

-- Under the pattern policy the gate stores the redaction of a candidate, and nothing else.
pub admit-redact :
    (gate : RetentionGate) (patterns : List Pattern) (candidate : Candidate) (bytes : List ℕ)
    → admit (record gate { decide = pattern_redaction patterns }) candidate ≡ ok (stored bytes)
    → bytes ≡ (redact patterns candidate.content false).0
admit-redact gate patterns candidate bytes h =
    elim (admit-stored (record gate { decide = pattern_redaction patterns }) candidate bytes h).1 [
      | inl (e, b) ↦ elim (redaction-cases patterns candidate) [
        | inl (m, f) ↦ absurd (cc (sym e ∙ f))
        | inr (m, f) ↦ b ∙ sym m
      ]
      | inr e ↦ elim (redaction-cases patterns candidate) [
        | inl (m, f) ↦ transform-inj (sym e ∙ f)
        | inr (m, f) ↦ absurd (cc (sym e ∙ f))
      ]
    ]
