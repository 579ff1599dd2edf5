-- ===== src/Policy/Examples.antt =====
-- Admissions of crates/kanbei-policy/src/lib.rs at concrete candidates.
use kanbei.Base.{
  ℕ, ◌+◌, ◌≡◌, refl, ◌≤◌, true, false, ◌==◌, none, some, List, [], ◌∷◌, length, map, if◌then◌else◌,
  contains,
}
use kanbei.Policy.{
  Candidate, internal, non_resumable_error, ok, err, drop, non_resumable_boundary, RetentionGate,
  gate_replay_relevant, admit, boundary_fact, non_resumable_kind,
}
use kanbei.Policy.Builtins.{Pattern}
use kanbei.Policy.Admitting.{admit-dropped}

abbrev gate : RetentionGate
gate = record {
  decide = λ c. ok (drop 4);
  prefixed = λ m. m + 100;
  replay_default = true;
  max_candidate_bytes = 3;
}

abbrev note : Candidate
note = record {
  role = internal;
  content = 7 ∷ 8 ∷ [];
  replay_relevant = true;
  sensitivity = none;
  media = none;
}

-- A plugin's own signal makes a boundary also of what is not relevant to a replay.
abbrev signalling : RetentionGate
signalling = record gate { decide = λ c. err (non_resumable_error 5) }

signalled :
    (admit signalling note ≡ ok (non_resumable_boundary 5))
    × (gate_replay_relevant signalling internal (some true) ≡ false)
unfolding admit gate_replay_relevant
signalled = (refl, refl)

recorded :
    boundary_fact (non_resumable_boundary 5)
    ≡ some (record { kind = non_resumable_kind; reason = 5; replay_relevant = true })
unfolding boundary_fact
recorded = refl

admit-dropped_example :
    (length note.content ≤ 3)
    × (gate.decide note ≡ ok (drop 4))
    × (gate_replay_relevant gate internal (some true) ≡ false)
unfolding admit
admit-dropped_example = admit-dropped gate note 4 refl

-- The pattern of one byte.
abbrev byte : ℕ → Pattern
byte b = record { is_match = contains b; replace_all = map (λ c. if c == b then 0 else c) }

abbrev masks : List Pattern
masks = byte 7 ∷ byte 9 ∷ []
