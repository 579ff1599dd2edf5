-- ===== src/Memory/Examples.antt =====
-- A scope with one claim, for the theorems about crates/kanbei-memory/src/actor.rs.
use kanbei.Base.{true, false, ℕ, ◌≡◌, refl, subst, none, some, List, [], ◌∷◌, arith}
use kanbei.Base.Map.{lookup, insert}
use kanbei.Objects.{Bytes, install, get}
use kanbei.Log.Reader.{read_tail, has_magic, recover, for_each_frame, lines_of}
use kanbei.Log.Writer.{open_log}
use kanbei.Memory.Types.{
  lifetime, RootManifest, root_approval, MemoryTransition, ok, err, duplicate_transition,
}
use kanbei.Memory.Actor.{Moment, committed, cas_failed, propose}
use kanbei.Memory.Scan.{ScopeDir, adopt, unopened, open_actor}
use kanbei.Memory.Rereading.{actor_at, noted, Behind}
use kanbei.Memory.Proposing.{MemoryHolds}
use kanbei.Memory.Sharing.{Free, propose-Settled, propose-stale}
use kanbei.Memory.Losing.{Loss}
use kanbei.Memory.Holding.{empty_dir, crashed, empty_dir-Holds, installed-Holds}
use kanbei.Memory.Interleaving.{start, opened, installed, proposed, crash, Shared, Reach-Shared}
use kanbei.Memory.Plain.{checksum, write_root, plain, plain-Lawful}

-- The claim with identity 5, its manifest and the transition that accepts it.
abbrev claim_bytes : Bytes
claim_bytes = 5 ∷ b'h' ∷ b'i' ∷ []

abbrev first_manifest : RootManifest
first_manifest = record {
  schema = 1;
  parent = none;
  scope = lifetime;
  added_claims = checksum claim_bytes ∷ [];
  added_edges = [];
  retracted = [];
  transition_id = 9;
}

abbrev first : MemoryTransition
first = record {
  schema = 1;
  transition_id = 9;
  scope = lifetime;
  kind = root_approval;
  expected_old_root = none;
  accepted_new_root = checksum (write_root first_manifest);
  origin_session = 3;
  origin_event = 4;
  origin_kind = 1;
  decision_principal = 2;
  decision_digest = 6;
  idempotency_key = record { session = 3; event = 4; decision = 6 };
}

abbrev moment : Moment
moment = record { now = 100; evt = b'e' ∷ []; appended = none; flushed = none }

abbrev with_claim : ScopeDir
with_claim = record empty_dir { store = (install checksum empty_dir.store claim_bytes).0 }

abbrev claims : List ℕ
claims = checksum claim_bytes ∷ []

first_commits :
    (propose plain with_claim (unopened lifetime) first claims [] moment).answer
    ≡ ok (committed 9 (checksum (write_root first_manifest)))
unfolding propose install recover open_log get lookup insert
first_commits = refl

open_empty : (open_actor plain with_claim lifetime).1 ≡ ok (unopened lifetime)
unfolding open_actor install recover open_log
open_empty = refl

no_collision : (x : Bytes) → lookup first.accepted_new_root with_claim.store.objects ≡ some x → ⊥
unfolding lookup install insert
no_collision x h = cc h

first-Free : Free plain with_claim first
first-Free m e x h =
    absurd (no_collision x (subst (λ n. lookup n with_claim.store.objects ≡ some x) e h))

with_claim-Holds : MemoryHolds plain with_claim []
with_claim-Holds = installed-Holds plain empty_dir [] claim_bytes (empty_dir-Holds plain)

unopened-Behind : (ts : List MemoryTransition) → Behind (unopened lifetime) ts
unfolding actor_at noted adopt
unopened-Behind ts = record { known = []; later = ts; split = refl; is = refl }

-- The directory behind the first commit.
abbrev committed_dir : ScopeDir
committed_dir = (propose plain with_claim (unopened lifetime) first claims [] moment).dir

committed_dir-Holds : MemoryHolds plain committed_dir (first ∷ [])
committed_dir-Holds =
    let s =
      propose-Settled plain plain-Lawful with_claim [] (unopened lifetime) first claims [] moment
        with_claim-Holds (omega arith) (unopened-Behind []) first-Free in
    let done = s.recorded 9 (checksum (write_root first_manifest)) first_commits in
    subst (MemoryHolds plain committed_dir) done.0 s.holds

-- A proposal of another session that has not seen the first.
abbrev rival : MemoryTransition
rival = record first {
  transition_id = 10;
  origin_session = 8;
  idempotency_key = record { session = 8; event = 4; decision = 6 };
}

rival_fails :
    (propose plain committed_dir (unopened lifetime) rival claims [] moment).answer
    ≡ ok (cas_failed none (some first.accepted_new_root) claims)
unfolding propose install recover open_log get lookup insert for_each_frame lines_of
rival_fails = refl

repeated :
    (propose plain committed_dir (unopened lifetime) first claims [] moment).answer
    ≡ err (duplicate_transition first.idempotency_key)
unfolding propose install recover open_log get lookup insert for_each_frame lines_of
repeated = refl

propose-stale_example :
    propose plain committed_dir (unopened lifetime) rival claims [] moment
    ≡ propose plain committed_dir (actor_at lifetime (first ∷ [])) rival claims [] moment
propose-stale_example =
    propose-stale plain committed_dir (first ∷ []) (unopened lifetime) rival claims [] moment
      committed_dir-Holds (unopened-Behind (first ∷ []))

-- The start of a frame of another writer.
abbrev cut_frame : List ℕ
cut_frame = 0x28 ∷ 0xb5 ∷ 0x2f ∷ 0xfd ∷ 4 ∷ []

cut_frame-torn : read_tail cut_frame ≡ some true
unfolding read_tail has_magic
cut_frame-torn = refl

-- All that may be lost is.
abbrev all_lost : Loss
all_lost = record { spares = λ d. false; frames = 0; bytes = cut_frame; head = none }

opened-Free : Free plain (open_actor plain with_claim lifetime).0 first
unfolding open_actor install recover open_log lookup insert
opened-Free = first-Free

Reach-Shared_example :
    Shared plain 1
      (crashed
        (propose plain
          (open_actor plain with_claim lifetime).0
          (unopened lifetime)
          first
          claims
          []
          moment).dir
        cut_frame
        none)
      []
Reach-Shared_example =
    Reach-Shared plain 1
      (crashed
        (propose plain (open_actor plain with_claim lifetime).0 (unopened lifetime) first claims []
          moment).dir
        cut_frame none)
      [] plain-Lawful (omega arith)
      (crash cut_frame true none
        (proposed (unopened lifetime) [] [] first claims [] moment
          (opened lifetime (unopened lifetime) (installed claim_bytes start) open_empty)
          opened-Free)
        cut_frame-torn)
