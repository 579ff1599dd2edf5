-- ===== src/Kernel/Examples.antt =====
-- A commit of crates/kanbei-kernel/src/commit.rs of one event with one new object.
use kanbei.Base.{
  ◌||◌, ℕ, ◌+◌, ◌≡◌, refl, ◌++◌, false, none, [], ◌∷◌, List, All, contains, length, add64, sub64,
}
use kanbei.Base.Map.{lookup, insert, remove}
use kanbei.Core.Digest.{
  bytes_of, hex_char, hex, display, hex_val, parse_hex, strip_prefix, from_str,
}
use kanbei.Core.Envelope.{Envelope, is_canonical, all_canonical, snapshot_canonical, validate}
use kanbei.Objects.{exists, Bytes, fsync_frame, exists, install}
use kanbei.Log.Types.{Line, Meta, MetaBody, meta_without_digest, Profile}
use kanbei.Log.Writer.{check_events, flush, acknowledge, next_meta, write_frame, plan_of, append}
use kanbei.Log.History.{fresh}
use kanbei.Kernel.Pins.{pin, drop_guard}
use kanbei.Kernel.Commit.{
  NewEvent, CommitParams, CommitOutcome, CommitPath, CommitResult, ok, continue_with, first_missing,
  check_refs, note_install, install_one, install_all, promote, prepare, prepare_all, envelopes,
  append_frame, end_commit, commit,
}
use kanbei.Kernel.Growth.{syncs_of}
use kanbei.Kernel.Preparing.{Resolves}
use kanbei.Kernel.Committing.{commit-Resolves, commit-queue, commit-unpinned}

abbrev hash : Bytes → ℕ
hash b = length b

abbrev object_payload : ℕ → Bytes
object_payload d = d ∷ []

abbrev to_line : Envelope → Line
to_line e = e.seq ∷ []

abbrev frame_hash : MetaBody → List Line → ℕ
frame_hash m lines = m.first_seq + 1

abbrev frame_size : Meta → List Line → ℕ
frame_size m lines = 10

abbrev event : NewEvent
event = record {
  kind = b'k' ∷ [];
  payload_schema = 1;
  payload = b'0' ∷ [];
  objects = (8 ∷ 9 ∷ []) ∷ [];
  refs = [];
}

abbrev params : CommitParams
params = record {
  profile = Profile.strict;
  next_seq = 1;
  current_snapshot = none;
  inline_max = 100;
}

abbrev path : CommitPath
path = record {
  log = fresh 3;
  store = record { objects = []; quarantine = []; queue = []; installs = 0; dirsyncs = 0 };
  gc_pins = 5 ∷ [];
}

abbrev after : CommitPath × CommitResult CommitOutcome
after =
    commit hash object_payload (λ d. false) to_line frame_hash frame_size path (event ∷ []) params
      (λ i. b'e' ∷ []) 4 none

abbrev outcome : CommitOutcome
outcome = record {
  first_seq = 1;
  last_seq = 1;
  count = 1;
  frame_len = 10;
  objects = 2 ∷ [];
  pre_snapshot = none;
  envelopes =
      record {
        env = 1;
        seq = 1;
        evt = b'e' ∷ [];
        kind = b'k' ∷ [];
        payload_schema = 1;
        payload = b'0' ∷ [];
        refs = 2 ∷ [];
        snapshot = none;
      }
      ∷ [];
}

succeeds : after.1 ≡ ok outcome
unfolding lookup insert remove bytes_of hex_char hex display hex_val parse_hex strip_prefix from_str
    is_canonical all_canonical snapshot_canonical validate exists install meta_without_digest
    check_events flush acknowledge next_meta write_frame plan_of append fresh pin drop_guard
    continue_with first_missing check_refs note_install install_one install_all promote prepare
    prepare_all envelopes append_frame end_commit commit add64 sub64
succeeds = refl

commit-Resolves_example :
    All (λ e. All (Resolves (λ d. false) after.0.store) e.refs) outcome.envelopes
commit-Resolves_example =
    commit-Resolves hash object_payload (λ d. false) to_line frame_hash frame_size path (event ∷ [])
      params (λ i. b'e' ∷ []) 4 none outcome succeeds

commit-queue_example :
    (added : List ℕ) × ((d : ℕ)
      → exists after.0.store d ≡ (exists path.store d || contains d added))
    × (after.0.store.queue ≡ ([] ++ syncs_of added) ++ fsync_frame 1 ∷ [])
unfolding fresh
commit-queue_example =
    commit-queue hash object_payload (λ d. false) to_line frame_hash frame_size path (event ∷ [])
      params (λ i. b'e' ∷ []) 4 none outcome succeeds

commit-unpinned_example : contains 2 after.0.gc_pins ≡ false
commit-unpinned_example =
    commit-unpinned hash object_payload (λ d. false) to_line frame_hash frame_size path (event ∷ [])
      params (λ i. b'e' ∷ []) 4 none 2 refl
