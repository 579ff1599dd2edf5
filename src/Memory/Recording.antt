-- ===== src/Memory/Recording.antt =====
-- A transition that `MemoryRootActor::propose` of crates/kanbei-memory/src/actor.rs appends is read back by the
-- next scan.
use kanbei.Base.{
  ℕ, ◌+◌, ◌<◌, ◌++◌, ◌≡◌, refl, ap, ◌∙◌, inl, inr, true, false, Option, none, List, [], ◌∷◌, length,
  length-append, ◌==◌, add64, add64-eq, u64_mod, arith,
}
use kanbei.Core.Envelope.{Envelope}
use kanbei.Objects.{SyncOp}
use kanbei.Log.Types.{Line, LogFile, Profile, AppendLog}
use kanbei.Log.Writer.{check_events, next_meta, plan_of, write_frame, append}
use kanbei.Log.Reader.{scan_tail, lines_of}
use kanbei.Log.Appending.{Sound}
use kanbei.Log.History.{append-Kept, taken-none, acknowledge-file}
use kanbei.Memory.Types.{
  RootManifest, MemoryTransition, ok, ◌>>=◌, Codec, Lawful, Result-cases, transition_schema,
}
use kanbei.Memory.Actor.{envelope_of, Moment}
use kanbei.Memory.Scan.{ScopeDir, LogScan, no_scan, note, read_line, scan_lines, same_bytes}
use kanbei.Memory.Rereading.{noted, noted-append, LogHolds, reopened}

module _ (c : Codec) where
  scan_lines-append :
      (ls ms : List Line) (scan : LogScan)
      → scan_lines c (ls ++ ms) scan ≡ (scan_lines c ls scan >>= scan_lines c ms)
  unfolding scan_lines
  scan_lines-append [] ms scan = refl
  scan_lines-append (l ∷ ls) ms scan = elim (Result-cases (read_line c l)) [
    | inl (t, e) ↦ rw e (scan_lines-append ls ms (note t scan))
    | inr (x, e) ↦ rw e refl
  ]

  -- The line of a transition's envelope is read as the transition.
  pub read_line-envelope :
      Lawful c
      → (seq : ℕ) (t : MemoryTransition) (m : RootManifest) (moment : Moment)
      → (t.schema == transition_schema) ≡ true
      → read_line c (c.to_line (envelope_of c seq t m moment)) ≡ ok t
  unfolding read_line envelope_of same_bytes
  read_line-envelope lawful seq t m moment h =
      rw (lawful.record_read (envelope_of c seq t m moment), lawful.transition_read t, h) refl

  module _ (lawful : Lawful c) (file : LogFile) (ts : List MemoryTransition)
      (w : LogHolds c file ts) (d : ScopeDir) (queue : List SyncOp)
      (small : length ts + 2 < u64_mod) where
    abbrev writer : AppendLog
    writer = record (reopened c file ts w d) { queue = queue }

    seq-eq : add64 w.state.last_seq 1 ≡ length ts + 1
    seq-eq = add64-eq w.state.last_seq 1 (omega (arith, w.last, small)) ∙ ap (λ n. n + 1) w.last

    writer-Sound : Sound c.to_line c.line_seq c.frame_hash c.frame_size writer w.state
    writer-Sound = record {
      reads = w.reads;
      chain = refl;
      next = omega (arith, seq-eq, w.last);
      all = omega (arith, seq-eq, w.counted);
    }

    append-seq :
        (env : Envelope) (now : ℕ) (outcome : Option ℕ)
        → check_events writer.seq 0 (env ∷ []) ≡ none
        → (append c.to_line c.frame_hash c.frame_size writer
            (env ∷ [])
            Profile.strict
            now
            outcome).0.seq
          ≡ add64 writer.seq 1
    unfolding append write_frame
    append-seq env now outcome checked =
        let m = next_meta c.to_line c.frame_hash c.frame_size writer (env ∷ []) now in
        rw checked (
          (acknowledge-file Profile.strict outcome
            (plan_of c.to_line c.frame_hash c.frame_size m (env ∷ []))
            (write_frame c.to_line c.frame_hash c.frame_size writer (env ∷ []) m)).1)

    -- The log with the frame holds the transition behind the others.
    pub append-LogHolds :
        (env : Envelope) (t : MemoryTransition) (now : ℕ) (outcome : Option ℕ)
        → read_line c (c.to_line env) ≡ ok t
        → check_events writer.seq 0 (env ∷ []) ≡ none
        → LogHolds c
            (append c.to_line c.frame_hash c.frame_size writer
              (env ∷ [])
              Profile.strict
              now
              outcome).0.file
            (ts ++ t ∷ [])
    unfolding scan_tail scan_lines noted
    append-LogHolds env t now outcome read checked =
        let k =
          append-Kept c.to_line c.line_seq c.frame_hash c.frame_size lawful.seq_read writer w.state
            (record { events = env ∷ []; profile = Profile.strict; now = now; outcome = outcome })
            writer-Sound (omega (arith, seq-eq, small)) in
        let next =
          append-seq env now outcome checked
          ∙ add64-eq writer.seq 1 (omega (arith, seq-eq, small)) in
        let lines =
          k.read
          ∙ ap (λ ls. lines_of w.state.visited ++ ls)
              (taken-none c.to_line c.line_seq c.frame_hash c.frame_size writer (env ∷ [])
                checked) in
        record {
          state = k.state;
          reads = k.sound.reads;
          last = omega (arith, k.sound.next, next, seq-eq, length-append ts (t ∷ []));
          counted = omega (arith, k.sound.all, next, seq-eq, length-append ts (t ∷ []));
          scanned =
              ap (λ ls. scan_lines c ls no_scan) lines
              ∙ scan_lines-append (lines_of w.state.visited) (c.to_line env ∷ []) no_scan
              ∙ rw (w.scanned, read, noted-append no_scan ts (t ∷ [])) refl;
          torn_tail = false;
          tail = rw (k.tail, scan_tail) refl;
        }
