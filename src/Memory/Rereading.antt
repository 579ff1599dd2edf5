-- ===== src/Memory/Rereading.antt =====
-- What `MemoryRootActor` of crates/kanbei-memory/src/actor.rs makes of a log that holds transitions.
use kanbei.Base.{
  ℕ, ◌++◌, ◌≡◌, refl, ap, ◌∙◌, Bool, true, false, Option, none, some, List, [], ◌∷◌, if◌then◌else◌,
  length, add64, arith,
}
use kanbei.Log.Types.{LogFile, AppendLog, LogResult, Recovered}
use kanbei.Log.Writer.{open_log, tail_state}
use kanbei.Log.Reader.{scan_tail, Streaming, stream_loop, for_each_frame, lines_of, recover}
use kanbei.Log.Agreement.{recover-for_each_frame}
use kanbei.Log.Appending.{begin}
use kanbei.Log.Reopen.{scan_tail-nil, recover-file, continue_after-loop}
use kanbei.Memory.Types.{MemoryScope, MemoryTransition, ok, Codec}
use kanbei.Memory.Check.{MemoryRootActor}
use kanbei.Memory.Scan.{
  ScopeDir, LogScan, no_scan, note, adopt, unopened, scan_lines, scan_log, recover_or_fresh,
  scan_events, take_over, open_stream, reload, open_with, refresh, stream_name, open_actor,
  finish_open, repair,
}

-- What a scan has noted behind some transitions.
unfoldable pub noted : LogScan → List MemoryTransition → LogScan
unfolding note
noted scan [] = scan
noted scan (t ∷ ts) = noted (note t scan) ts

pub noted-append :
    (scan : LogScan) (ts us : List MemoryTransition)
    → noted scan (ts ++ us) ≡ noted (noted scan ts) us
unfolding noted
noted-append scan [] us = refl
noted-append scan (t ∷ ts) us = noted-append (note t scan) ts us

-- The actor of a scope that knows the transitions.
unfoldable pub actor_at : MemoryScope → List MemoryTransition → MemoryRootActor
unfolding noted adopt
actor_at scope ts = adopt (noted no_scan ts) (unopened scope)

-- The log on disk reads as the transitions; a torn frame may follow.
pub record LogHolds (c : Codec) (file : LogFile) (ts : List MemoryTransition) : Type 0 where
  pub state : Streaming
  pub reads : stream_loop c.line_seq c.frame_hash file.stored begin ≡ LogResult.ok state
  pub last : state.last_seq ≡ length ts
  pub counted : state.events ≡ length ts
  pub scanned : scan_lines c (lines_of state.visited) no_scan ≡ ok (noted no_scan ts)
  pub torn_tail : Bool
  pub tail : scan_tail file ≡ LogResult.ok torn_tail

scan_tail-false :
    (file : LogFile) → scan_tail file ≡ LogResult.ok false → file ≡ record file { tail = [] }
scan_tail-false file h = ap (λ (t : List ℕ). record file { tail = t }) (scan_tail-nil file h)

module _ (c : Codec) (file : LogFile) (ts : List MemoryTransition) (w : LogHolds c file ts) where
  abbrev report : Bool → Recovered
  report cut = record {
    events = w.state.events;
    frames = length file.stored;
    truncated = cut;
    last_seq = w.state.last_seq;
  }

  for_each_frame-Holds :
      for_each_frame c.line_seq c.frame_hash file
      ≡ LogResult.ok (report w.torn_tail, w.state.visited)
  unfolding for_each_frame
  for_each_frame-Holds = rw (w.tail, w.reads) refl

  cut-Holds :
      for_each_frame c.line_seq c.frame_hash (record file { tail = [] })
      ≡ LogResult.ok (report false, w.state.visited)
  unfolding for_each_frame scan_tail
  cut-Holds = rw w.reads refl

  recovered : (recover c.line_seq c.frame_hash file).1 ≡ LogResult.ok (report w.torn_tail)
  recovered = rw (recover-for_each_frame c.line_seq c.frame_hash file, for_each_frame-Holds) refl

  cut_off :
      (b : Bool)
      → scan_tail file ≡ LogResult.ok b
      → (if b then record file { tail = [] } else file) ≡ record file { tail = [] }
  cut_off true h = refl
  cut_off false h = scan_tail-false file h

  -- Recovery reports the transitions and cuts a torn frame off.
  pub recover_or_fresh-Holds :
      recover_or_fresh c file ≡ (record file { tail = [] }, ok (report w.torn_tail))
  unfolding recover_or_fresh
  recover_or_fresh-Holds =
      rw
        (
          recover-file c.line_seq c.frame_hash file (report w.torn_tail) recovered,
          recovered,
          cut_off w.torn_tail w.tail,
        )
        refl

  scan_log-Holds : scan_log c (record file { tail = [] }) ≡ ok (noted no_scan ts)
  unfolding scan_log
  scan_log-Holds = rw (cut-Holds, scan_log) w.scanned

  -- The log is opened behind the last transition.
  abbrev pub reopened : ScopeDir → AppendLog
  reopened d = record {
    file = record file { tail = [] };
    stream = stream_name;
    seq = add64 w.state.last_seq 1;
    prev = w.state.prev;
    frames = 0;
    queue = d.store.queue;
    flushed = d.flushed;
  }

  pub open_stream-Holds :
      (d : ScopeDir)
      → open_stream c (record d { file = record file { tail = [] } }) ≡ ok (reopened d)
  unfolding open_stream open_log tail_state
  open_stream-Holds d =
      rw
        (
          continue_after-loop c.line_seq c.frame_hash file.stored w.state w.reads,
          open_stream,
          open_log,
          tail_state,
        )
        refl

noted-last :
    (scan : LogScan) (t : MemoryTransition) (ts : List MemoryTransition)
    → (p : ℕ × ℕ) × ((noted scan (t ∷ ts)).last ≡ some p)
unfolding noted note
noted-last scan t [] = ((t.accepted_new_root, t.transition_id), refl)
noted-last scan t (u ∷ us) = noted-last (note t scan) u us

-- What the scan of the log finds.
abbrev found : List MemoryTransition → Option LogScan
found [] = none
found (t ∷ ts) = some (noted no_scan (t ∷ ts))

scan_events-Holds :
    (c : Codec) (file : LogFile) (ts : List MemoryTransition) (w : LogHolds c file ts) (cut : Bool)
    → scan_events c (report c file ts w cut) (record file { tail = [] }) ≡ ok (found ts)
unfolding scan_events
scan_events-Holds c file [] w cut = ground (arith, w.counted)
scan_events-Holds c file (t ∷ ts) w cut =
    ground (arith, w.counted, scan_log-Holds c file (t ∷ ts) w)

-- The actor knows the transitions up to some point.
pub record Behind (a : MemoryRootActor) (ts : List MemoryTransition) : Type 0 where
  pub known : List MemoryTransition
  pub later : List MemoryTransition
  pub split : ts ≡ known ++ later
  pub is : a ≡ actor_at a.scope known

adopt-scope :
    (scan : LogScan) (p : ℕ × ℕ) (a : MemoryRootActor)
    → scan.last ≡ some p
    → adopt scan a ≡ adopt scan (unopened a.scope)
unfolding adopt
adopt-scope scan p a h = rw h refl

never_ahead :
    (a : MemoryRootActor) (known later : List MemoryTransition)
    → [] ≡ known ++ later
    → a ≡ actor_at a.scope known
    → a ≡ actor_at a.scope []
never_ahead a [] later e h = h
never_ahead a (t ∷ ts) later e h = absurd (cc)

catches_up :
    (a : MemoryRootActor) (ts : List MemoryTransition)
    → Behind a ts
    → take_over (found ts) a ≡ actor_at a.scope ts
unfolding take_over actor_at noted
catches_up a [] b = never_ahead a b.known b.later b.split b.is
catches_up a (t ∷ ts) b =
    let p = noted-last no_scan t ts in adopt-scope (noted no_scan (t ∷ ts)) p.0 a p.1

-- An actor that is behind comes to know the log, whatever it knew before.
pub refresh-Holds :
    (c : Codec) (d : ScopeDir) (ts : List MemoryTransition) (w : LogHolds c d.file ts)
    (a : MemoryRootActor)
    → Behind a ts
    → refresh c d a ≡ (
      record d { file = record d.file { tail = [] } },
      ok (actor_at a.scope ts, reopened c d.file ts w d),
    )
unfolding refresh reload
refresh-Holds c d ts w a b =
    ap (reload c d a) (recover_or_fresh-Holds c d.file ts w)
    ∙ rw
        (
          scan_events-Holds c d.file ts w w.torn_tail,
          open_stream-Holds c d.file ts w d,
          catches_up a ts b,
        )
        refl

unopened-Behind : (scope : MemoryScope) (ts : List MemoryTransition) → Behind (unopened scope) ts
unfolding actor_at adopt noted
unopened-Behind scope ts = record { known = []; later = ts; split = refl; is = refl }

-- An actor that is opened knows the log.
pub open_actor-Holds :
    (c : Codec) (d : ScopeDir) (ts : List MemoryTransition) (w : LogHolds c d.file ts)
    (scope : MemoryScope)
    → open_actor c d scope ≡ (
      repair (record d { file = record d.file { tail = [] } }) (actor_at scope ts),
      ok (actor_at scope ts),
    )
unfolding open_actor open_with finish_open
open_actor-Holds c d ts w scope =
    ap (open_with c d scope) (recover_or_fresh-Holds c d.file ts w)
    ∙ rw
        (
          open_stream-Holds c d.file ts w d,
          scan_events-Holds c d.file ts w w.torn_tail,
          catches_up (unopened scope) ts (unopened-Behind scope ts),
        )
        refl
