-- ===== src/Log/Types.antt =====
-- The data of crates/kanbei-log/src/lib.rs. A file is the sequence of its complete compressed frames and
-- what follows them; what zstd, UTF-8 and JSON make of a frame's bytes is its content, none where they
-- refuse it. Digests are numbers, lines are bytes.
use kanbei.Base.{ℕ, Option, List, Bool}
use kanbei.Core.Envelope.{EnvelopeError}
use kanbei.Objects.{SyncOp}

abbrev pub Line : Type 0
Line = List ℕ

abbrev pub schema_version : ℕ
schema_version = 1

-- `new_prev`.
abbrev pub new_prev : ℕ
new_prev = 0

pub record Meta : Type 0 where
  pub stream : ℕ
  pub schema : ℕ
  pub first_seq : ℕ
  pub last_seq : ℕ
  pub count : ℕ
  pub prev : ℕ
  pub digest : ℕ
  pub created_us : ℕ

-- The JSON object of `meta_without_digest`.
pub record MetaBody : Type 0 where
  pub stream : ℕ
  pub schema : ℕ
  pub first_seq : ℕ
  pub last_seq : ℕ
  pub count : ℕ
  pub prev : ℕ
  pub created_us : ℕ

unfoldable pub meta_without_digest : Meta → MetaBody
meta_without_digest m = record {
  stream = m.stream;
  schema = m.schema;
  first_seq = m.first_seq;
  last_seq = m.last_seq;
  count = m.count;
  prev = m.prev;
  created_us = m.created_us;
}

pub record FrameInfo : Type 0 where
  pub meta : Meta
  pub events : List Line

pub record Stored : Type 0 where
  pub len : ℕ
  pub content : Option FrameInfo

-- `tail` is the bytes behind the complete frames: up to the end of the file, zstd finds no complete frame
-- that starts at the first of them.
pub record LogFile : Type 0 where
  pub stored : List Stored
  pub tail : List ℕ

pub data Profile : Type 0 where
  fast : Profile
  balanced : Profile
  strict : Profile

pub record FramePlan : Type 0 where
  pub first_seq : ℕ
  pub last_seq : ℕ
  pub count : ℕ
  pub frame_len : ℕ

-- The writer; `frames` counts its frames, `queue` is what it has sent to the durability queue, and
-- `flushed` how much of that its last flush has waited for.
pub record AppendLog : Type 0 where
  pub file : LogFile
  pub stream : ℕ
  pub seq : ℕ
  pub prev : ℕ
  pub frames : ℕ
  pub queue : List SyncOp
  pub flushed : ℕ

pub data AppendError : Type 0 where
  empty_batch : AppendError
  invalid_envelope : ℕ → EnvelopeError → AppendError
  wrong_seq : ℕ → ℕ → ℕ → AppendError
  flush_failed : ℕ → AppendError

pub data Reason : Type 0 where
  magic_mismatch : Reason
  unreadable : Reason
  schema_differs : ℕ → Reason
  digest_differs : ℕ → ℕ → Reason
  chain_broken : ℕ → ℕ → Reason
  count_mismatch : Reason
  seq_gap : ℕ → ℕ → Reason
  no_seq : ℕ → Reason
  seq_differs : ℕ → ℕ → ℕ → Reason

pub data RecoveryError : Type 0 where
  corruption : ℕ → ℕ → Reason → RecoveryError

pub data LogResult {ℓ} (E A : Type ℓ) : Type ℓ where
  ok : A → LogResult E A
  err : E → LogResult E A

infixl 5 ◌>>=◌
abbrev pub ◌>>=◌ {ℓ} : {E A B : Type ℓ} → LogResult E A → (A → LogResult E B) → LogResult E B
ok a >>= f = f a
err e >>= f = err e

pub record Recovered : Type 0 where
  pub events : ℕ
  pub frames : ℕ
  pub truncated : Bool
  pub last_seq : ℕ
