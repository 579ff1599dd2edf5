-- ===== src/Memory/Interleaving.antt =====
-- Several actors of crates/kanbei-memory/src/actor.rs on the directory of one scope, with crashes between.
use mathlib.Core.List.{append_assoc}
use kanbei.Base.{
  Bool, some, ℕ, suc, ◌+◌, ◌<◌, ◌≤◌, ◌++◌, ◌≡◌, sym, ap, subst, ◌∙◌, inl, inr, Option, List, [],
  ◌∷◌, length, length-append, All, All-mono, u64_mod, arith,
}
use kanbei.Objects.{Bytes, install}
use kanbei.Log.Reader.{read_tail}
use kanbei.Memory.Types.{MemoryScope, MemoryTransition, ok, ok-inj, Codec, Lawful}
use kanbei.Memory.Check.{MemoryRootActor}
use kanbei.Memory.Actor.{Call, Moment, propose}
use kanbei.Memory.Scan.{ScopeDir, HeadFile, open_actor}
use kanbei.Memory.Rereading.{actor_at, Behind, open_actor-Holds}
use kanbei.Memory.Proposing.{MemoryHolds, Settled, Behind-at}
use kanbei.Memory.Sharing.{Free, propose-Settled}
use kanbei.Memory.Holding.{
  crashed, empty_dir, crashed-Holds, empty_dir-Holds, opened-Holds, installed-Holds,
}

-- The directories, with their open actors, that at most so many proposals lead to.
pub data Reach (c : Codec) : ℕ → ScopeDir → List MemoryRootActor → Type 0 where
  start : Reach c 0 empty_dir []
  opened :
      {n : ℕ} {d : ScopeDir} {actors : List MemoryRootActor} (scope : MemoryScope)
      (a : MemoryRootActor)
      → Reach c n d actors
      → (open_actor c d scope).1 ≡ ok a
      → Reach c n (open_actor c d scope).0 (a ∷ actors)
  installed :
      {n : ℕ} {d : ScopeDir} {actors : List MemoryRootActor} (b : Bytes)
      → Reach c n d actors
      → Reach c n (record d { store = (install c.hash d.store b).0 }) actors
  crash :
      {n : ℕ} {d : ScopeDir} {actors : List MemoryRootActor} (bytes : List ℕ) (is_torn : Bool)
      (head : Option HeadFile)
      → Reach c n d actors
      → read_tail bytes ≡ some is_torn
      → Reach c n (crashed d bytes head) []
  proposed :
      {n : ℕ} {d : ScopeDir} (a : MemoryRootActor) (before behind : List MemoryRootActor)
      (t : MemoryTransition) (claims edges : List ℕ) (moment : Moment)
      → Reach c n d (before ++ a ∷ behind)
      → Free c d t
      → Reach c
          (suc n)
          (propose c d a t claims edges moment).dir
          (before ++ (propose c d a t claims edges moment).actor ∷ behind)

Behind-append :
    (ts us : List MemoryTransition) (a : MemoryRootActor) → Behind a ts → Behind a (ts ++ us)
Behind-append ts us a b = record {
  known = b.known;
  later = b.later ++ us;
  split = ap (λ vs. vs ++ us) b.split ∙ append_assoc b.known b.later us;
  is = b.is;
}

middle :
    (P : MemoryRootActor → Type 0) (a : MemoryRootActor) (xs ys : List MemoryRootActor)
    → All P (xs ++ a ∷ ys)
    → P a
middle P a [] ys h = h.0
middle P a (x ∷ xs) ys h = middle P a xs ys h.1

replace_middle :
    (P Q : MemoryRootActor → Type 0) (a b : MemoryRootActor) (xs ys : List MemoryRootActor)
    → ((x : MemoryRootActor) → P x → Q x)
    → Q b
    → All P (xs ++ a ∷ ys)
    → All Q (xs ++ b ∷ ys)
replace_middle P Q a b [] ys f q h = (q, All-mono P Q f ys h.1)
replace_middle P Q a b (x ∷ xs) ys f q h = (f x h.0, replace_middle P Q a b xs ys f q h.1)

-- What a reachable directory holds: transitions, no more than proposals, that every actor knows up to a point.
pub record Shared (c : Codec) (n : ℕ) (d : ScopeDir) (actors : List MemoryRootActor) : Type 0 where
  pub transitions : List MemoryTransition
  pub holds : MemoryHolds c d transitions
  pub behind : All (λ a. Behind a transitions) actors
  pub bounded : length transitions ≤ n

Settled-Shared :
    (c : Codec) (n : ℕ) (ts : List MemoryTransition) (t : MemoryTransition) (r : Call)
    (a : MemoryRootActor) (before behind : List MemoryRootActor)
    → All (λ x. Behind x ts) (before ++ a ∷ behind)
    → length ts ≤ n
    → Settled c ts t r
    → Shared c (suc n) r.dir (before ++ r.actor ∷ behind)
Settled-Shared c n ts t r a before behind h le s = elim s.either [
  | inl same ↦ record {
    transitions = s.after;
    holds = s.holds;
    behind =
        replace_middle (λ x. Behind x ts) (λ x. Behind x s.after) a r.actor before behind
          (λ x b. subst (Behind x) (sym same) b) s.behind h;
    bounded = omega (arith, ap length same, le);
  }
  | inr more ↦ record {
    transitions = s.after;
    holds = s.holds;
    behind =
        replace_middle (λ x. Behind x ts) (λ x. Behind x s.after) a r.actor before behind
          (λ x b. subst (Behind x) (sym more) (Behind-append ts (t ∷ []) x b)) s.behind h;
    bounded = omega (arith, ap length more, length-append ts (t ∷ []), le);
  }
]

opened-Shared :
    (c : Codec) (n : ℕ) (d : ScopeDir) (actors : List MemoryRootActor) (scope : MemoryScope)
    (a : MemoryRootActor)
    → Shared c n d actors
    → (open_actor c d scope).1 ≡ ok a
    → Shared c n (open_actor c d scope).0 (a ∷ actors)
opened-Shared c n d actors scope a s e =
    let ts = s.transitions in
    let o = open_actor-Holds c d ts s.holds.log scope in
    let same : actor_at scope ts ≡ a = ok-inj (sym (λ i. (o i).1) ∙ e) in
    record {
      transitions = ts;
      holds = opened-Holds c d ts scope s.holds;
      behind = (subst (λ x. Behind x ts) same (Behind-at scope ts), s.behind);
      bounded = s.bounded;
    }

-- Whatever actors share a directory, interleave their proposals, each of them one step, and crash with what
-- they wrote kept and a tail that recovery takes, the log holds one line of transitions: each expects the root of the one before, no key is taken twice, the store folds the last
-- root with all of them as its history, and every open actor knows them up to some point.
pub Reach-Shared :
    (c : Codec) (n : ℕ) (d : ScopeDir) (actors : List MemoryRootActor)
    → Lawful c
    → n + 1 < u64_mod
    → Reach c n d actors
    → Shared c n d actors
Reach-Shared c n d actors lawful small start = record {
  transitions = [];
  holds = empty_dir-Holds c;
  behind = tt;
  bounded = omega arith;
}
Reach-Shared c n d actors lawful small (opened {d = e} {actors = old} scope a r h) =
    opened-Shared c n e old scope a (Reach-Shared c n e old lawful small r) h
Reach-Shared c n d actors lawful small (installed {d = e} b r) =
    let s = Reach-Shared c n e actors lawful small r in
    record {
      transitions = s.transitions;
      holds = installed-Holds c e s.transitions b s.holds;
      behind = s.behind;
      bounded = s.bounded;
    }
Reach-Shared c n d actors lawful small (crash {d = e} {actors = old} bytes is_torn head r h) =
    let s = Reach-Shared c n e old lawful small r in
    record {
      transitions = s.transitions;
      holds = crashed-Holds c e s.transitions bytes is_torn head h s.holds;
      behind = tt;
      bounded = s.bounded;
    }
Reach-Shared c n d actors lawful small
      (proposed {n = k} {d = e} a before behind t claims edges moment r free) =
    let s = Reach-Shared c k e (before ++ a ∷ behind) lawful (omega arith) r in
    let ts = s.transitions in
    let b = middle (λ x. Behind x ts) a before behind s.behind in
    Settled-Shared c k ts t (propose c e a t claims edges moment) a before behind s.behind s.bounded
      (propose-Settled c lawful e ts a t claims edges moment s.holds
        (omega (arith, s.bounded, small)) b free)
