-- ===== src/Lib.antt =====
-- Verification of kanbei, a local-first agent harness whose kernel keeps an append-only event log, a
-- content-addressed object store, and a scheduler that decides when an agent may think.
--
-- The program's parts and how they meet. A session commits events: their objects are installed in the
-- object store (crates/kanbei-objects), then one frame is appended to the log (crates/kanbei-log), and the
-- syncs of both go through one durability queue (crates/kanbei-core/src/queue.rs), whose order makes an
-- object durable before the frame that refers to it. The collector (crates/kanbei-gc) moves objects that
-- nothing refers to into quarantine and deletes them after a grace period. The scheduler
-- (crates/kanbei-scheduler) turns triggers into runs, bounds each run by budgets, and pauses cognition by
-- circuit breakers. Each effect of a run asks the capability broker (crates/kanbei-capabilities). Modules
-- publish typed contributions into scopes (crates/kanbei-scopes), against an epoch of the composition; the
-- services among them form an acyclic graph (crates/kanbei-services). What is to be stored passes the
-- retention gate first (crates/kanbei-policy). Claims are kept in a memory (crates/kanbei-memory): one
-- actor for each scope and session, which proposes a new root to a log and a store that the sessions share.
--
-- Which file models which part:
--   Base              the names, lists, words of 32 and 64 bits, and maps that the others share.
--   Core/Digest       crates/kanbei-core/src/digest.rs: Display, hex, FromStr.
--   Core/Envelope     crates/kanbei-core/src/envelope.rs: Envelope, validate.
--   Core/Queue        crates/kanbei-core/src/queue.rs: enqueue, flush and worker_loop as a step relation
--                     over every interleaving of senders and worker.
--   Objects           crates/kanbei-objects/src/lib.rs: install, get, exists, scan, quarantine,
--                     gc_quarantine_meta, delete, restore; Objects/Laws proves.
--   Gc                crates/kanbei-gc/src/lib.rs: GcRun::execute in three phases; Gc/Fate follows one
--                     object, Gc/Safety proves.
--   Log               crates/kanbei-log/src/lib.rs: Log/Writer has append, flush, open and tail_state,
--                     Log/Reader verify_frame, recover, for_each_frame and export_to; Log/Appending,
--                     Log/History and Log/Reopen prove about whole histories and crashes, Log/Agreement
--                     compares the two readers, Log/Durable reads the answers of append.
--   Kernel            crates/kanbei-kernel/src: Kernel/Pins is pins.rs, Kernel/Commit the commit of commit.rs;
--                     Kernel/Growth, Preparing and Committing prove.
--   Scheduler         crates/kanbei-scheduler/src/lib.rs: Scheduler/Types, State, Policy, Usage, Wake,
--                     Outcome and Run model, the other children prove.
--   Capabilities      crates/kanbei-capabilities/src/lib.rs: Capabilities/Types, Policy, Grants and Check
--                     model add_template, add_grant, retire_generation, check, attenuate,
--                     require_approval and recheck; the other children prove.
--   Services          crates/kanbei-services/src/lib.rs: Services/Search is the depth-first search for a cycle,
--                     Services/Registry/Graph and Ops the registry, Replacement the plan of a replacement;
--                     Indices, Acyclic, Invariant, Holding and Runs prove.
--   Scopes            crates/kanbei-scopes/src: Contrib is contrib.rs and errors.rs; State, Validate,
--                     Displaced, Apply, Settings, Snapshot, Keymap, Replace and Removal are registry.rs, in
--                     the order of its parts; Composition is epoch.rs and Tree scope_tree.rs. The
--                     children of Removal prove about remove_scope; Vacancy, Standing, Guards,
--                     Publication, Bindings, Layers, Leveled, Disposal, Unlisting,
--                     Disposed and Trees prove.
--   Policy            crates/kanbei-policy/src/lib.rs: the gate; Policy/Builtins has the built-in policies,
--                     Policy/Admitting proves.
--   Memory            crates/kanbei-memory/src: Types and Claims are types.rs and error.rs; Fold, Check, Scan
--                     and Actor are fold, the validation of propose, open with the scan of the log, and
--                     propose of actor.rs. A `Codec` stands for serde_json, blake3 and zstd. Growth,
--                     Loading, Folding and Admitting prove about the fold and the validation, Rereading and
--                     Recording about the log, Lineage, Contents, Proposing, Answering and Settling about one
--                     proposal, Sharing, Holding and Interleaving about many and about the end of a process, Losing
--                     and Durable about the loss of power.
--
-- State is a record that each operation takes and gives back; an error is a value of a result type
-- with the source's variants. A loop is structural recursion on the list that it walks. Four take
-- fuel: the search for a cycle the number of its nodes, the disposal of a scope the two levels of the
-- tree, the removal of a scope the number of published services, and the fold of a memory the number of its
-- committed transitions; each is proved enough.
-- Identities, digests, names and JSON values are numbers or bytes: the code compares them and does not
-- look inside. Arithmetic on u32 and u64 is add32, add64 and sub64 of Base, which wrap as a release
-- build does; the counts of lines, files and bytes that are in memory or on disk, and the calls spent
-- under a budget, are plain numbers. The clock, fresh identities, and the outcome of a flush are
-- arguments. blake3, zstd, serde_json and the reference walks of the collector are parameters; the laws
-- asked of them are that a line of the log is read back with the number of the event it was written for,
-- and in the memory that an envelope, a transition and a manifest are read back as they were written.
--
-- A crash of a process keeps what was written and may leave the first bytes of a frame behind the log; a
-- loss of power may take the objects and frames whose syncs wait. Both are definitions of this development,
-- not of the program. A frame is complete or not: whether bytes make one is asked of zstd.
--
-- Not modelled: I/O errors of files and directories other than a missing file; locks and threads but
-- for the durability queue, so that a proposal to a memory is one step, although the program holds no lock
-- between its reading of the log and its append; the JSON encodings. JSON values are a data type where a manifest or an
-- overlay is looked into. Of the memory, the collection of its store and the registry of projects. The other crates are the session, user interface, providers, module host,
-- and retrieval around this core, and are left for later.
pub mod Base
pub mod Core
pub mod Scheduler
pub mod Objects
pub mod Gc
pub mod Capabilities
pub mod Log
pub mod Kernel
pub mod Services
pub mod Scopes
pub mod Policy
pub mod Memory
