-- ===== src/Lib.antt =====
-- ODIN Sentinel: a model of the core of its TypeScript runtime, and what holds of it.
--
-- The program coordinates coding agents. Slot leases (src/protocol/lease/store.ts) give one holder
-- a slot until an expiry, under a fencing token. The governance registry is an append-only event
-- log: its storage (src/protocol/event-registry/storage.ts) serialises appends by a mkdir lock,
-- which the leases use too, and its evaluators (src/protocol/governance.ts) derive attempts,
-- audit depth, overhead, findings and the authority of receipts from the log through an injected
-- store; its compaction replaces old events by a summary. The watch (src/odin-watch) makes liveness
-- signals of its probes, classifies screen snapshots and decides whether to wake ODIN. Three pure
-- modules stand beside them: the displacement diagnostic, the pacing of harnesses, and the layout of
-- the teams' surfaces.
--
-- Files:
--   Base           shared names: tests, lists, UTF-16 texts, JSON values
--   Lease          store.ts. Record is isRecord and the JSON form, Directory the allow-list, readLease,
--                  writeLease and withSlotLock, Operations acquireLease, renewLease, releaseLease,
--                  checkLease, leaseStatus and fenceAction, AnyOf acquireAnyLease. Codec, Effect,
--                  Fencing and Calls are about the fencing contract, Contract is the abstract slot,
--                  Renewal and AnyOfLaws are about single calls.
--   Registry.Lock  lockPolicy, nextBackoffDelayMs and the loops of acquireRegistryLock
--   Registry       Schema and Event are the event schemas of src/protocol/schemas.ts, over
--                  event-registry/types.ts. Rejections is validateGovdispEvent, Storage
--                  appendRegistryEvent and readRegistryEvents, Query queryRegistryEvents, Lines the
--                  text of a log. Event.Origins, Event.WellFormed and Event.RoundTrip are
--                  about the schemas, Query.Selection about queries, Appending,
--                  Reading, Log, Size and Answers about the log, and Store makes the registry's files
--                  the store of the evaluators. Compact is compact.ts: the plan of a compaction, with
--                  Run its report and run; Keeping, Rewriting and Effect are about what it keeps, how
--                  the new log reads, and what a run leaves.
--   Governance     Events is the store, with its laws IsLog; Attempts, Depth, Overhead, Findings and
--                  Authority are the evaluators. Log reads the laws; Ceiling is about attempts,
--                  Walking and Layers about audit depth, OneTerminal, Calls and Blocking about the
--                  overhead guards, Activity and Closing about findings,
--                  Receipts about the authority of receipts.
--   Watch          Classifier has the tests of classify, Rules the ordered rules, Verdicts what they add
--                  up to. Snapshot is snapshot.ts, which makes the classifier's liveness signals of the
--                  probes; Probes and Soundness are about it.
--   Diagnostic     event-registry/diagnostic.ts, the displacement diagnostic
--   Pacing         src/harness-pacing/recommend.ts, the recommendation and its crash override
--   Layout         src/protocol/surface-layout.ts, the columns of the teams and the gate before a launch
-- A module named Examples applies the theorems to concrete inputs.
--
-- State and calls: a lease operation takes what the call meets (Env: the clock, the outcomes of
-- mkdirSync, of the lock and of the write, and what other processes do while the call waits) with
-- the directory, and returns its outcome and the directory it leaves. A governance call takes the
-- store's state and returns an answer, with the next state where it appends. A registry append takes
-- the logs' texts and what it meets (Env: links, the lock's world, the faults of mkdir, of the write
-- and of the lock's removal), and returns the texts it leaves and its outcome, an answer or an
-- exception. A run of the compaction meets besides what other writers do before the lock is held. A
-- lease token is the exact value of a JavaScript number, and the next token is the rounded sum, which
-- from 2^53 on may be the same number; lock options are whole numbers, infinities and NaN.
--
-- Parameters: Date, JSON and the text of a lease file (Platform, with the laws IsPlatform), JSON, what
-- zod's safeParse makes of an event and its issues (Library, with the laws IsLibrary), Date.parse and
-- sha256 of the compaction (Clock, with the law IsClock), the store of the evaluators (Store, with the laws IsLog), the outcomes of mkdir, of Math.random and of the
-- clock in the lock loops (World, with the laws IsWorld), and what zod's safeParse makes of an audit
-- target or of an offered artifact.
--
-- Fuel: backoff_loop has one unit more than its budget in milliseconds, as each wait takes one at
-- least; a lock loop whose attempts, interval or budget are Infinity or NaN is followed for as many
-- rounds as the World says, and no theorem says that it ends; the walk along a chain of audits has one
-- more than there are events, as each round but the last visits the id of another event.
--
-- Not modelled: the texts of messages; members of a lease file that the schema does not name, which
-- the source keeps and the model drops; ttls that are not whole seconds; instants before 1970; time
-- that passes in a lock loop outside its waits; what other processes write to a log between the steps
-- of one append, whose write is a single one, or while a compaction holds the lock; the asynchronous
-- twins of the lock and of the append, which make the same steps (but a timer of Infinity or NaN
-- milliseconds fires at once); fractions as lock options and caps; clocks that are set back during a
-- lock loop; TTLs that are not whole days and the temporary file of a failed compaction; probe values that are no integers; the profiles' storage and seeds (Pacing takes what they
-- return). The protocol service, the quad layout and the substrate tiers, the watch's backends and
-- writers, the MCP server, the command line, telemetry, scripts and plugins have no model here.
pub mod Base
pub mod Lease
pub mod Governance
pub mod Registry
pub mod Watch
pub mod Diagnostic
pub mod Pacing
pub mod Layout
