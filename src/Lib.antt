-- ===== src/Lib.antt =====
-- An executable model of the core of an AI email-support agent, and the theorems on it.
--
-- The program is a monorepo. `packages/core` holds the pure rules (what to send, what to review, which
-- status follows which, what billing allows); `packages/db` holds the tables of a workspace and the
-- writes that the api and the worker share; `packages/knowledge` and `packages/mail` hold the crawl and
-- the mail plumbing, with the sync that turns a message of a mailbox into a ticket; `apps/worker` runs
-- the drafting job over all of them: the gate of `drafting/caps.ts` bounds the runs, `drafting/claim.ts`
-- is the per-ticket mutex, `drafting/outcomes.ts` lands a finished run, and what needs a human goes
-- through the guarded escalation of `packages/db/src/escalations.ts`. The owner decides on a draft in
-- `apps/api/src/drafts/service.ts`, which puts its send in the ledger, and
-- `apps/worker/src/jobs/send-execute.ts` claims the send, looks in the mailbox for a copy that an
-- earlier run left, sends the reply and completes the ledger. Model calls pass the limiter of
-- `packages/llm`.
--
-- Which file models which part:
--   Base            shared names, Boolean tests, lists, keys with a decidable equality, membership
--   Core/Autonomy   packages/core/src/autonomy.ts: `decide` (split into `decide` and `decide_auto`)
--   Core/Transitions packages/core/src/transitions.ts: the four status matrices, `can`, `assert`
--   Core/Evidence   packages/core/src/evidence.ts and quality.ts: demotion and graduation
--   Core/Redraft    packages/core/src/invariants.ts and redraft.ts
--   Core/Billing    packages/core/src/billing.ts
--   Core/Settings   packages/core/src/settings-catalog.ts and plans.ts
--   Knowledge/Frontier, Knowledge/Batching   packages/knowledge/src/crawler/frontier.ts and
--                   embed/batching.ts (with `estimateTokens` of packages/llm/src/core/tokens.ts)
--   Mail/Threading  packages/mail/src/threading.ts: `buildReferences`
--   Mail/Store      packages/mail/src/store.ts: the statements of the sync on tickets and messages
--   Mail/Ingest     packages/mail/src/sync.ts: the transaction of `ingestMessageId` and its callbacks
--   Db/Tables       packages/db/src/schema: the columns in use, `find_ticket`, `update_ticket`, `audit`
--   Db/Escalations  packages/db/src/escalations.ts: `escalateTicket` and its notification
--   Db/Metering     packages/db/src/metering.ts: `bumpMeter`, `sumMeter` and the call sink
--   Llm/Limiter     packages/llm/src/core/limiter.ts: the FIFO limiter of one key
--   Worker/Claim    apps/worker/src/drafting/claim.ts: claim, unwind, failure and finish
--   Db/Drafts       packages/db/src/schema/drafts.ts, sends.ts, memory.ts and the one-live-draft index
--   Worker/Outcomes apps/worker/src/drafting/outcomes.ts: the landings of a run (the draft's own in
--                   Worker/Outcomes/Landing)
--   Worker/Gate     apps/worker/src/drafting/caps.ts and runs.ts: the caps and the life of a run row
--   Db/Sends        packages/db/src/schema: messages, jobs, replies, and `World`, the database with what
--                   leaves it
--   Worker/Send     apps/worker/src/jobs/send-execute.ts: `claimSend` and the kill levers; in Land the
--                   landings, in Complete `completeSend`, in Thread what it reads off the messages, in Run
--                   `runSendExecute` with its steps; in Delivery the steps of all the runs of a send and
--                   of its owner, in any order
--   Api/Drafts      apps/api/src/drafts/service.ts: `approveDraft`; in Decide `holdDraft` and
--                   `resumeDraft`, in Refuse `rejectDraft`, in Resolve `resolveTicket` and `markViewed`
-- A module's children hold its proofs, and each part's Tests module its runs on concrete inputs.
--
-- How the code is modelled. A transaction is a function on `Tables` (or on the ledger, the usage
-- counters): it takes its row lock first, so it is one step, and a thrown error leaves the tables as
-- they were. A guarded `UPDATE ... RETURNING` is `update_ticket` with the guard, and it says whether a
-- row came back. Row-level security confines every statement to one workspace, so no row carries an
-- organisation. A uuid is a number compared for equality, a fresh one comes from a counter; a time is
-- its epoch milliseconds, a UTC day a day number; `now - x < y` is written with the subtraction on the
-- other side, as ℕ has no negative numbers. Counts, cents, micros and tokens are ℕ, as they stay far
-- below 2^53. A number setting is ℕ as well: the caps of the catalog and of the plans are whole, and
-- there the `Math.round` of `usdCapToMicros` changes nothing; an `org_settings` row that holds a
-- fraction is outside the model. Evidence scores, doubles in the source, are a type with an order.
-- Rates are fractions. What the code relies on and does not define is a parameter: `Date.toISOString`,
-- the calendar month, `String.trim`, the UTC day. Every loop is structural recursion, so no fuel is
-- used.
--
-- The send job is one function on `World`, from the claim to the landing. What it learns from outside,
-- the guardrails' verdict, the credential, the scan of the mailbox, the provider's answer, the clock
-- at the flip and after a throw, and the queue's abort, is a record `Answers`, so a run is executable.
-- A throw is an `Ending` with the world that was committed before it. Delivery cuts the run at its
-- transactions and lets the pieces of any number of runs, crashes, and the owner's acts interleave; a
-- run is known by its claim token. A step has the guards of its statement only, so a run that outlived
-- its claim still lands and delivers there, as it does in the code. What the design relies on is
-- apart, the predicate `AllRelied` of a path: a scan of the mailbox finds the marker of what was
-- delivered, a run lands, and its call delivers, before its claim expires (the job's deadline equals
-- the horizon, but the queue does not cancel a handler), and a dead letter is written while no run's
-- claim is live. The owner's actions are functions on `Desk`, which adds the one-click tokens; the
-- screen of an edit, the demotion check and what a rejection teaches are parameters.
--
-- Not modelled: network I/O, the provider and model adapters, prompts, regular expressions,
-- cryptography, the routers and the user interface, the walk of a change feed and its cursors, the
-- triage job, the list views of drafts, the free-form details of audit rows and the copy of
-- notifications, and floating-point scores.
pub mod Base
pub mod Core
pub mod Knowledge
pub mod Mail
pub mod Db
pub mod Worker
pub mod Llm
pub mod Api
