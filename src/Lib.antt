-- ===== src/Lib.antt =====
-- World Wide Woo: the todo ledger and the components beside it.
--
-- The program is a terminal workbench over coding agents. What is modelled is its core logic,
-- in these parts.
--
-- * src/domain/todos.ts, the todo document. Todo holds the types, the progress counts and the
--   text runtime: regular expressions, `trim` and `Date.parse` belong to JavaScript and are
--   parameters. Todo/Validation is `validateTodoDocument` over unknown values (Value), its
--   mutable counters passed along as `Seen`. Todo/Validity is the independent description of a
--   valid document.
-- * src/application/todo-ledger.ts, the ledger that owns a session's document. Ledger/State has
--   its state, its ports (store, events, clock) and `commit`; Ledger/Plans has the pure part of
--   each operation, which drafts the next document; Ledger/Operations composes both as the
--   methods do; Ledger/Native is `syncNativePlan`; Ledger/Requests has all the calls as one
--   type, and runs. A method is atomic here: `await` points at which another call could run are
--   not modelled, and neither are the texts of the error messages.
-- * src/application/session/session-usage-tracker.ts, the token accounts of a session:
--   UsageTracker. The two projections of a notification's parameters are inputs, and token
--   counts are natural numbers, as `Math.floor` leaves them.
-- * src/presentation/tui/render-scheduler.ts and src/presentation/tui/exit-key-policy.ts are
--   RenderScheduler and ExitKeyPolicy, small state machines whose clock readings are inputs in
--   whole milliseconds.
-- * src/application/router-service.ts over src/domain/model-settings.ts: Router. The settings
--   file and the session are a record of services, whose promises are a hypothesis of
--   Router/Agreement. src/infrastructure/settings-store.ts is SettingsStore, over a file system
--   that is an argument, and SessionSettings is `updateSettings` of
--   src/application/session-runtime.ts; SessionSettings/Updating makes of both the services that
--   the router is given. The loop that waits for the lock is one call of the file system.
-- * src/domain/review.ts and src/application/review-service.ts: Review and Review/Service. The
--   redaction (Redaction models it), the digest, JSON's quoting and the adapters are arguments;
--   the JSON of a packet is written out.
-- * src/domain/canonical-document.ts is Canonical, the checks of a draft of a tracked Markdown
--   document, its target, and the diff that is shown for approval. The diff's loop from the end
--   is the loop from the start over the reversed lines.
-- * src/application/canonical-promotion.ts is Promotion, the service that accepts drafts and
--   writes them. The store and the hash are arguments, and calls do not interleave.
-- * src/domain/terminal.ts and src/domain/redaction.ts are Terminal and Redaction: excerpts of
--   terminal text, what leaves for a review, and the public part of a response. What a regular
--   expression matches or replaces is a function of a runtime record.
-- * src/domain/project-activity.ts is Activities, on payloads that are trees (Value).
-- * src/domain/work-steps.ts is WorkSteps: Framing and Runtime are the inputs of the hash,
--   Entries reads a plan, Journal is `validateJournal`, Matches and Reconcile are `reconcile`
--   with the edit distance of Distance, Classes is `classifyWorkActivity`, Flow is the loop of
--   `projectWorkFlow`, Turns finds the turn, and Projection is that function, with the types of
--   Views. The hash is an argument; its thrown errors are results. The arrays that the source
--   pushes to are passed along, and an association is part of its state. Delegations is
--   `projectNativeDelegation` of the same file.
-- * src/domain/planning.ts is Planning. The walk along `supersedes` runs on fuel, the number of
--   the stories, which is enough (Planning/Chains).
-- * src/application/planning-service.ts is PlanningService. The store is an argument, a listener a
--   number, and what listeners were told a log; a listener that calls the service is left out.
--
-- Common has the lists, tests and results that all parts share, Dict a JavaScript `Map` with
-- text keys, Decimal the printing and parsing of numbers in ids. The digits of a number n are
-- written with the fuel n + 1, and no number has more digits. Decimal/Doubles rounds and prints
-- numbers as JavaScript does; its fuel is enough for all numbers in ids, which have at most 64
-- characters. Every other loop but the walk in Planning is structural on a list, a text or a
-- value. Samples and Tests run the models at concrete inputs.
--
-- Not modelled: the Markdown form of a todo document, the other stores on disk,
-- the rest of a session's runtime, the executors, the terminal views.
pub mod Common
pub mod Value
pub mod Decimal
pub mod Dict
pub mod Todo
pub mod Ledger
pub mod UsageTracker
pub mod Activities
pub mod Canonical
pub mod Delegations
pub mod ExitKeyPolicy
pub mod Lines
pub mod Planning
pub mod PlanningService
pub mod Promotion
pub mod Redaction
pub mod RenderScheduler
pub mod Review
pub mod Router
pub mod SessionSettings
pub mod SettingsStore
pub mod Terminal
pub mod WorkSteps
pub mod Samples
pub mod Tests
