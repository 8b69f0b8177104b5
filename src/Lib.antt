-- ===== src/Lib.antt =====
-- Wio, a control plane for a small cluster of servers: verified models of its core.
--
-- The control plane (internal/httpapi, internal/scheduler, internal/agentgateway) keeps its state in
-- a database (internal/store), hands work to Agents as operations, records stream events and passes
-- them to browsers (internal/realtime). An Agent (internal/agent) executes each operation and reports
-- a result. What an Agent may be sent depends on its version (internal/buildinfo, internal/codexcli);
-- scheduled tasks run at the times of internal/schedule.
--
-- Base, Text: shared names, Boolean tests, lists over the native numbers, and the functions of Go's
--   packages `strings` and `strconv` that the code calls. A text is a list of code points there; a
--   `String` is used where the code only compares texts.
-- BuildInfo: internal/buildinfo/version.go. BuildInfo.Version is `parseVersion` and `atLeast`,
--   BuildInfo.Features every `Supports…` gate; Order, Gates and Parse hold the proofs.
-- CodexCli: internal/codexcli/version.go, and in Releases the ReleaseChecker of releases.go there. The
--   requests are parameters; the loop over the pages runs on fuel, the most pages that it asks for.
-- Schedule: internal/schedule/schedule.go. Schedule.Field is `parseField`, Schedule.Cron `Parse` and
--   `Next`, Schedule.Calendar the fields of a time in a zone. `time.ParseDuration` and
--   `time.LoadLocation` are parameters. A range is walked on fuel 256 (`range_fuel`), more than any
--   field has values; `Next` searches as many minutes as the code does (`search_rounds`, 5 * 366 days).
-- Store.Table: `UPDATE … WHERE`, `RowsAffected`, `ORDER BY` and `LIMIT` on lists of rows.
-- Store.Operations: the statements of internal/store/store.go on one operation (`MarkDelivered`,
--   `MarkRunning`, `CompleteOperationIfActive`), `CancelOperation` of scheduled_tasks.go, and
--   `PendingOperations`. `json.Valid` is a parameter. Rows and Steps say what each statement does
--   to a row, and the statements are steps of a relation; the statements of project deletion and creation
--   on operations that wait, and the deletion of rows with their server, are not among them.
-- Store.Queue: `queueOperationPayload` and its callers, with the unique indexes of the table. The key
--   is looked up before the transaction of the INSERT: what other connections commit in between is a
--   parameter (`meanwhile`), as is the fresh id.
-- Store.Events: `AddEvent` and the paging queries over the event log, and
--   `HasPendingTurnCancellation`. Sequence numbers are natural numbers; JSON decoding is a parameter.
-- Store.Tasks: internal/store/scheduled_tasks.go, the three tables of scheduled tasks; Store.Tasks.Edits
--   creates and changes a task. The rows that the queries join to a task exist, as the foreign keys
--   demand, and are not repeated in a task.
-- Store.Interrupts: `RequestOperationInterrupt` of internal/store/operation_interrupt.go. The keys of a
--   range are those with a prefix, as the database compares texts by their characters.
-- Store.CodexSnapshots: internal/store/codex_snapshots.go, over the operations and the rows of cached
--   answers; what the data of a result decodes to is a parameter.
-- Hub: internal/realtime/hub.go. A run is a list of interleaved actions: subscriptions, the two
--   critical sections of `Publish`, and reads from a channel. Ids wrap around at 64 bits.
-- Goal: internal/geminiadapter/goal.go. SHA-256, `%d` and `len` are parameters.
-- AgentCache: internal/agent/operation_cache.go and `handleOperation` of internal/agent/client.go, for
--   an Agent with a state directory. The eviction loop runs on fuel, the number of entries. The
--   interrupts that end an execution early (internal/agent/operation_interrupt.go and the like) are
--   not modelled.
-- Scheduler: internal/scheduler/scheduler.go. Scheduler.Codex is `enqueue` for a Codex session over the
--   tables of tasks, sessions, operations and events, with `ClaimThreadForTurn` and `SetThreadStatus`
--   of internal/store/resources.go; Scheduler.Decisions what `enqueueGemini` and `enqueueClaude` decide;
--   Scheduler.Tick the loop of `tick`. `QueueGeminiTurn` and `QueueClaudeTurn`, whose tables are not
--   modelled, are parameters, as are JSON, time formats and fresh ids. Scheduler.Thinking is
--   internal/geminiapi/thinking.go.
-- Gateway: internal/agentgateway/gateway.go. `dispatch`, `settle` and `flush` send the pending
--   operations and interrupt turns that are cancelled, over the tables of Store.Queue and the envelopes
--   sent so far. A turn is claimed (`ClaimGeminiDelivery` of internal/store/gemini.go) before it is
--   sent. JSON, the vault and the stream are parameters. Gateway.Spec is the promise of a delivery, as
--   a step relation of its own; Gateway.Refinement relates the code to it.
-- Gateway.Results: the handler of `operation_result`, as the list of its calls of the store, of the hub
--   and of its own helpers; whether they succeed is a parameter, as is what decoding gives.
--   Transactions, Stages and Completion follow the sections of the handler, and Routes is the handler.
--   `completeGeminiOperation`, `completeClaudeOperation`, `failCodexTurn` and
--   `failCodexControlOperation` count as one call each.
-- Gateway.Alerts: `evaluateMetrics` and `evaluateOperationLatency`, with the counters of breaches in
--   memory and the rows of alerts. The test of a percentage against 90 is a parameter.
-- Paths: `filepath.Clean`, `Join` and `IsAbs` for a Unix system.
-- SelfUpdate: internal/agent/selfupdate.go, over a table of files: `ActivateStagedAgent`,
--   `ConfirmAgentUpdate` and, in Staging, `StageAgentUpdate`. The download, hashing, the comparison of
--   paths and the start of the new program are parameters, as are the calls that fail: a replacement that
--   fails (`replaceFile`) keeps the old file or loses it.
-- Redaction: `redactValue` of internal/security/security.go, for values decoded from JSON.
-- DeploymentTemplate: internal/deploymenttemplate/template.go, over a tree of files and links. The texts
--   of the generated files are parameters.
-- Tests: runs of the models, and each theorem at a concrete input.
--
-- Every statement is one atomic step: errors of the database connection, and transactions that the
-- database rolls back, change nothing and are left out. Times are nanoseconds.
--
-- Not modelled: HTTP handlers, streams, processes, the adapters of the command line programs, git,
-- docker and remote installation, which are mostly calls of other programs; the gateway's handling of
-- thread events and the validation of commands, which build on what is modelled here.
pub mod Base
pub mod Text
pub mod Paths
pub mod BuildInfo
pub mod CodexCli
pub mod Schedule
pub mod Store
pub mod Redaction
pub mod Hub
pub mod Goal
pub mod AgentCache
pub mod SelfUpdate
pub mod DeploymentTemplate
pub mod Scheduler
pub mod Gateway
mod Tests
