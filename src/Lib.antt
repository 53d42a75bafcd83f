-- ===== src/Lib.antt =====
-- Verification of aifluxon, a runtime for agent loops, and of the parts of it that keep state.
--
-- A host starts runs in a run table. A run owns an event log, a budget and a ledger of tool results;
-- all runs of a table share one store of pending operations, the approvals and commits that a
-- host has to decide. The coordinator drives a run through these, and hosts read the log, decide
-- operations and cancel runs from other threads. Sessions, in memory or in files, the streams of the
-- providers, context pruning and skills are parts beside the table.
--
-- Files and code, with paths from the root of the repository:
--   Core/        crates/aifluxon-core/src/{ids,message,operation,tool,authority,run,event,provider}.rs:
--                the data.
--   Json         serde_json values as an interface.
--   Operations   crates/aifluxon-runtime/src/operations.rs: InMemoryOperationStore. A method is the
--                function of the same name, `OperationStoreInner` is `OperationStore`. Its children
--                hold the commands and histories (Command), what a command does to a record
--                (Guards, Lifecycle, Change), and the proofs.
--   Budget       crates/aifluxon-runtime/src/budget.rs: AgentLoopBudget.
--   Ledger       crates/aifluxon-runtime/src/tools/executor.rs: ToolLedger.
--   Runs         crates/aifluxon-runtime/src/run_table.rs: RunTable. Runs/Record is what a method
--                does to one record, Runs/Table the methods, Runs/Spending those on a budget or a
--                ledger, Runs/Tree `cancel_tree`; the rest are proofs.
--   Tools/       crates/aifluxon-runtime/src/tools/{registry,policy,validation,executor}.rs: the tools
--                of a run, the host's policy and the preparation of a call.
--   Coordinator  crates/aifluxon-runtime/src/coordinator.rs: the loop over a model and its tools.
--                Process is what an async function may await and how an environment answers it,
--                Messages the messages, Execution one tool call, Loop the two loops.
--   Sessions     crates/aifluxon-runtime/src/state.rs: the three in-memory stores. The methods of the
--                provider states and the checkpoints end in _state and _checkpoint.
--   JsonStore    crates/aifluxon-runtime/src/json_store.rs: the sessions in files; its child
--                ProviderStates the provider states in files.
--   Context      crates/aifluxon-runtime/src/context.rs: the layers and the pruning of messages, where
--                an element or a slice out of range is a panic.
--   Deltas       crates/aifluxon-providers/src/common/delta.rs: TextDeltaReconciler.
--   Sse          crates/aifluxon-providers/src/common/{sse,utf8}.rs: IncrementalSseParser and
--                Utf8ChunkDecoder.
--   ToolDeltas   crates/aifluxon-providers/src/tool_deltas.rs: ToolCallAssembler, with the functions that
--                it calls in other files as parameters.
--   Terminal     crates/aifluxon-runtime/src/terminal.rs: AgentTerminalGuard.
--   Continuation crates/aifluxon-runtime/src/continuation.rs: ContinuationCounts. Its messages
--                stand in Coordinator/Messages.
--   Skills       crates/aifluxon-runtime/src/skills.rs: SkillRegistry.
--   Prelude      shared notation, HashMap and HashSet, results.
--   Examples     small runs of the models, on which the theorems are applied.
--
-- Choices:
--   * serde_json values are the parameter V. UUIDs and names compared only for equality are
--     numbers. u32 and u64 are natural numbers with the saturation of the source written out.
--   * SystemTime, Instant and fresh identifiers are arguments. Instants and durations count
--     nanoseconds.
--   * A method that takes a mutex is one step, and a history of steps stands for any interleaving of
--     the threads. The poisoning of each mutex is a flag, and each method has its error for it.
--     Notifications that the source sends after the unlock are part of the step.
--     `finish` and `cancel` take several locks in a row. A history may hold them whole, or their
--     parts with other calls between: `writes_completion`, `writes_failure` and
--     `writes_cancellation` are the parts under the table's lock, and a command of the operation
--     store is what follows. `finish_amid` is `finish` with the calls of other threads between its
--     steps. The coordinator's own calls of them are whole, and `cancel_tree` is one step; what
--     other threads do between the locks of these is not modelled.
--   * A HashMap is an association list; its order stands for the order of iteration, and no
--     theorem fixes it.
--   * A tokio Notify is an identity, and `wakes` lists the identities that were notified. An async
--     wait is modelled by one turn of its loop, which sleeps or returns.
--   * A cancellation hook is what it returns, and so is the executor in the ledger.
--   * An async function of the coordinator is a process, a tree of effects: a call of the run table, a
--     read of it, the wait for a host's decision, an executor, a turn of the model, the time, a fresh
--     identifier. The environment is a list of events, which are calls of other threads and answers.
--     Any call may come between any two effects, parallel tool calls advance in any order, and a
--     select may take the branch of the cancellation once the run is cancelled.
--     The futures that a select drops are not resumed.
--   * The loops run on fuel, the rounds that may begin. One more than the limit leaves is enough; a
--     run without limits has none that is.
--   * JSON is an interface, Json, and the JSON schema validator a function. An executor is a number
--     that the environment runs.
--   * A file store is a step on the files of its directory, under its lock file. Io says what the
--     file system refuses in a call, and a codec stands for serde_json. Every entry of a directory
--     can be read.
--   * A slice of a stream's text inside a character is a panic, which answers nothing.
--   * Streams are UTF-8 bytes. The loops of the parser and of the decoder run on the number of bytes
--     and 1 more, since each round moves on by a byte at least.
--   * The loop of `cancel_tree` runs on fuel, the number of runs and 2 more: every run is pushed at
--     most once by its parent, and the root once more.
--
-- Not modelled: the provider adapters (HTTP and JSON of each vendor) but for the tool calls that they
-- put together, the merge of their metadata and the kind of a chunk, the credential stores (files,
-- keyring and encryption), the API facade and the Python bindings.
pub mod Prelude
pub mod Json
pub mod Core
pub mod Operations
pub mod Budget
pub mod Ledger
pub mod Runs
pub mod Tools
pub mod Sessions
pub mod JsonStore
pub mod Context
pub mod Deltas
pub mod Sse
pub mod ToolDeltas
pub mod Terminal
pub mod Continuation
pub mod Skills
pub mod Coordinator
pub mod Examples
