-- ===== src/Lib.antt =====
-- Verification of idk, a terminal workspace with a background host (crates/idk).
--
-- The host keeps the terminals, runs and Git operations of the projects of a workspace. Clients send it
-- requests in frames; the host checks them and answers. Runs and Git mutations of one worktree exclude
-- each other by leases of a gate. What a child process writes goes through a bounded filter to the
-- terminal's parser, and as a raw log through an escape filter to the log view. Commit messages are
-- written in an editor of the user interface.
--
-- The files and the code that each of them models:
--   Gate       the source-use gate of crates/idk/src/model.rs: `SourceGate` with `block`, `unblock`,
--              `unavailable` (set_unavailable), `ready` (set_ready), `state`, `reserve`, and the drop of
--              a `GateLease` (drop_lease). Gate/Steps has the calls of its clients as steps.
--   Model      the records of a workspace and their checks: `Workspace::validate`, `Project::validate`
--              (validate_workspace, validate_project) and the checks of fields of crates/idk/src/model.rs,
--              `validate_binding` of portable.rs, and the two checks of a launch environment, of
--              protocol.rs and project.rs.
--   Protocol   `Request`, `Envelope`, `Response`, frames and `safe_error` of crates/idk/src/protocol.rs.
--   GitWire    `GitTask` and its check of crates/idk/src/git_wire.rs; `GitPath::from_bytes` and
--              `ObjectId::parse` of crates/idk/src/git/types.rs; GitWire/Results has the states and
--              results of operations, GitWire/Paths describes the file names that are accepted.
--   GitOperation  the Git operation of crates/idk/src/host/git_operation.rs: `Operation` with `attach`,
--              `detach`, `input`, `resize`, `cancel`, `install`, `inventory`, `tick`, `finish`, `notice`,
--              `forget_screen`. GitOperation/Steps has what happens to it as steps,
--              which Epochs, Settled and Outcome are about.
--              The terminal's reader runs on its own, so each read of its status is a step of the terminal.
--   RunWire    run and log states, log chunks, and `RunRequest` with its check, crates/idk/src/run_wire.rs.
--   Controls   the escape filter and the display text of crates/idk/src/problems.rs.
--   Ingress    the bounded filter before the terminal parser, crates/idk/src/terminal.rs.
--   LogView    `LogView::new` and `push` of crates/idk/src/ui/run_log.rs, which use Controls and RunWire.
--   Draft      the editor of commit messages, crates/idk/src/ui/git_draft.rs.
--   RunLog     the private log of a run, `RunOutputSink` of crates/idk/src/run.rs, with the thread that writes
--              the file; RunLog/Steps has their accesses in every order, RunLog/Contents and RunLog/Drain
--              what the file holds, and that the thread ends.
--   Runs       the registry of runs, `RunRegistry` of crates/idk/src/run.rs: Start and Begin reserve and
--              commit a run, Finish and Observed run, cancel and end it, Retention and Pins keep and remove
--              it; Removal and Rotation are about the loops that remove runs. It uses Gate for leases, RunLog for logs and Ledger for what it saves.
--   Ledger     the saved records and their checks, crates/idk/src/saved_state.rs: Hosts, Runs, Repositories.
--   Structured the results and events of a run as the ledger keeps them, structured_result.rs,
--              result_store.rs and discovery.rs.
--   Common     tests, lists, results, maps, texts as code points, UTF-8 and paths.
--
-- State is passed explicitly: an operation on `&mut self` returns the new state with its result. An
-- `anyhow` error is a constructor that stands for its message. A panic of a slice is an error of its own
-- (Draft). Texts are lists of code points, byte strings lists of numbers below 256. Integers of the
-- source wrap or saturate where the source does; sums of lengths, which no memory can make overflow, are
-- plain. Loops are recursion on lists, but for two loops of the registry that remove a run in each turn:
-- they have one more turn of fuel than there are runs (Runs/Rotation). Maps are association lists.
--
-- Code outside the repository is a parameter: the parser of UUIDs (is_uuid), the decoder of base64
-- (decode), the display width of a text (width), the kernel's answers about children, and the channel to
-- the executor, the lengths of summaries as JSON, the files that the registry meets (World, Setting) and
-- the results that it captures. The terminal of an operation is an interface. Nothing is assumed of any
-- of them.
--
-- Not modelled: threads, sockets, processes, files, drawing, serialization and digests, whose effects lie
-- in the operating system or in libraries; the recovery of the registry of runs and its reads of logs; and
-- the registry of sessions.
pub mod Common
pub mod Gate
pub mod Model
pub mod Protocol
pub mod GitWire
pub mod RunWire
pub mod Controls
pub mod Ingress
pub mod LogView
pub mod Draft
pub mod GitOperation
pub mod Structured
pub mod RunLog
pub mod Ledger
pub mod Runs
