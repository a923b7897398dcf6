-- ===== src/Lib.antt =====
-- A model of the server of latte-work, which runs command line Agents in the projects of a host, and
-- what holds of it. The server keeps its state in one SQLite database. Clients send requests over a
-- socket; a request changes the database by the methods of `Store`. A message that a user sends while
-- the Agent works is put in the session's durable queue, from which it is handed to the running Agent
-- or starts a turn of its own.
--
-- The parts, and where they are:
-- - Protocol (crates/latte-work-protocol/src/lib.rs): the requests, responses, events and the values
--   in them. JSON values are opaque. Numbers that the code keeps as floats, such as times, are
--   natural numbers here.
-- - Store (crates/latte-work-server/src/store.rs, sources.rs): each table is a list of rows in
--   insertion order (Store.State); each method takes the store and returns the new one with its
--   answer, or one of the values of `Error`, and the time is an argument where the code reads the
--   clock. An UPDATE with a WHERE clause is `update_where`, a SELECT is `find?` or `select`. The
--   UNIQUE and REFERENCES constraints of the schema are written out as refusals. A transaction that
--   fails leaves the store as it was.
--   Store.Sessions is the lookup of sessions, Store.Manage the naming, pinning and archiving,
--   Store.Turns the admission of turns (`already_accepted`, `begin`, `state`), Store.Events the
--   insertion of events with their indexes, Store.Sources the reading of sources from a prompt or a
--   tool's name, Store.Organised the calls of Store.Manage as one step function,
--   Store.Turns.Later these with the queue's calls and `state`,
--   Store.Paging the pages of a session's events: `events` from the oldest on, `history` from the newest
--   back (Store.Paging.History). `claude::tool_content` is an argument there.
-- - Queue (crates/latte-work-server/src/message_queue.rs): Queue.Rows the SQL of its two tables,
--   Queue.Admission `enqueue` and `queued_duplicate`, Queue.Edits the calls of the user,
--   Queue.Handoff the hand-over to an Agent and the opening of the store. ORDER BY is an insertion
--   sort, which is stable as the order is total on distinct positions. Queue.Steps makes the calls one
--   step function: Queue.Evolution says how a row changes, Queue.Invariant what holds between calls.
-- - Config (crates/latte-work-config/src/lib.rs, validation.rs, discovery.rs): the providers of models
--   and their bindings to Agents, kept by the application in one file. Config.State is the file's
--   content, Config.Validation what is accepted, Config.Bindings `persist`, `bind`, `delete`,
--   `forget_host` and the lists, Config.Drafts `save` and `model_endpoint`, Config.Steps the calls as
--   one step function. A `BTreeMap` is an association list in the order of its keys. New identifiers
--   and whether the file could be written are arguments. The parser of addresses (crate url) and
--   the size that serde_json gives to the content are the fields of `ConfigLibrary`; nothing is assumed
--   of them. A failed `expect` is the error `panicked`.
-- - Questions (crates/latte-work-server/src/questions.rs): `validate`, the check of a user's answers to
--   an Agent's questions.
-- - Terminal (crates/latte-work-server/src/terminal.rs): Terminal.Output is the kept output with its
--   cursors, which are floats in the code (`as_f64` rounds as they do), Terminal.Process the closing of
--   a terminal and its reading, writing and watching threads, Terminal.Table the requests,
--   Terminal.Steps requests and threads as one step function. What the system answers is an argument.
-- - Attachments (crates/latte-work-server/src/attachments.rs): `begin`, `chunk`, `finish` and `abort` of
--   pasted files, over a directory that is a list of complete files and of transfers with their
--   temporary files. What the disk answers, the identifiers and the time are arguments.
-- - Runtime (crates/latte-work-server/src/runtime.rs): Runtime.Sessions is the table of the tasks that
--   run the sessions (`control_for`, `close`, `archive`, `project_session_state`), where the answer of
--   a task to a cancel is an argument; Runtime.Titles is `TitleRefreshCache`.
-- - Lifecycle (crates/latte-work-server/src/upgrade.rs, crates/latte-work-protocol/src/lifecycle.rs): the
--   requests by which Apps claim, adopt and close sessions and terminals and prepare an upgrade, over
--   the tables of Runtime and Terminal and the database of Store.
-- - Client (crates/latte-work-client/src/lib.rs): Client.Transport is `exchange` over one stream with the
--   requests that an App makes by it, where what comes of a frame is an argument; Client.Shell the
--   arguments of `ssh` and the quoting for the remote shell, on a Unix system; Client.Words how a POSIX
--   shell splits a simple command, by which Client.Commands reads the command back.
-- - Tests: concrete inputs.
--
-- The sizes that serde_json gives to a message or an event, and its reading of a JSON array, are the
-- fields of the parameter `JsonLibrary`; nothing is assumed of them. Every loop is structural, but for
-- the digits of a number (`decimal`), whose fuel is the number and one more, and each round divides by
-- 10. Revisions are bounded by 2^32 as in the code, where the addition is checked; counts and sizes,
-- which the code bounds far below 2^32, are natural numbers.
--
-- Not modelled: the Agent adapters, files, skills, git and the start of another version of the
-- server, which are process and file I/O; the task of a session, which calls the queue; the
-- migrations of earlier databases; the start of the client's process with its
-- handshake; the desktop application.
pub mod Common
pub mod Protocol
pub mod Store
pub mod Queue
pub mod Config
pub mod Questions
pub mod Terminal
pub mod Attachments
pub mod Runtime
pub mod Lifecycle
pub mod Client
pub mod Tests
