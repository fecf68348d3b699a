-- ===== src/Lib.antt =====
-- stackhour: the control plane's store, hub and nodes, and the queue and log reader of the agent.
--
-- The control plane is a hub that keeps an append-only log of events in SQLite, clients that send
-- commands, and nodes that run engines and send events back. The hub's store
-- (crates/stackhour-domain/src/store.rs) is where commands and events become durable: it numbers
-- the log, de-duplicates retries, queues commands for the nodes, keeps approvals, settles runs and
-- tasks when a run ends, and wakes the assistant. This library models that store, with the
-- vocabulary that it stores and sends, the hub's server on top of it (the client commands, the
-- broadcast, the links to nodes and clients), the node that runs the engines (its outbox, its
-- Claude and Codex engine and its connection loop), the offline queue of the usage agent and how it
-- follows a log.
--
-- Files and the code that they model:
--   Prelude, Result, Sql      helpers; errors as constructors in place of texts (stackhour-core's
--                             Error); the SQL statements that the store issues, on lists of rows
--   Domain/*                  crates/stackhour-domain/src: entities.rs (a file for each status enum,
--                             and Entities), event.rs (EventKind, Event), ids.rs (Ids), protocol.rs
--                             (Protocol, Handshake); Codec holds the texts of other crates
--   Store/Rows                the schema's columns, insert_*_row's values and the row_to_* mappers
--   Store/Db                  the tables together, and transactions
--   Store/Tables              next_sequence, insert_event, insert_task_row, insert_run_row
--   Store/Append              append_command, append_command_with, append_command_bundle,
--                             command_outcome, append_node_event, apply_terminal_lifecycle_and_wake
--   Store/Reads               head_sequence, events_after, recent_events, task_events_tail, get_*
--   Store/Entities            create_task, insert_task, start_run, insert_run, upsert_node
--   Store/Dispatch            pending_dispatches, acknowledge_dispatch, acknowledge_dispatch_from
--   Store/Wakes               register_assistant_worker, pending_assistant_wakes,
--                             complete_assistant_wake, defer_assistant_wake
--   Store/Approvals           request_approval, resolve_approval
--   Store/Settings            get_setting, put_setting
--   Store/Migrations          run_migrations, applied_migrations, schema_version
--   Store/Machine             each public writing operation as a step, and histories of steps
--   Store/Log, Atomic, Idempotent, Progress, Ownership, NodeEvents and the children of the others:
--                             proofs
--   Hub/State                 crates/stackhour-hub/src/lib.rs: HubState's registry, routing, replay_pending,
--                             negotiate_node, accepts_client, accepts_node_event; Table is HashMap
--   Hub/Checks                validate_*, node_accepts_engine, UpdateSettings
--   Hub/Publish               fetch_event, append_and_broadcast_*, finish, finish_with_entity
--   Hub/Commands              apply_command_inner and its arms, eligible_execution_node,
--                             submit_command; Commands/Parts has the drafts and dispatches
--   Hub/Act, Worker           methods with early returns; create_worker_task, the assistant's runs
--   Hub/NodeLink              handle_node, on_node_connected, on_node_disconnected
--   Hub/ClientLink            handle_client and snapshot; ClientLink/Session is a client's session
--   Hub/Machine               the hub's writing operations as steps, and runs of them
--   Hub/Reaches, Started, Cases, Retry, Durable, Binding, Coherent, Broadcast, Sound, Accepts,
--   Eligible, Acknowledged, Registry, Admission, ClientLink/Delivered, Exact, NoGap, Turns: proofs
--   Agent/Queue               crates/stackhour-agent/src/queue.rs: the text of queue.jsonl and the choice
--                             of a batch; Queue/Batch and Queue/Contents are proofs
--   Agent/Tail                crates/stackhour-agent/src/tail.rs: read_new_lines and prune_offsets; Tail/Lines,
--                             Ticks and Pruned are proofs
--   Agent/Tick                the queue's part of tick, crates/stackhour-agent/src/lib.rs; Tick/Kept is a
--                             proof
--   Node/Backoff              crates/stackhour-node/src/backoff.rs
--   Node/Outbox               crates/stackhour-node/src/engine.rs: EngineOutbox, what a node keeps until the
--                             hub has acknowledged it; Outbox/Pending, Order, Taken, Waiting and
--                             Attach are proofs
--   Node/Delivery             a node's outbox and the hub's link to it, as one system with steps;
--                             Delivery/Held is its proof
--   Node/Cli/State            crates/stackhour-node/src/engine.rs: CliEngine with its jobs and tasks
--   Node/Cli/Dispatch, Tasks  CliEngine's dispatch and cancel, and the tasks that they spawn
--   Node/Cli/Machine          runs of the engine; Cli/Once, Due, Outcome and Interrupts are
--                             proofs
--   Node/Process              crates/stackhour-node/src/process.rs: the request, build_argv and the parser of
--                             the output; Process/Glue and Output are proofs
--   Node/Supervisor           crates/stackhour-node/src/lib.rs: run_with_engine, connect_once, receive_loop and
--                             handle_hub_message; Supervisor/Ramp is proofs
--   Core/Text                 the operations of str
--   Core/Engine               crates/stackhour-core/src/engine.rs; Engine/Argv, Plain, Codex and Claude are
--                             proofs
--   Examples                  concrete runs
--
-- How the state and the operations correspond: the Db record has one list of rows for each table, in
-- the order of rowid. An operation takes the Db and returns its result with the Db after it. Inside a
-- transaction a statement is a function to a Result with the tables so far; `transaction` keeps the
-- tables of a success and drops those of a failure, which is BEGIN IMMEDIATE with the rollback that
-- rusqlite does on drop. A history is a list of steps; SQLite serialises the writers, so the
-- interleavings of several connections are the histories.
--
-- The hub's state is a HubState record: the store's Db, the values sent on the broadcast channel,
-- the routing cache and the connected nodes. The hub holds its lock through an append with its
-- broadcast, and the model makes each operation one step; between the calls of the store that one
-- operation makes, the code may let another connection in, which is not modelled. A client's
-- receiver is a position in the broadcast channel; where tokio reports that it lagged, the position
-- moves on past the values that were dropped. A link's loop is one function for each kind of turn,
-- and the session is a list of turns; a turn stands for sends that succeeded.
--
-- The node's engine is a record with its outbox and its tables of jobs. A thread that it spawns is
-- a task that runs a stretch at a time: up to its wait for the process, and from there to its end;
-- a run of the engine puts the stretches in any order. A link to the hub has a life, the number of
-- frames that its writer still takes. A method of the outbox is a step for what it does under the
-- lock, and leaves a sender behind that puts its frames into the link one at a time, with the steps
-- of other tasks in between; of two such calls in one task the order of the sends is left open. What
-- an attempt to connect meets (the socket, the frames, the shutdown) is given as the attempt's
-- course. Text is a list of characters, and white space is that of Unicode.
--
-- Parameters: the clock (Utc::now) and the fresh identifiers (EventId::new and its like) are
-- arguments of the operations that read them. Codec holds the texts of uuid, chrono and serde_json;
-- IsLawful says that identifiers and times before the year 10000 read back and that the texts of
-- such times stand in the order of the times. A property about JSON names the round trip of its own
-- value as a hypothesis. The DDL of a migration is a parameter that takes a schema to the next one,
-- or fails. The agent's reader of logs takes from_utf8_lossy and the numbers of serde_json as
-- parameters; that decoding goes through line by line and that a number reads back are hypotheses.
-- What the file system and the server answer to a tick of the agent is an argument of it; that a
-- post that is confirmed was stored is the server's part.
--
-- Bounds: a sequence is an i64 in SQLite, and next_sequence fails past the largest one. Nothing in
-- the model runs on fuel: every function is structural. The queue's file is a whole text, and a
-- write of a tick may fail and leave any text; that a rewrite is atomic, that no write was torn off
-- before, and that a row's JSON is one line that reads back, are hypotheses where they are used.
--
-- Not modelled: faults of SQLite itself (I/O, busy, corruption), the texts of errors, serde's
-- tagging of the messages, the rest of the hub's server (HTTP and the framing of WebSocket,
-- timeouts, AssistantSettings and the settings kept as JSON, the update of nodes, list_nodes,
-- install_args), the node's processes and sockets themselves, its writer, heartbeat and self-update
-- (crates/stackhour-node), StubEngine and the builders of NodeConfig, the rest of the usage tracker
-- (the watchers, state file, lock and HTTP of crates/stackhour-agent, stackhour-core,
-- stackhour-store, stackhour-server), the command line (crates/stackhour) and the front end.
pub mod Prelude
pub mod Result
pub mod Sql
pub mod Domain
pub mod Store
pub mod Node
pub mod Agent
pub mod Core
pub mod Hub
pub mod Examples
