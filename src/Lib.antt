-- ===== src/Lib.antt =====
-- A model of z8run, a server that runs flows: directed graphs of nodes whose ports are joined by
-- edges. A flow is built from nodes and edges, checked for cycles, compiled into steps of nodes that
-- run in parallel, and executed by an engine that passes messages from node to node.
--
-- The parts, and the code that each is about:
--
-- - Base: tests on numbers, list lemmas and the names that all files share.
-- - Json: the shape of `serde_json::Value`. An object is the list of its entries in the order of the
--   map; a new entry comes last, where the library would sort it by its key.
-- - Error: crates/z8run-core/src/error.rs, with `Z8Result` and its bind for the operator `?`.
-- - Node: crates/z8run-core/src/node.rs, the port types and the nodes.
-- - Flow: crates/z8run-core/src/flow.rs, the flow and its construction. Flow.Connect and Flow.Built
--   have the properties of `connect` and of every flow that is built with it.
-- - Kahn: the functions `validate_acyclic` and `topological_order` of flow.rs. Kahn.Counts counts the
--   edges that a node waits for, Kahn.Degrees reads the map of in-degrees, Kahn.Relax and Kahn.Loop
--   have the invariant of the loops, Kahn.Start their first state and Kahn.Acyclic the properties.
-- - Scheduler: crates/z8run-core/src/scheduler.rs, `ExecutionPlan::compile` over the same map.
--   Scheduler.Steps has the loop over batches, Scheduler.Compile the properties.
-- - Message: crates/z8run-core/src/message.rs.
-- - Engine: crates/z8run-core/src/engine.rs, the executions in progress. The driver task that
--   `execute_with_trigger` spawns is a sequence of accesses to shared state (`advance`).
--   Engine.Lifecycle.World lets drivers and requests interleave as a step relation, and
--   Engine.Lifecycle.Cancel is about `stop` and `cancel_execution`. Engine.Start is
--   `execute_with_trigger` up to the spawn.
-- - Engine.Preview: the payload previews of engine.rs, with Secrets (`redact_preview`) and Truncate.
-- - Engine.Run: `execute_plan` and `dispatch_outputs` of engine.rs, over bounded channels, with
--   Dispatch (what is delivered), Channels (when a channel closes), Late (what arrives at a closed one),
--   and Ended and Plan (which nodes are reported as ended).
-- - Net: the addresses and networks that the next two parts share.
-- - Egress: crates/z8run-core/src/egress.rs, with Policy (addresses, hosts) and Body (the size cap).
-- - ClientIp: crates/z8run-api/src/rate_limit.rs, `ProxyTrust` and `extract_client_ip`.
-- - HookLimits: crates/z8run-api/src/hook_limits.rs; Slots has the order of calls as a step relation.
-- - JsonPath: crates/z8run-core/src/utils/json_path.rs.
-- - TextSplitter: crates/z8run-core/src/nodes/text_splitter.rs, `validate` and `split_by_fixed`.
-- - StringMap: a `HashMap` with texts as keys; Laws has what its operations keep.
-- - Nodes: crates/z8run-core/src/utils/node_helpers.rs and extract.rs, on which the nodes below build;
--   Laws is about the error outputs.
-- - Nodes.Memory: crates/z8run-core/src/nodes/conversation_memory.rs, the store and its four actions,
--   with History (the store against all that was saved), Valid (what every action keeps) and Executor
--   (a store per executor).
-- - Nodes.Handoff: crates/z8run-core/src/nodes/human_handoff.rs, the queue of tickets, with Tickets
--   (a call as a step on the queue) and Lookup (tickets that are looked up).
-- - Nodes.Batch: crates/z8run-core/src/nodes/batch.rs, with Chunks (the batches against the array).
-- - Nodes.Switch: crates/z8run-core/src/nodes/switch.rs, with Routes (the ports a message is sent to).
-- - Api: crates/z8run-api/src/error.rs and the accessors that the parts of routes.rs share.
-- - Api.Hooks: `collect_hook_routes` of crates/z8run-api/src/routes.rs, and the tables of deployments
--   of crates/z8run-storage/src/sqlite.rs, with Routes and Deploy.
-- - Api.Canvas: `canvas_to_flow` and `resolve_vault_refs` of routes.rs, with Compiled.
-- - Api.Auth: `ct_eq`, `verify_hook_auth` and `authorize_trigger`, with Bytes (the comparison of
--   bytes) and Policy.
-- - Api.Trigger: `restrict_to_trigger`, with Reach (the search below a trigger).
-- - Api.Handler: `hook_handler` up to the call of the engine, which puts these together with
--   HookLimits, with Safe (what has been checked when a flow starts) and Deployed (the handler after
--   a deployment).
-- - Api.CanvasShape: `validate_canvas` of routes.rs, with Shape (which canvases pass).
-- - Api.Flows: the handlers of routes.rs for the flows of a user, over the storage, HookLimits and
--   the engine, with Transfer (export and import), Kept and Started (what a step keeps of another flow), Isolation (what the
--   requests of a user change), Hidden (what their answers show) and Leftover (a deletion that is
--   interrupted).
-- - Api.Recorder: crates/z8run-api/src/execution_recorder.rs, which writes the events of the engine
--   into the executions, with Rows, Log (what the events say of a trace) and Recorded (the table
--   against the logs).
-- - Api.Socket: `handle_socket` of crates/z8run-api/src/ws.rs, the events that a client is sent, with
--   Owned.
-- - RateLimit: the token buckets of crates/z8run-api/src/rate_limit.rs, with Middleware, Window (how
--   many requests pass, and when the next one does), Cleanup (the task that drops idle buckets) and
--   Clients (one client's requests among those of others).
-- - Storage: crates/z8run-storage/src/lib.rs, the errors.
-- - Storage.Flows and Storage.Executions: the repositories of crates/z8run-storage/src/sqlite.rs for
--   flows and executions, with Rows (what a write keeps of other rows) and Interrupted.
-- - Storage.Vault: crates/z8run-storage/src/credential_vault.rs, the table of encrypted credentials, with
--   Rows (one row for each user and key) and Secrets (the table against a plain map of secrets).
-- - Storage.Migration: crates/z8run-storage/src/migration.rs, what a statement does to a schema, with
--   Scripts, Runner (the two functions that run them), Schemas (their equality), Stops (where a run can
--   be ended) and Resume.
-- - Tests: sample inputs, runs of the code on them and the properties at them.
--
-- Identifiers (`Uuid`) are numbers, of which only equality is used; a fresh identifier and the time
-- of the clock are arguments. A `HashMap` is the list of its entries, and the order in which it is
-- read is a parameter (`HashOrder`) of which only the permutation is known. A panic, such as the
-- decrement of a zero in-degree, and fuel that runs out are the value `none`. The loops over a queue
-- get one more than the number of keys as fuel, which is enough since every node enters the queue
-- once.
--
-- What the engine calls and does not define is a parameter: the executors and their registry, the
-- capacity of a channel and the clock (`Env`), the masks by regular expressions, and the text of a
-- JSON value. The events that executors emit themselves, and their panics, are left out. `FlowError`
-- carries the error itself, not its text. The tasks of a step run in the order in which they are
-- spawned, and a task that waits for a channel that nothing will fill, empty or close is the value
-- `blocked`. The cancel flag is read at the start of a step: the abort of the tasks of a step is not
-- modelled, nor are WASM plugins, the tables of users and connections, and most of the native nodes.
-- The networks of the crate ipnet and the parsers of addresses are the record `NetLib`; trimming,
-- splitting at commas and formatting of texts are the record `TextLib`. A semaphore is the number of
-- its permits. The loop of `split_by_fixed` gets one more than the length of the text as fuel, since
-- a valid configuration moves its start forward in every turn. The search below a trigger gets one
-- more than the number of edges: a node enters the queue with an edge that leads to it for the first
-- time. A row of a table is a record, and a table the list of its rows. The f64 arithmetic of a
-- token bucket is taken to be exact, with a window of at least one second. The cipher, the hash and
-- the order of SQL are parameters; a nonce, and whether the database fails a query, are arguments.
-- The middleware leaves the user of a request to its handler, and what a handler answers is the
-- value that its JSON is made of. Of a database table the migrations have the columns, not types,
-- keys and references. Ports and the HTTP client are left out.
pub mod Base
pub mod Json
pub mod Error
pub mod Node
pub mod Message
pub mod Flow
pub mod Kahn
pub mod Scheduler
pub mod Engine
pub mod Net
pub mod Egress
pub mod ClientIp
pub mod HookLimits
pub mod JsonPath
pub mod TextSplitter
pub mod StringMap
pub mod Nodes
pub mod Api
pub mod RateLimit
pub mod Storage
pub mod Tests
