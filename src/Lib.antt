-- ===== src/Lib.antt =====
-- edfsm: event driven finite state machines, the tasks that run them, a store of them, and the macro
-- that generates them.
--
-- The program's parts, and the files that model them:
-- - edfsm/src/lib.rs: the trait `Fsm` with `step`, and `Init`, `Terminating`, `Drain`. Fsm: a machine
--   is a record of its three methods, `step` a function of it, `replay` the fold of `on_event`.
--   Fsm/Step is about any machine. Fsm/Started: the machine in the file's test module, whose counters
--   are `u32`.
-- - edfsm-machine/src: a machine is run as a task that takes inputs from a channel, logs the events
--   and sends the outputs. Machine/Action: `error.rs`, and code with `?` as state passing.
--   Machine/Adapter: `adapter.rs`, adapters and feeds, and the `Hydrator` of `lib.rs`; Laws and Fanout
--   are about them, Streambed is `adapt_streambed`. Machine/Output: `output.rs`. Machine/Task: `lib.rs`,
--   the `Template`, its builders and `task`; Durable is about the log and the state, Trace about whole
--   runs, Crash about errors, Restart about tasks that are started again. Interface is the trait
--   `Machine`, Build what its methods connect.
--   Machine/Schedule: the main loop of `task` as moves, between which the senders of its channel send,
--   are cloned and are dropped; Follows, Moves, Bounds and Returns are about every order of these,
--   Whole puts the first part of the task in front.
--   Machine/Queue is that channel, by what it is relied on for, and Queue/Line one that can be run.
-- - edfsm-kv-store/src: a store of inner machines by path, itself a machine. KvStore/KeyPath:
--   `path.rs`, where `KeyPath` stands for `Path`, with its conversions and its serde derives (Serde).
--   KvStore/Map: the standard library's ordered map.
--   KvStore/Store: `lib.rs`, the queries and events, `Keyed` and its traits; its children are about
--   single paths (Slots), the order of events (Interleaving), steps (Inner), the log (Quiet),
--   `GetTree` (Tree), queries (Commands), and outputs by path (Outputs, and Family for whole runs).
--   KvStore/Requester: `async_query.rs`; Answered is about any task that serves the requests, Served
--   about a round of the main loop that does, with Many for the other requests and Atomic for a client
--   that makes one after another; Queries and Concurrent about clients that act between the moves of
--   the task.
--   KvStore/Durable and KvStore/Sent: the store run by the task, what it rebuilds from its log and
--   what it sends.
-- - edfsm-macros/src: the attribute `impl_fsm`. Macros/Syntax and Macros/Parse: `parse.rs`, the
--   description and its parsers. Macros/Expand: `expand.rs`, and the arms that are generated
--   (Arm). Macros/Expand/Run: what the generated `match` expressions do when they run; Table, EventTable,
--   EntryTable and ChangeTable compare the three methods with the description, Described joins them;
--   WellFormed, Accepted, Landing and Reading are about which descriptions expand. Macros/Parse/Decl and
--   Parse/Block are about whole blocks in the forms of the documentation, Parse/Accepted, with
--   Types and MacroItems, about which blocks the parser accepts. Macros/Entry: `lib.rs`, the
--   attribute itself; Entry/EndToEnd goes from the items of any block to what the generated code
--   does, Entry/Written from the written declarations, Entry/Valid and Entry/Exercise do
--   so for the machines of edfsm/tests, simple_valid_imp_fsm.rs and exercise_fsm.rs. The files named
--   NoPanic are about panics, Parse/Targeted is about the target states that the parser gives.
-- The files named Tests hold the machines of the repository's tests, and the lemmas' uses at them;
-- those named Script are test functions of the source as programs, or what goes in and out in them.
-- Macros/Parse/Tokens, Macros/Parse/Sample, Macros/Expand/Sample and Machine/Task/Counter hold what
-- several of them share.
-- Prelude holds the library names, lists over native numbers, orders and lexicographic order.
--
-- How the code is put down:
-- - `&mut` parameters are passed in and returned: `step` returns the event, the state and the
--   effector. What a responder or an adapter can reach is a world, a type parameter.
-- - `Result<()>` with `?` is a function from a state to a result beside the state that is left, an
--   error included. A panic of a query is `none` in `for_command`, and `panicked` in `Env`;
--   a run behind it is none of the code.
-- - In Machine/Task an `async` task is the sequential code of its body. What other tasks do at its
--   awaits shows in the inputs that the channel delivers and in how the world answers. Machine/Schedule
--   puts the senders of the input channel beside the task; other tasks touch nothing else of it.
-- - Trait implementations of adapters and feeds are constructors, since `merge` looks at them.
-- - The channels of tokio, the log of streambed, the parsers of syn (for what it reads in a block, and
--   for the items that the expansion quotes), the lower-casing of
--   names and the handlers that the developer writes are parameters, with what is relied on as
--   hypotheses.
-- - Three loops have fuel. For the target states in Macros/Parse the size of the stream and one more
--   is enough, since each round takes a type off the stream. For the history in Machine/Adapter/Streambed
--   one more than its items is enough. The moves of Machine/Schedule are counted: three for each
--   message that is queued and three more. All others are structural.
-- - Names in paths are a type with an order; a `u64` in a path is a natural number, whose bound is
--   written out where a path is read or written by serde. A `u32` wraps.
--
-- Not modelled: serde of `Keyed`, printing and hashing; tokens, spans and the texts of errors; an
-- adapter that stalls, since an action of an adapter always comes back; a channel without a buffer,
-- which tokio refuses; what a `match` that does not cover every case would do, which does not compile
-- (the tables then stand for no reaction); the assertion of the tests' command `Assert`; what tasks
-- at the far ends of output channels do; the runtime that polls the tasks, and their being cancelled.
pub mod Prelude
pub mod Fsm
pub mod Machine
pub mod KvStore
pub mod Macros
