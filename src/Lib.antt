-- ===== src/Lib.antt =====
-- The playback core of Transonic, a music player: the queue and the playback controller of
-- src-tauri/src/playback/controller.rs, the shared playback of src-tauri/src/connect.rs, and the reporting
-- to the media server of src-tauri/src/playback/server_reporting.rs, with the data of src-tauri/src/models
-- that they use.
--
-- The controller keeps the queue, the current entry, the "play next" region behind it and the state of
-- playback. It drives a native backend through a trait, answers the events of that backend, prepares the
-- next track for gapless playback, and recovers a lost output stream by timed reloads. Each queue change
-- raises a revision and records an index map, which tells clients where each old entry went.
--
-- Prelude holds the names that all modules share: Boolean tests, lists over the native numbers, and the
-- arithmetic of machine words. Result is `Result<T, String>`. Text has the operations on strings that the
-- code takes from the standard library. Models has the data of src-tauri/src/models/playback.rs and of the
-- other models; of a song it has the fields that the controller reads.
--
-- Queue is the arithmetic on indices. Queue/Indices models `sorted_queue_indices`; Queue/IndexMap models
-- `moved_queue_index_map`, `removed_queue_index_map`, `apply_queue_index_map` and `mapped_queue_index`,
-- loops by structural recursion on the number of entries left; Queue/PlayNext models
-- `play_next_start_index` to `adjusted_play_next_queue_len_for_current_change`. Their children describe
-- them by segments of the queue.
--
-- Controller is `PlaybackController`. State has its record, and `Env`: the boxed traits of the backend, the
-- reporters, the queue gateway, the event source and the persister, the clock, and the task that polls
-- again later, all on a world of any type. Exec is the monad of its methods: a failing method keeps what it
-- wrote, as `&mut self` does. The methods stand, under their names in the source, in Status (reports,
-- positions, errors), Stream (requests), Gapless, Load, Events (native events and recovery), QueueOps,
-- Removal, Transport, Settings and Shared (the state shared by Connect); long methods are cut into helpers.
-- Operations lists the public methods, and the states that a program reaches with them while the world
-- does anything at all. No loop needs fuel: events are drained as a list and applied one by one.
--
-- Controller/Exec/Keeps and From have the rules for what a method keeps or establishes, Controller/Exec/World
-- and Controller/World what it keeps of the outside world, Controller/Frame
-- the methods that write none of the queue's fields, and Controller/Invariant the coherence of the queue
-- for each method. Controller/Untouched does
-- the same for operations that write no queue. Controller/CurrentEntry,
-- Controller/Restore and Controller/Redaction are about moves and the validation of an index, stored
-- queues, and the URLs that are logged. Tests
-- applies the theorems to concrete queues and to a run of the controller.
--
-- Connect shares the playback of several devices through a server. Connect/State has the data, and the
-- state behind the lock of `ConnectRuntime`; Gate the queue gate, which keeps the server and the local
-- queue apart while a conflict is unresolved; Runtime and Outbound the methods of the runtime. Link makes
-- the runtime a part of the world of the controller: `ConnectPlaybackReporter` is one of its reporters, so
-- each report of the controller may become a message. Incoming has `handle_incoming_message`,
-- `resolve_queue` and the end of a run of `run_connect_loop`, on the controller and the runtime together;
-- Messages the envelopes that go out, and Session the plan of a run, the turns of the loop of
-- `run_connect_once` as a list of what `select!` yields, and restarts. Echoes is about the application of
-- a shared state to the controller.
-- Urls has the URLs of the server; `Url` of the crate url is a parameter. Methods lists the methods that
-- write the runtime, with its children GateMachine and Sequence about their runs; Held, Pushes, Generations
-- and FirstSnapshot are about the gate, pushes, the generations of connections, and the first snapshot. A connection is a number, and a message that is sent is one of a list.
--
-- Reporting is the thread that the controller's `PlaybackServerReporter` sends its reports to. Sessions has
-- the two kinds of session, and Worker a turn of the loop, which takes what `recv_timeout` returns and
-- what the clock shows, in nanoseconds, at each place of the turn that reads it, and returns the requests
-- to the server. Clock says that the clock does not run back and how far apart two readings may be;
-- Scrobbles, PlayedTime and Heartbeats are about runs of the loop.
--
-- Machine words: a position, an index and a revision are natural numbers; additions of the source that
-- saturate, wrap or are checked are written out with their width. Queues of more than `usize::MAX`
-- entries are no queues of the program, so a run never operates on one. The numbers in the map that the
-- code keeps as `i32` stand for themselves, with `none` for -1.
--
-- Not modelled: the volume (a floating-point number that only goes to the backend), logging, threads (the
-- program holds the controller under a lock), the requests and the parsing of
-- src-tauri/crates/opensubsonic-client (the client is a function from a request to a result), the native
-- backends, the login request and the JSON texts of Connect, sessions, profiles, caches, files and the
-- commands of the window.

pub mod Prelude
pub mod Result
pub mod Text
pub mod Models
pub mod Queue
pub mod Controller
pub mod Connect
pub mod Reporting
pub mod Tests
