-- ===== src/Lib.antt =====
-- The InEngine.NET server runs commands from a schedule and from a queue, with commands that
-- plugins provide as WebAssembly components. This library models its queue, what runs around a
-- command, and the memory budget of its plugins.
--
-- Std/*, Prelude/*: Rust's standard library and number types as far as the program uses them:
--   UTF-8 checks, lossy decoding, sorting, `Result`, 64-bit and 32-bit arithmetic.
-- Error, Error/Chain: inengine-core/src/error.rs.
-- Config/*: inengine-core/src/config. `Validate` is validate.rs with the queue name of
--   constraints.rs and the keywords of vocabulary.rs, `Lower` the two conversions of runtime.rs.
--   A report is its issues.
-- Queue/Types, Queue/Api: inengine-core/src/queue/mod.rs. A queue works on one of two drivers;
--   a driver is a record of operations on a state. `with_receipt` is the match that the settles
--   share.
-- Queue/Envelope, Queue/Compression: inengine-core/src/queue/envelope.rs and compression.rs.
-- Queue/Registry: inengine-core/src/queue/registry.rs.
-- Queue/Delivery, Queue/Processing/*: inengine-core/src/queue/delivery.rs and processing.rs.
-- FileQueue/*: inengine-core/src/queue/driver/file. `Names` and `Dir` are dir.rs, `Store`,
--   `Claim`, `Settle`, `Bulk` and `Peek` are store.rs. A function is a tree of its file system
--   calls (`Prog`): `run` answers them from a disk (`Disk`), and `Always` lets any call fail and
--   looks at the disk between any two calls, so a crash of the process is covered. `Lookup` and
--   `Frame` say what each call leaves alone, `Logic` how `Always` passes through a program.
--   `Driver` is mod.rs, on a pool of blocking threads and a clock that are parameters (`Pool`).
--   `Fifo/*` reads the directories of an undisturbed disk as the stages of `Queue/Spec`, by the
--   order of their names.
-- Queue/Spec: what a lane promises, as three lists of texts.
-- RedisQueue/*: inengine-core/src/queue/driver/redis. `Scripts` is scripts.rs and `Driver`
--   mod.rs, on a server and a connection that are parameters (`Server`), with the documented
--   behaviour of the Redis commands as laws (`IsRedis`). Positions count from the right end, as
--   the negative ones of LRANGE do. `Represents` reads the lists of the server as the stages of
--   `Queue/Spec`.
-- Command/*: inengine-core/src/command.rs. A blocking task is how long it runs
--   and what it gives.
-- Exec/Pipe/*: inengine-core/src/commands/exec/pipe.rs. `Exec/Process` has its poll and take.
-- Exec/Process, Exec/Wait/*, Exec/Run/*: inengine-core/src/commands/exec/mod.rs on an
--   operating system that is a parameter (`Os`): `IsClock` says that time passes, `IsChild` what
--   kills and reaps a child.
-- Server/Consumers/*, Server/Lifecycle/*: inengine-core/src/server/consumers.rs and
--   lifecycle.rs. What a consumer sees of the token is its answers by the round (`Token`).
-- Commands: the Command trait of command.rs, and inengine-core/src/commands/chain.rs and
--   echo.rs.
-- Scheduling/*: inengine-core/src/scheduling/schedule.rs and scheduler.rs; the cron crate, the
--   clock and the cancellation are parameters, and a job is followed round by round.
-- QueueAdmin/Management/*, QueueAdmin/Publishing, QueueAdmin/Messaging/*:
--   inengine-core/src/queue_admin: management.rs, and the `Publish` and the `Consume` of
--   messaging.rs, the latter on an opened queue.
-- Plugin/Subcommand: inengine/src/plugins.rs.
-- Output/*: inengine-core/src/output.rs.
-- Plugin/Limiter/*: inengine-core/src/plugin/limiter.rs, and the calls that the WebAssembly
--   engine makes of it (`Host`).
-- Plugin/LoadError, Plugin/Loader/*: inengine-core/src/plugin/load_error.rs and loader.rs. The
--   engine and the file system are a parameter (`Loader.Host`), and so is what makes a command.
--   `Components` says which entries of a directory are components.
-- Plugin/WasmCommand/*: inengine-core/src/plugin/wasm_command.rs and the store of runtime.rs.
--   The engine's part of a call is its epochs in order, with the token and the time at each, and
--   its end.
--
-- Bounds: a `usize` is a number below 2 ^ 64 and a `u32` one below 2 ^ 32, with the
-- wrap-around or the saturation of the source written out. The settle loop of a consumer, its
-- dequeue loop and its opening run on fuel; their theorems say how much is enough. The Redis
-- driver's dequeue and its bulk moves run on fuel too, and their theorems ask for one round
-- more than there are messages to move; the exec command's wait needs a round for each 10 ms
-- up to its limit, and the file driver's dequeue one for each second of its wait. Decimal
-- numbers have 20 digits at most, the width of a `u64`.
--
-- Parameters: serde_json on envelopes (`Json`), gzip and base64 (`Codecs`), the names that
-- uuid makes (`name_of`; that each is after the one before is `IsNaming`), the Redis server
-- and its connection (`Server`), the operating system (`Os`) and the last instant of its
-- clock, the commands and what running one does (`Run`), the terminal codes (`Terminal`), the
-- HTTP, mail and output file calls of the lifecycle (`World`), the pool of blocking threads
-- (`Pool`), the cron crate's parser and schedules, and the WebAssembly engine (`Host`).
--
-- Not modelled: recovery by the file driver as a move of its lists, the server's host and
-- notifications, which call HTTP, SMTP and signal libraries, the opening of a Redis
-- connection, how the tasks of the scheduler and of several consumers interleave, the start of
-- the WebAssembly engine, the tables of the configuration that its library derives from
-- declarations, the command line's arguments and its main function, and the logging.
mod Prelude
pub mod Error
pub mod Config
pub mod Std
pub mod Queue
pub mod FileQueue
pub mod RedisQueue
pub mod Plugin
pub mod Exec
pub mod Server
pub mod QueueAdmin
pub mod Output
pub mod Command
pub mod Commands
pub mod Scheduling
