-- ===== src/Lib.antt =====
-- python_tty: a model of the command runtime of this repository, and what it guarantees.
--
-- The program runs commands of terminal consoles, sessions and remote callers. A front end makes an
-- invocation and submits it to the command executor, which registers a run in the job store, queues
-- a work item, runs the handler in one of its workers (or inline, where no event loop runs), writes
-- the outcome into the run's state, publishes events to the run's subscribers, resolves the future
-- that waiters hold and keeps an audit trail.
--
-- Models and Config are the data of src/python_tty/executor/models.py, exceptions/console_exception.py
-- and config/config.py. Under src/python_tty again:
--   Runtime.Events, Runtime.Context   runtime/events.py, runtime/context.py
--   Runtime.EventBus                  runtime/event_bus.py (RunEventBus)
--   Runtime.Jobs and its Listing, Lifecycle, Publishing and Cleanup   runtime/jobs.py (JobStore)
--   Audit                             audit/sink.py (AuditSink)
--   Executor and its Running, Items, Waiting, Submission   executor/executor.py (CommandExecutor)
--   Executor.Contexts                 executor/execution.py (ExecutionContext.to_invocation)
--   Session                           session/store.py, models.py, policy.py
--   Session.Admission, .Submission, .Trimming, .Waiting   session/manager.py (SessionManager)
--   CommandIds, Commands              commands/registry.py, commands/core.py, executor/execution.py
--   Commands.Declaring                commands/registry.py, decorators.py, core.py, general.py
--   Commands.Styles, .Registering     commands/registry.py, decorators.py, mixins.py (run_help)
--   Consoles                          consoles/registry.py (ConsoleRegistry)
--   Rpc                               frontends/rpc/core.py (RuntimeService.Invoke)
--   Executor.Workers                  executor/executor.py (_worker_loop, as the workers interleave)
--   Streams, Rpc.Streaming            session/manager.py (stream_events), frontends/rpc/core.py
--   Streams.Callbacks                 session/callbacks.py (CallbackRegistry)
--   Runtime.Router, Runtime.Router.Sink   runtime/router.py, provider.py, sinks.py
--   Shell and its Turns and Notices   consoles/manager.py, consoles/core.py, runtime/events.py
--   Table and its Widths, Wrapping and Rendering   utils/table.py (Table)
--   Web                               frontends/web/core.py
--   Tokens                            utils/tokenize.py
--   Consoles.Tree                     consoles/registry.py (the tree, the map and their order)
--   Consoles.Declaring                consoles/decorators.py, loader.py
--   Rpc.Server                        frontends/rpc/server.py
--   Rpc.Lookup, Commands.Collecting   frontends/rpc/core.py (_resolve_command_def, with the registries)
--   Dispatch, Executor.Bindings       consoles/core.py (BaseConsole.execute), executor/execution.py
--   Meta                              meta/__init__.py
--   Factory and its Modes             console_factory.py (ConsoleFactory)
--   Testing and its Discovery, Harness and Running   testing/
-- The other modules hold the proofs about these, Examples the inputs on which the theorems are run,
-- and Prelude lists, dictionaries, heaps and tests that all share.
--
-- A class is a record of its fields and a method is a function from the state to the state and its
-- result, an error being `raised`. Objects that the program shares (run states, futures, cancel
-- flags, queues) live in heaps: the dictionaries hold addresses, as Python's hold references, so a
-- run state that was removed from the store can still be written by the worker that holds it. The
-- locks make each method of the store, the bus and the sink one step; a history is a list of steps
-- in the order in which the locks let them through. Threads appear as `World`, which says which
-- event loops run and which loop is the caller's.
--
-- Handlers, awaitables, thread pools and asyncio's waits are the application's and the standard
-- library's: they enter by the record `Handlers`, and a handler may change the executor in any way.
-- In a remote call a console's commands are a function of its name, which Rpc.Lookup gives from the
-- registries, and the peer's certificate a dictionary of texts. Times are natural numbers of milliseconds; a signed
-- configuration number is an integer. Nothing runs on fuel: every loop here is over a list. A wait
-- that does not end yet is the result `none`.
--
-- The event loop resumes a stream, a callback's task or the sink of events when it likes: each resumption
-- reads at most one event, and the theorems hold for every interleaving with publications. The workers
-- of the executor interleave as a step relation, with a lock per key; elsewhere a round of a worker is
-- one step, which that relation allows, since the worker holds the lock around the whole item. The user
-- and the commands of a console are the turns of the prompt loop. A text of a table is a list of the
-- codes of its characters, and the width of a text is a parameter with the law that the terminal library
-- documents: the sum over the characters.
--
-- A command line is a native text; shlex's splitting of it, Python's inspection of classes and methods,
-- and the digest of the metadata's JSON text are parameters. A binding of a command answers which
-- function is called with which arguments, since the call is the application's.
--
-- Not modelled: the terminal itself (prompts, completion trees, styles), which is prompt_toolkit's; the
-- messages of grpc and the routes of fastapi; JSON texts of audit records; the interception of an
-- executor's events by the test harness; the example consoles and the demonstration program.
pub mod Prelude
pub mod Models
pub mod Runtime
pub mod Config
pub mod Audit
pub mod Executor
pub mod Session
pub mod CommandIds
pub mod Consoles
pub mod Commands
pub mod Rpc
pub mod Table
pub mod Tokens
pub mod Meta
pub mod Testing
pub mod Factory
pub mod Dispatch
pub mod Shell
pub mod Streams
pub mod Web
pub mod Examples
