-- ===== src/Lib.antt =====
-- Model of the ML GridEngine executor (src/): the program that runs a user's program, keeps the end
-- of its output in memory, serves it to clients over HTTP, and ends the user's program on request.
--
-- Parts, and the files that model them:
--   * `OutputBuffer` (src/OutputBuffer.h, src/OutputBuffer.cpp). Ring models the circular buffer:
--     `_expandBuffer`, `_circularWrite`, `_overwrite` and `_circularRead` are `expand_buffer`,
--     `circular_write`, `overwrite` and `circular_read`. Readers models `ReaderList`: `add`,
--     `cancel`, `close` and `process`. OutputBuffer puts the two together: `write`, `_tryRead`,
--     `tryRead`, `read` and `close` are `write`, `try_read`, `try_read_at`, `read` and `close`. A call
--     is what it does while it holds the mutex; a read that waits is the step `read` before its
--     wait and one of `wake` and `time_out` after it, so that any calls may come in between.
--     OutputBuffer.System has the orders in which a writer and any number of readers may come, as the
--     paths of the relation `Step`, in which a wait may also time out when its request has just been
--     answered; what that does to the counters of the readers is in OutputBuffer.Race, so that the
--     invariant of these paths (`Holds`) says nothing of the counters, and `Represents` does.
--   * `ProgramExecutor` (src/ProgramExecutor.h, src/ProgramExecutor.cpp): `start`,
--     `_waitInBackground`, `wait`, `_killIfRunning` and `kill`. The turns of the thread that waits for
--     the process come before, during and after each wait (Turn).
--     Its child modules hold the child process between fork and exec (Child), and `kill()` with the times
--     from the environment and the destructor (Stop). Environ models the maps of variables.
--     ProgramExecutor.Threads has the orders in which that thread and any number of threads that call
--     `kill` may come, as the paths of a relation, in which only a wait with a timeout above 0 times out;
--     a handler that calls `kill` again within a call of
--     the same thread is not among them.
--   * `IOController` (src/IOController.h, src/IOController.cpp), in IoController: the thread that copies
--     the program's output into the buffer, by the results of its reads. IoController.Pipeline has it
--     among the readers of the buffer.
--   * The saving of the output (src/main.cpp, `runApp`), in SaveOutput.
--   * `BaseApp` (src/BaseApp.h, src/BaseApp.cpp), in Options: `defineOptions` is `entry_of`
--     (Options.Table), the handlers are `handle`, and `main` is `base_main`; the `main` of src/main.cpp is
--     `main`. Floats models the numbers of --buffer-size.
--   * `MainApp::runApp` (src/main.cpp), in App: `run_app`, composed of its phases, which App.Directories,
--     App.Program, App.Output and App.After define from the parts above. A phase ends with a value,
--     throws, faults, or never ends (App.Monad). A termination signal that comes while the program is
--     waited for runs its handler first (App.Program, `on_termination`). App.Windows has the handlers of
--     a whole run, and which of them a signal reaches.
--   * `PersistAndCallbackManager` (src/PersistAndCallbackManager.h,
--     src/PersistAndCallbackManager.cpp), in Callback: reports that are saved and posted, with retries;
--     Callback.Post has the request that `post` sends, and what it makes of the response.
--   * The HTTP handlers (src/WebServerFactory.h, src/WebServerFactory.cpp), in WebServer.
--   * `SignalHandler` (src/SignalHandler.h, src/SignalHandler.cpp), in Signals.
--   * `GeneratedFilesWatcher` (src/GeneratedFilesWatcher.h, src/GeneratedFilesWatcher.cpp), and the
--     handler that src/main.cpp gives it, in Watcher.
--   * `Utils` (src/Utils.cpp): `calculateDirSize` in DirSize, and `formatSize` in Sizes, with the line about
--     discarded bytes (src/main.cpp) that prints a size.
--   * `Logger` (src/Logger.h, src/Logger.cpp), in Loggers: the root logger and its scopes.
-- ReadResult and Result hold the results of calls, Memory the allocations and their faults, Base the
-- shared names, Tests the runs.
--
-- The environment: `malloc` is a function from a size to that many bytes. The pairing heap of Boost
-- is an interface (Heap) with the laws of a priority queue, which a list satisfies. The answers of
-- the operating system (pipe, fork, waitpid, the reads of a pipe, the files of a directory) are
-- arguments of the calls. JSON, the parsing of numbers, and what a server makes of a
-- request, or whether an attempt to post succeeds, are parameters.
--
-- Numbers: `size_t` is a natural number whose sums and differences are taken modulo 2 ^ 64 (Base.Words),
-- `ssize_t` a signed integer with the conversions written out (Base.Int). The histories are shorter
-- than 2 ^ 63 bytes; theorems that speak of the readers' counters ask for fewer than 2 ^ 60 requests. A
-- fault (an access outside an allocation, a
-- remainder by zero) is `none`, so that a theorem that gives a result excludes it.
--
-- Fuel: the loops of `process` and `close` take one more step than the heap has requests; the
-- theorems show that this is enough. The loop that saves the output takes one more step than bytes
-- were written, and the loop of `_postEvent` two more than there are retries.
--
-- In a run (App) the reports on generated files come from a thread of their own; what they do is kept
-- apart, and nothing is said of their order with the report of the start, which does not change what they
-- use of the manager. A status file that cannot be opened makes the reports on the status throw. `join`
-- returns when the reads have come to the end of the output or an error (`IoController.ends`); what they
-- give may depend on whether the program has ended or `kill` has closed the pipe (`output_over`), and the
-- theorems on whole runs ask for that end only then. A request to the poll handler has its further reads as turns, each with the buffer
-- that it finds.
--
-- Not modelled: the text of the log, but for that of the configuration (App.Configuration); the
-- timeout of an HTTP request of `post`; the start of the HTTP server and of Poco's directory watcher;
-- and the classes that only wrap a resource (src/AutoFreePtr.h, src/HTTPError.h). `wait` and
-- `interrupt` of the callback manager do nothing.
pub mod Base
pub mod Memory
pub mod Ring
pub mod ReadResult
pub mod Heap
pub mod Readers
pub mod Result
pub mod OutputBuffer
pub mod IoController
pub mod SaveOutput
pub mod Environ
pub mod Floats
pub mod Loggers
pub mod Sizes
pub mod Options
pub mod App
pub mod ProgramExecutor
pub mod Callback
pub mod WebServer
pub mod Signals
pub mod Watcher
pub mod DirSize
pub mod Tests
