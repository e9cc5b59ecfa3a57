-- ===== src/Lib.antt =====
-- Daemon-Go: a daemon that guards the projects of one machine. It starts a project that is down,
-- gives up after a number of failed starts, records what happened, is operated from a local web
-- console, and is itself watched by a second instance.
--
-- The parts and their files:
-- - Os, with Scan, Files and Oracle: what the sources use of the standard library's files,
--   commands, probes and clock. A `Disk` is the files, what may be opened for reading or writing and
--   what may be renamed; a `World` has a clock, the disk and the commands that were started, and
--   answers its n-th call as it likes, so every theorem holds whatever scripts, netstat, tasklist,
--   wmic and sc answer.
-- - Config (internal/config/config.go): the records, `applyDefaults`, the service names; Config/Files
--   is Load, Save, SaveState and LoadState.
-- - Events (internal/logger/event.go): `EventStore` with load, Add, persistLocked, rewriteLocked,
--   persistedCount, Recent and All.
-- - Logger (internal/logger/logger.go): the buffer of log lines and LoadAllRecentEvents; Rotate is
--   rotateWriter, whose `roll_loop` takes 999 rounds of fuel, as many as the source's loop, and Clean
--   its cleanOld; Create is New, and Output what is logged through the writers of New, and Close.
-- - Actions (internal/actions/actions.go): Split is splitCommand, Allowed is isCommandAllowed and
--   RunCommandAction, Kill the three kill actions, Registry the dispatch, Scripts RunStartScript,
--   StopProject, CheckPort and CheckProcess.
-- - Guardian (internal/project/guardian.go, internal/project/pid.go): a `Scene` is a guardian with
--   the world and the event store that it shares. Probe is isAlive, waitForStartup and findPid;
--   Start is startProject, stopProject and the manual operations; Tick is one round of the loop,
--   and Status; Run is any sequence of operations, each carried out whole. Race takes the same methods
--   apart: a thread is a place in the code (`Place`), a move (`Move`) goes from one access of a shared
--   field to the next, `failCount++` being a load and a store, and the loop's thread and those of the
--   callers move in any order. ReachPaused and ReachUnstarted are the runs on which nobody calls for a
--   start by hand.
-- - Manager (internal/project/manager.go): the guardians by name, and the calls for one or for all;
--   Stop is Manager.Stop with the guardians' own.
-- - Auth (internal/auth/token.go): the token of the console.
-- - Watcher (internal/watcher/watcher.go): the watch over the peer instance; Quiet has
--   NewPeerWatcher, Start and the loop.
-- - Web (internal/web/server.go): Dto is the configuration that the console reads and sends, Server
--   the handlers, Server/Save that of the configuration, Server/Routes the guards and routes.
-- - Service (internal/service/service.go): serviceHandler.Execute as the trace of what it does
--   itself, which only begins the goroutines of the daemon's start and stop; Control is InstallService,
--   UninstallService, StartService, StopService and QueryServiceStatus, Command is
--   DaemonService.Run. Packages mgr, eventlog and svc of golang.org/x/sys are the parameters
--   `ServiceApi` and `ServiceHost`; Control/Database has the registered services as a `Database` and
--   the laws that the code relies on, and the commands are proved to be operations on it.
-- - Main (cmd/daemon/main.go): the configuration of an instance and daemonHandler.Start; Flags is
--   flag.Parse for its one flag, Boot is main, Stop is the goroutine that daemonHandler.Stop begins and
--   nothing waits for, cut off after any number of its parts, Console the ticks of the guardians
--   and the requests to the console in any order.
-- - Tests: concrete inputs, and the theorems applied to them.
--
-- How they interact: the console's handlers call the manager, the manager runs a guardian's
-- operation on the scene of that guardian, a guardian runs the configured actions through the
-- registry, and all of them add to one event store, whose file is on the disk of the world.
--
-- Conventions: a text is the list of its code points, a Go `int` an integer whose products and
-- increments wrap at 64 bits, a map an association list, an error its message in an `Option`. The
-- clock counts nanoseconds. waitForStartup is a loop on fuel, `wait_fuel`, one round for each two
-- seconds of the timeout and one more.
--
-- Outside the model: what the other parts log; package yaml.v3, and encoding/json for events,
-- which are the parameters `Yaml` and `Json` with their round trips as laws; packages filepath,
-- regexp and net and the bytes of crypto/rand, which are parameters; file access is all or
-- nothing, and directories exist. The event store, the manager's map and the world have no
-- interleavings of their own: in Race only the fields of one guardian are shared. How
-- long a loop, a request or the watcher takes to end is an argument where Stop waits for it. Not
-- modelled: logrus, whose formatted entries are arguments, and what a writer given to NewWithWriter
-- gets (internal/logger/logger.go), the messages on the error output, Start of the HTTP server
-- (internal/web/server.go), and the attributes of internal/actions/exec_windows.go.
pub mod Prelude
pub mod Os
pub mod Config
pub mod Events
pub mod Actions
pub mod Guardian
pub mod Manager
pub mod Auth
pub mod Logger
pub mod Watcher
pub mod Web
pub mod Service
pub mod Main
pub mod Tests
