-- ===== src/Lib.antt =====
-- ClawMast keeps an OpenClaw gateway recoverable. A supervisor (cmd/clawmastd) spawns a worker
-- (cmd/clawmast), restarts it with a backoff, observes a freshly installed version, and rolls back to
-- the previous one. The worker polls the gateway, heals it, serves an HTTP API, and installs new versions
-- of itself. The two share files: the version links, the marker of an install, the blacklist and the
-- ledger; and the worker sends notify datagrams to the supervisor.
--
-- The parts, and the file that models each:
--
-- - Supervisor/Backoff: internal/supervisor/backoff.go. `delay` is BackoffPolicy.Delay, with int64 as
--   bit patterns modulo 2^64 and the random draw as an argument; `record_crash` is RecordCrash.
-- - Supervisor/HealthGate: healthgate.go, one function per method. A run is a list of events.
-- - Supervisor/ExitCode: exitcode.go.
-- - Supervisor/Symlinks: symlinks.go. The links are a record of targets; a record of faults says which
--   system call fails.
-- - Supervisor/State, Supervisor/Rollback: supervisor.go and prepareGate of loop.go. `Supervisor` is
--   what the loop owns, on disk and in memory; `rollback`, `check_blacklist` and
--   `rollback_for_install_health` are the methods of those names.
-- - Supervisor/Session: runOneSpawn and classifyOutcome of loop.go. One event is what one round of
--   the select receives, so that any order of events is a list; a timer is the instant at which it
--   fires.
-- - Supervisor/Loop: loop of loop.go. One turn takes a script of what the environment does in it.
-- - Blacklist: internal/blacklist/blacklist.go, which the loop reads, and which the rollbacks and the
--   worker's handlers write.
-- - SelfUpdate/Marker and SelfUpdate/Rotate: internal/selfupdate/marker.go and rotate_unix.go. The
--   worker writes the marker and rotates the links; the loop reads the one and swaps the other.
-- - SelfUpdate/Download and SelfUpdate/Install: internal/selfupdate/download_unix.go and
--   install_unix.go. `apply` is Apply; the root is a record of links, marker and version directories.
-- - Updater/Manifest and Updater/Client: internal/updater/manifest.go and client.go.
-- - Openclaw/Phase, Openclaw/ActionLog, Openclaw/Poller: internal/openclaw/phase.go, autoheal.go,
--   snapshot.go, actionlog.go and poller.go. `probe_now` is what ProbeNow does with the result of the
--   probe, which is its argument.
-- - Openclaw/Cascade: action.go and cascade.go. `run_action` and `cascade` keep the events sent on the
--   channel beside the manager's state.
-- - Openclaw/Gateway: gateway_addr.go and resolveOnce, the address of the gateway and its cache.
-- - Openclaw/Probe: status.go. `probe` is one probe of the gateway, and `poll` the whole of ProbeNow:
--   the resolver, the probe and then the poller's bookkeeping.
-- - Openclaw/Discover: discover.go and resolveRunner, where the CLI is found on a Unix system.
-- - Openclaw/Exec: exec.go, what the end of the CLI's process is taken to mean.
-- - Agent: internal/agent, the HTTP API. Each handler is a function of what it reads to the reply and
--   the state that it leaves. Server is server.go, Channel channel.go, Access auth.go and
--   publicHandler, Settings handlers_channel.go, Blocking blacklist.go (over the module Blacklist, with
--   the exit of runWorker), Updates the update handlers of handlers.go (over Updater and SelfUpdate)
--   and the background check, Actions handlers_openclaw.go (over Openclaw/Cascade).
-- - Agent/Boot: cmd/clawmast/run.go, what the worker takes from its environment.
-- - Ledger: internal/supervisor/history.go, internal/history/history.go and handleHistory. The file is a
--   list of bytes, so that a write that stops half-way can be told.
-- - Notify: internal/sdnotify and parseNotifyFrame of internal/supervisor/notify.go, the two ends of the
--   notify protocol.
-- - Strings: the functions of Go's package strings that these files call.
-- - Release: cmd/clawmast-release. Build is buildOne and writeTarGz of build.go, Matrix runBuild, and
--   Describe manifest.go. What is packed is what SelfUpdate/Download unpacks, and the manifest is what
--   Updater/Manifest reads.
-- - Json: encoding/json as a parameter, a codec whose decoder inverts its encoder.
-- - Prelude: the names that the modules share, and instants as nanoseconds since Go's zero time.
--
-- Instants and durations are natural numbers, without the monotonic reading of a Go clock. A loop over
-- events, lines or turns is recursion on their list, so there is no fuel. Failures of system calls are
-- Boolean fields of a record of faults, and what a process, an endpoint or a client does is an argument.
--
-- Not modelled: processes, sockets and signals, the goroutines and their locks (each critical
-- section is one step), the 4096-byte buffer and the dropped datagrams of the notify listener, the
-- routes and files of the web UI, HTTP headers and request timeouts, the texts of notes and log
-- lines, the subcommands of the command line (cmd/clawmast/cmd_*.go), the supervisor's
-- configuration, and the signing of a release (cmd/clawmast-release/main.go). They are I/O or glue
-- around the parts above.
pub mod Prelude
pub mod Strings
pub mod Agent
pub mod Json
pub mod Blacklist
pub mod SelfUpdate
pub mod Supervisor
pub mod Ledger
pub mod Notify
pub mod Openclaw
pub mod Updater
pub mod Release
