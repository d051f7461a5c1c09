-- ===== src/Lib.antt =====
-- Pazuzu keeps one private OpenSSH master to a login host alive and runs commands, transfers and
-- shells over it. This library models its Python package.
--
-- Parts and how they interact. The gateway's supervisor (src/pazuzu/supervisor.py) owns the master:
-- its methods connect, probe, repair and replace it, and run each remote command in a session for
-- which a slot is taken first. The slots are files with exclusive locks (src/pazuzu/lease.py), which
-- the gateway's operations, its health probes and the persistent bridges of other processes divide.
-- Transfers (src/pazuzu/transfer.py) run scp or rsync over the same master, and a transport
-- (src/pazuzu/transport.py) starts, stops and probes it by subprocesses (src/pazuzu/process.py).
-- A gateway (src/pazuzu/gateway.py) serves the supervisor's methods to local clients over a socket;
-- src/pazuzu/client.py builds Slurm jobs and scripts on such calls, and src/pazuzu/shell.py keeps an
-- interactive tmux session attached. The command line (src/pazuzu/cli.py) and the tools of an MCP
-- adapter (src/pazuzu/mcp_server.py) are such clients, and launchd agents (src/pazuzu/launchd.py) run
-- the command line.
--
-- Correspondence of files:
--   Base, Exec         numbers, texts and lists of the model; Exec is the monad of a method: a state,
--                      and an exception or a value, with `try`, `finally` and `if ... raise`
--   Errors             src/pazuzu/errors.py, and the built-in exceptions that the program uses
--   Process            src/pazuzu/process.py: `ProcessResult`, `_read_bounded`; Process/Running has
--                      `run_process`, `stop_process` and transfer.py's `run_transfer`, and
--                      Process/Feeding `_feed_stdin`
--   Lease              src/pazuzu/lease.py: `SessionLease`, `SessionLeasePool`, `SessionBudget`
--   Settings           src/pazuzu/transport.py: `SshSettings`, `SshAttachment`
--   Settings/Descriptor  the JSON form of an attachment, `as_dict` and `from_dict`, over Json
--   Transport          src/pazuzu/transport.py: `OpenSshTransport`, of which Transport/Probing has the
--                      checks, the probes and the waiting, Transport/Mastering stopping and
--                      Transport/Startup starting, Transport/Bridge the bridge commands and
--                      Transport/Bridging `run_bridge`
--   Slurm              src/pazuzu/slurm.py: jobs and their checks; Slurm/Script renders a batch script,
--                      Slurm/Parsing reads what sbatch, squeue and sacct print
--   Transfer           src/pazuzu/transfer.py: the arguments of scp and rsync
--   Shlex              `shlex.quote` and `shlex.join` as the standard library documents them
--   Supervisor         src/pazuzu/supervisor.py: the attributes of `OpenSshSupervisor` and its pure
--                      functions; Supervisor/Machine the calls it makes, Supervisor/Repair
--                      connecting and repairing, Supervisor/Operations the public methods that work
--                      in sessions with `_SessionSlots`, Supervisor/Maintenance the maintenance
--                      loop, `start`, `close` and `detach`, Supervisor/Tasks all public methods
--   Gateway            src/pazuzu/gateway.py: messages; Gateway/Dispatch turns requests into methods of
--                      the supervisor, Gateway/Server handles clients, starts and stops, and
--                      Gateway/Calls is `call_gateway` and `execute_via_gateway`, Gateway/Paths
--                      the default paths
--   Client             src/pazuzu/client.py: `PazuzuClient`
--   Shell              src/pazuzu/shell.py: names, commands and the reporter; Shell/Loop has `run_shell`
--                      and Shell/Attached `run_attached_ssh`
--   Launchd            src/pazuzu/launchd.py: the agents, their arguments and their statuses;
--                      Launchd/Services installs and removes them, and Launchd/Files has the
--                      property lists and their files, which the former take as parameters
--   Cli                src/pazuzu/cli.py: a namespace of argparse; Cli/Parser is the table of arguments,
--                      Cli/Commands the operations, and Cli/Main `_run` and `main`
--   McpServer          src/pazuzu/mcp_server.py: the tools, the health route and `main`
--   Json, Base64       the values of `json` and the strict decoding of `base64`
--   Examples           runs at concrete inputs
--
-- Names are those of the source, less a leading underscore. Times are natural numbers of milliseconds,
-- and texts are lists of character codes. A method of the supervisor is a function of a `Machine`:
-- the supervisor, the rest of the world, and the calls made so far. What is outside of the module
-- (the transport, the slot pool, asyncio, the clock) is a field of the parameter `Env`, so the
-- theorems hold for any such world. Other tasks of the event loop run where a method awaits, so an
-- awaited call also returns the supervisor as other tasks left it: a theorem that needs them to keep
-- a property says so by a hypothesis on `Env`. Every interleaving of the atomic stretches between two
-- awaits is such a run.
--
-- Bounds: no number has a width, since Python's have none. `start_attempts` recurs on the attempts that
-- are left, and `maintain` on a number of rounds that its caller chooses, as the loop of the source
-- ends only when it is cancelled. `acquire` runs over a list of polling rounds, each with the locks
-- and the clock that it sees, and says whether it still waits after the last one. `wait_until_ready` takes
-- a number of rounds, each of which sleeps a tenth of a second.
--
-- The loops of `run_shell`, `run_bridge` and `_wait_until_unloaded` run for a number of rounds too, and say
-- when they still go on; their theorems hold for any number, or say which number is enough.
--
-- Locks: a slot file is held or free, and the list of held files stands for the kernel's `flock` table.
--
-- Not modelled: the sockets and files themselves, `plistlib` and launchctl, the parsing of a command
-- line by argparse, the mcp package, and signal handlers but those of `_serve`. Making the parser and
-- parsing may raise, and do so outside of the `try` of `main`. The fields of a command's result have
-- the types that the gateway sends; a result of other types, which the client would keep, is an error
-- here. JSON numbers are integers, or thousandths for floats.
pub mod Base
pub mod Errors
pub mod Exec
pub mod Process
pub mod Lease
pub mod Shlex
pub mod Json
pub mod Base64
pub mod Settings
pub mod Transfer
pub mod Slurm
pub mod Supervisor
pub mod Transport
pub mod Gateway
pub mod Client
pub mod Shell
pub mod Launchd
pub mod Cli
pub mod McpServer
pub mod Examples
