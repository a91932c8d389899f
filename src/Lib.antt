-- ===== src/Lib.antt =====
-- jconfig: backups of Junos and RouterOS configurations into git, with Prometheus metrics.
--
-- The program's core is a table of devices (internal/runner). A scheduler picks the devices that
-- are due, a vendor's driver fetches each one's configuration, internal/device post-processes it,
-- internal/store commits it, and internal/metrics publishes what happened. A reload of the
-- configuration (internal/config) replaces the inventory while backups go on.
--
-- What models what:
--   Prelude    shared names, Boolean tests, lists, integers, instants, Go's maps (Prelude/Dict)
--   Strings    Go's strings as bytes, and the functions of strings, strconv, fmt and path/filepath
--              that the program calls
--   Config     internal/config/config.go: Types, Env (expandEnv, and Load from the file on),
--              Defaults (applyBuiltinDefaults, mergeDevice), Key (DecodeKey), Validate (validate,
--              its errors as data), Load (Load from the decoded document on);
--              internal/config/duration.go (Duration); internal/config/vendors.go (Vendors)
--   Device     internal/device/device.go: Result (Result, Error, Header, CommentBlock, Run) and
--              Sanitize
--   Metrics    internal/metrics/metrics.go: a vector is a map from label values to a value
--   Store      internal/store/git.go: Api (the record StoreApi of what the runner calls), Commit,
--              Git (what is asked of go-git), Auth (remoteAuth), Open (Open, createRepo,
--              ensureBranch), Remote (ensureRemote, Push), Ahead (Unpushed, countFrom, HeadCommit,
--              Dirty, and the StoreApi made of all of these)
--   Sshx       internal/sshx/sshx.go: Ssh (what is asked of the SSH library), Dial (authMethods,
--              Dial, Run, Close, and the record Peer made of them)
--   Runner     internal/runner/runner.go: Types, Names (repoPath, sanitizeName), Message
--              (commitMessage, countLines), Table (Reload, dueDevices, update), Backup (backup, one
--              definition for each way out), Run (run, RunAll, RunDevice, syncRepoMetrics), Slots
--              (the goroutines of run as a step relation)
--   Driver     the loop over the formats that the drivers share, and the SSH connection as the
--              record Peer
--   Junos      internal/junos: Netconf (read), Session (openNETCONF, rpc), Rpc (fetchNETCONF,
--              Fetch), Xml (rawElement, checkRPCError), Metadata (applyVersion, applyCommit), Cli
--              (fetchSSH)
--   Routeros   internal/routeros: Export (parseExport, cliError, stripANSI), Metadata
--              (applyMetadata, filterKeys, parseKeys), Fetch (fetch)
--   Rostest    internal/rostest/server.go: Canned (the texts), Server (its logins, runCommand and
--              handleSession)
--   Junostest  internal/junostest/server.go: Canned (the texts), Server (its logins and runCommand),
--              Netconf (netconfLoop, the type framed, handleSession)
--   Daemon     main.go: Main (reload, runOnce), Start (run, newLogger), Print (printSummary),
--              MetricsFile (writeMetricsFile); internal/httpapi/server.go: Mux (the two route
--              tables), Http (the handlers), Print (the index page), Listen (Serve, shutdown); Life
--              puts ticks, reloads and requests together
--   Tests      sample data and the theorems at concrete inputs
-- The proofs about a file stand in its child modules, or beside it in files named for what they
-- prove.
--
-- Numbers and time: an int or a duration is an integer, an instant is in nanoseconds from the Unix
-- epoch, and the values of gauges are integers: seconds for instants, nanoseconds for durations.
-- Sums of instants and durations do not wrap around; reading a number of seconds does
-- (Config/Duration).
--
-- Shared state: a method takes the Runner and returns it. The two parts of a backup, up to the
-- fetch and after it, are separate definitions (begin, after_fetch), so that a reload can stand
-- between them. The backups of one run are listed in the order in which they finish; the goroutines
-- that start and end them are the steps of Runner/Slots.
--
-- Parameters: the random draws of the start jitter, the clock's readings, the rendering of instants,
-- durations and aligned columns, the outcome of each fetch in a run, the compiled remove_lines
-- patterns, which are tests on a line, time.ParseDuration and the YAML decoder, what the
-- configuration asks of the machine (Config/Host), the file system, go-git and its transports
-- (Store/Git and the record Worktree), the sockets and the SSH library (Sshx/Ssh), the streams of an
-- SSH session (Wire), the decoding of XML elements (Xml), binding addresses (Daemon/Listen), and the
-- files of writeMetricsFile. Laws that a theorem needs of them are records, such as SocketLaws.
--
-- Recursion is structural everywhere but in one place: printing a number in decimal takes one unit
-- of fuel for each digit and is given the number plus one, and Strings/Decimal shows that the digits
-- are those of the number.
--
-- Not modelled: the listeners of the two stand-in devices and cmd/fakejunos, which starts them, the
-- registration and exposition of the collectors, JSON, and log lines.
pub mod Prelude
pub mod Strings
pub mod Config
pub mod Device
pub mod Metrics
pub mod Store
pub mod Sshx
pub mod Runner
pub mod Tests
pub mod Junos
pub mod Driver
pub mod Routeros
pub mod Rostest
pub mod Junostest
pub mod Daemon
