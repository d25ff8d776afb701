-- ===== src/Lib.antt =====
-- A model of Primordium, the library of components that Mycophonic's Go projects share.
--
-- The program is a set of packages with few ties. Each is modelled in the files named here; a
-- module's own header says which code it is about.
-- - Errors: Go's error values as trees of wrapped sentinels, with `errors.Is` and `errors.Join`, and
--   the outcome of a function that returns, fails or panics. Fault and Filesystem/Errors name the
--   sentinels of fault/errors.go and filesystem/error.go. Message texts are left out.
-- - Digest: digest/digest.go. `from_string` is `FromString`, `string` is `String`, `hash` is
--   `Algorithm.Hash`. The hash functions themselves are parameters.
-- - Filesystem/Path: filesystem/path.go with its Unix and Windows halves, and the socket lengths of
--   filesystem/socket_*.go. The platform is an argument. Texts are bytes; where the code asks for
--   white space or for a letter in either case, the model reads their UTF-8. `filepath.VolumeName`
--   is a parameter.
-- - Filesystem/ReadSeeker: filesystem/readseeker.go. The source is a parameter with a state of its
--   own. `int` and `int64` are 64-bit patterns. What the documentation of `io.Reader` and
--   `io.Seeker` promises of a source over fixed contents is the record `IsFile`. ReadSeeker/Session
--   and ReadSeeker/Draining are clients of a reader.
-- - Filesystem/Lock: filesystem/lock.go over filesystem/lock_unix.go. The system calls are a
--   parameter with the system's state; what the package relies on is the record `IsSystem`.
-- - Filesystem/Lock/Windows: filesystem/lock.go over filesystem/lock_windows.go; what the package
--   relies on there is the record `IsWindows`.
-- - Filesystem/Locker: filesystem/refcounted.go, as one process runs it: `acquire` is `Acquire`,
--   `release` the function that it returns. Each lock is an open file, and the files are followed one
--   by one. The other calls of package os are the record `Disk`.
-- - Filesystem/Locker/Processes: the same code, as several processes run it over one entry at once,
--   as a step relation: `Move` for calls that succeed, `Fault` for one that fails and for the death
--   of a process. Making the root directory, opening the root lock's file and locking it are one step, as
--   are touching the lock file, and giving a lock up with the closing of its file; making a directory,
--   opening a lock's file and locking it there are apart. A lock is on a file and not on its path, so a
--   directory and a lock file carry the number of removals before them.
-- - Filesystem/Atomic: filesystem/atomic.go. The calls of packages os and io are the record `Files`;
--   what their documentation promises is the record `IsFiles`. `currentMask` is an argument.
--   Atomic/Mode adds what it promises of a file's mode, for a file written under the package's mask;
--   Atomic/Crash runs the same definitions over a file system that keeps its states.
-- - Filesystem/Locations: filesystem/locations.go. The environment, the directories that the system
--   names and `os.MkdirAll` are the record `Host`.
-- - Filesystem/Size: filesystem/size.go. `filepath.Walk` is a parameter.
-- - Filesystem/Buffered: filesystem/reader.go and readwriter.go. Package bufio and the source are the
--   record `Bufio`; what their documentation promises is the record `IsBufio`.
-- - Filesystem/Umask: filesystem/umask.go and init.go. `syscall.Umask` is a parameter, on Windows the
--   stub of filesystem/umask_windows.go.
-- - App/Shutdown: `Register` and `Shutdown` of app/shutdown/shutdown.go. App/Shutdown/Process: these
--   and `SetDefaults` as threads run them at once, as a step relation. A handler may never return, the
--   timer may end at any step, and so may the process: by its `main`, or by a second signal.
-- - App/Logger: app/logger/logger.go. The levels of zerolog and slog are 8-bit and 64-bit patterns; the
--   environment, `zerolog.ParseLevel` and the console writer are the record `Host`.
-- - Reporter: reporter/sentry.go. The Sentry client is a parameter.
-- - Simd: simd/dot.go and matvec.go over the Go code that is built where there is no assembly. The
--   arithmetic of float32 is a parameter with no law.
-- - Network/Http: `RoundTrip` of network/http.go. Requests are in a store, since the caller keeps
--   its own; a header has a list of values for a name. The wrapped transport is a parameter.
-- - Network/Transport: `SetDefaults` and `NewTransport` of network/http.go. Transports are in a
--   store, since the package and `http.DefaultTransport` share one.
-- - Network/Ssh: the constants of network/ssh.go.
-- - Format: format/format.go, console.go, markdown.go and json.go. The writer is a parameter with a
--   state of its own, and may fail. A map is a list of fields in the order in which `range` visits
--   them. The encoder of encoding/json is a parameter, and so is the data that it is given, since it
--   sees more of a value than the text that the other printers print.
--
-- Two loops of the code take fuel. `flock_loop` repeats an interrupted system call, and goes on in one
-- that waits while another process holds the lock: one more than the signals and the time slices of
-- waiting still to come is enough, and where a conflicting lock is kept for ever there is no such
-- number. `decimal` divides a number by ten: the number and one more is enough, since each step makes it
-- smaller. `read_all`, a client that reads until it is given an error, takes fuel too: one more than
-- the bytes left is enough. Every other loop runs over a list or counts down.
-- The step relations have no fuel.
--
-- Not modelled: the assembly of the vector products; `New` of app/app.go, which calls the functions
-- modelled here in turn; the contexts that are handed on; nil where the code relies on there being none,
-- which are the header of a request and the entries that are printed.
pub mod App
pub mod Base
pub mod Errors
pub mod Fault
pub mod Digest
pub mod Filesystem
pub mod Reporter
pub mod Format
pub mod Network
pub mod Simd
