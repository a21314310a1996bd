-- ===== src/Lib.antt =====
-- Verification of FluidFS, a distributed file system in user space (the Go package in fluid/).
--
-- A replica mounts file systems that live in memory and answers the kernel's requests on files and
-- directories; a file's bytes are cut into blobs, which are named by a signature; versions order the
-- changes that replicas make; a configuration chooses the method and the sizes of the blobs. The
-- process holds a PID file, opens a database with one of two drivers, and mounts the file systems of
-- a table, to which clients add mount points.
--
-- The library follows these parts.
--   Prelude       what all modules share: Boolean tests, lists over the native numbers, Go's slices,
--                 maps as association lists, the integers of 64 bits, texts and base64.
--   Utils         fluid/utils.go: Blocks, Stride, StrideFixed, ListContains, MaxUInt64.
--   Version       fluid/version.go: Update, Next and the comparisons; Lamport has replicas that draw
--                 and reconcile versions, as a step relation.
--   Chunk         fluid/chunk.go: hashers, signatures and blobs; Fixed and RabinKarp are the two
--                 chunkers; Factory is NewChunker and the calls through the interface Chunker; Blobs is
--                 where a blob is on disk.
--   Config        fluid/config.go: the configurations with Defaults and Validate; Storage joins a checked
--                 storage configuration with the chunkers of NewChunker; Load is LoadConfig, and
--                 Runnable what the other parts rely on of its result.
--   Fs            fluid/fuse.go, and what nodes share; NodeOps, FileOps and DirOps are the handlers of
--                 fluid/node.go, fluid/file.go and fluid/dir.go; Heap is the invariant, Reach the
--                 states that calls lead to, and Progress the lock.
--   Fstab         fluid/fstab.go: Entry, File and RoundTrip are about lines and the file, Options about
--                 MountOptions, Table about FSTable, Unique about AddMountPoint.
--   Db            fluid/db/: Bolt and Level are the drivers, Spec is the dictionary that both implement,
--                 Agree and Drivers are the refinements.
--   Logger        fluid/logger.go: the levels and Log.
--   Pid           fluid/pid.go: the PID file, from Save to Free.
--   Replica       fluid/fluid.go: Run and Shutdown; Start is Init, and Started what holds of
--                 its globals; Mounts has the file systems of fluid/fuse.go and
--                 fluid/fstab.go that they start and stop.
--   Web           fluid/web.go: MountHandler, which adds to the table of Fstab; Requests is what a
--                 request asks for and why it is refused, Mounted what comes of it.
--   Tests         the theorems at concrete inputs.
--
-- State. A chunker is a record of its fields, and a method is a function on it. The nodes of a file
-- system are Go objects behind pointers, so they stand in a heap, a function from addresses to
-- entities; parents and children are addresses. A handler takes the state of one file system and
-- gives an outcome and the next state: a value, an error number, a panic, or waiting for the lock
-- for ever. Readings of the clock are an argument. An extended attribute refers to a slice of the FUSE
-- library's buffers, which a theorem may let the library fill anew. The field readonly is there, but no
-- code of the repository sets it. The parts of a configuration are pointers, `none` where they are nil.
--
-- Bounds. Lengths and indices of type int and uint64 wrap around at 64 bits in the definitions; the
-- theorems say which inputs are small enough for that not to happen. A slice out of range is `none`,
-- or a panic of the handler. Loops whose end depends on the data run on fuel: the loop over a chunker
-- needs as many rounds as the data has bytes, and two, and the theorems about it say so. The way up
-- from a node to the root needs as many as the address of the node, and one, since parents are older.
--
-- Parameters. The hash functions, trimming and lowering of strings, the files and directories on
-- disk, path/filepath, JSON and YAML, UUIDs, times, the two database libraries, the machine's name
-- and home directory, the answers of the kernel and of the FUSE library, the sequence of inodes and
-- the largest size that can be allocated are arguments, as their code is not in the repository or is
-- the machine's. Where a theorem relies on what is documented of them, a record of laws says so.
--
-- Not modelled: the interleaving of goroutines and the signals of the process: code runs here one
-- call after the other, where the goroutines of the file systems have come some way, each, before
-- Shutdown; HTTP, its routes, logs and JSON; the command line; the output of the log beyond its lines;
-- printing of configurations and versions; and generated and vendored code. Handlers run one at a
-- time: all state is behind one lock, and those that do not take it (Attr, Getattr, Getxattr,
-- Listxattr) only read. In the database drivers, Scan and Keys are stubs of the source.
pub mod Prelude
pub mod Utils
pub mod Version
pub mod Chunk
pub mod Config
pub mod Fstab
pub mod Db
pub mod Logger
pub mod Pid
pub mod Replica
pub mod Web
pub mod Fs
pub mod Tests
