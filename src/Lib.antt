-- ===== src/Lib.antt =====
-- Verification of deltasync, which copies the blocks of a large file that differ to a remote machine.
--
-- A client (src/client.rs) connects to a server (src/server.rs), passes a handshake and is sent the
-- hashes of the blocks of the server's file; it answers with the blocks whose hashes differ from its
-- own. Both sides run one event loop whose branches are futures that may be dropped half-way, so
-- that what they read and write is kept in resumable objects (src/common.rs).
--
-- Base, Base/*: names of the libraries, Boolean tests, lists measured by native numbers.
-- Bytes, Bytes/*: bytes, big-endian `u64`, `String::from_utf8`. A string is its bytes.
-- Io, Io/*: tokio's streams as interfaces with the laws of their documentation, and the outcomes of
--   a call: done, dropped where it waited, or an error. Io/Scripted/* instantiates the interfaces
--   with streams that follow a script, for the examples.
-- Common, Common/*: src/common.rs. Status and Text have the blocking helpers; ReadString,
--   WriteString, ReadBlock, WriteBlock the resumable objects, each with the theorems on its calls
--   beside it; Fill and Drain the loops that they share; RoundTrip brings writer and reader together,
--   and Reference the resumable reader and `read_string`.
-- HashAlgorithm: the enum of src/main.rs.
-- FileSystem: what is used of std::fs, as an interface with laws; FileSystem/Disk instantiates it.
--   FileSystem/SeekFile is the open destination, a writer with a place; FileSystem/Memory is one.
-- Select: what a turn of an event loop does, and what the hasher answers, for both loops.
-- Server, Server/*: src/server.rs. Request is the handshake, with what it
--   accepts in Sound and Complete; Dest is the destination file; Loop is the event loop, as a list of
--   polls of its branches, with the blocks that come in Loop/Receiving, what reaches the file in
--   Loop/Storing, the hashes that go in Loop/Answering, and all of it in Loop/Run and Loop/Whole.
-- Client, Client/*: src/client.rs. Request is the handshake, with what it sends in Greeting and
--   against the server's in Agreement; Loop is the event loop, as a list of polls of its branches,
--   with what was read in Loop/Hearing, what was sent in Loop/Sending and all of it in Loop/Run.
-- Sync, Sync/*: src/sync.rs. Channel has what runs under the lock of the ordered channel, System the
--   threads and the task that use it: each move is the part of an operation between two points
--   where another thread may run. Loan has the loans of buffers.
-- HashFile, HashFile/*: the threads of src/hash_file.rs, with what they meet (seek, read, the
--   channel) as a parameter; Stride has their indices, which are those of the channel, Blocks what one
--   thread sends and Cover what all do. Stream is `HashStream`, with the joins of its `drop`.
-- Session, Session/*: both event loops, each on the bytes that the other one writes. Diff has the
--   blocks that differ, Mix the file while they arrive, Copy the whole; Hasher has the threads and
--   the channel together, which are what each loop is told by its hasher; Whole goes from the
--   handshakes to the end.
-- RemoteStart, RemoteStart/*: src/remote_start.rs. Session has the calls of ssh2 and of the system,
--   whose answers depend on the calls before, Text the texts, Log and Quiet what a computation adds
--   to the calls, and Connect, Deploy, Secret, Run and Success what the function does.
-- Main, Main/*: src/main.rs and src/utils.rs. Paths is `absolute_path`, CommandLine what `main` does
--   from the arguments to the two modes, Accept the accept loop with the tasks that it spawns.
--
-- A call of a resumable object is a function from the object and the stream to a `Turn`: the outcome,
-- the object and the stream afterwards. A future that `select!` drops has the outcome `cancelled`,
-- and the object is what the fields were at the `await` where it waited. Read and write loops run on
-- fuel: the number of bytes still missing, which is enough where each round moves at least one; a
-- read of 0 bytes ends the loop with an error, a write of 0 bytes does not (see Common/Spin).
-- `read_again`, `write_again` and `write_all_again` are the calls of the event loop: one after each
-- that was dropped, at most as many as their first argument says.
--
-- `u64` and `usize` are numbers below 2^64; a subtraction that the code does not check wraps around.
-- A hashing thread has the file size as fuel: a round moves by a byte at least. The threads of the
-- channel are numbered, and thread `i` is at index `calls i n` after `n` calls of `send`.
-- The two ends of a session run on their own lists of polls; that each is fed with what the other one
-- has written is a hypothesis on its stream. The accept loop and the tasks take moves in any order, of
-- which those that are not possible change nothing; a task may go on behind the end of the stream of
-- the listener, where the runtime of the program drops it, and the write that turns a client away is
-- one move. The loop that uploads the executable has as fuel
-- one round more than there are bytes, since a round takes a byte or is the last one; a `u64` is
-- printed in twenty digits at most.
-- A loan within `FileBlockData` is the value that it holds; Stream says when it is back.
-- Not modelled: parsing of the command line, which is clap's, what is printed, and panics of spawned
-- tasks.
pub mod Base
pub mod Bytes
pub mod Io
pub mod Common
pub mod HashAlgorithm
pub mod FileSystem
pub mod Select
pub mod Server
pub mod Sync
pub mod HashFile
pub mod Client
pub mod Session
pub mod RemoteStart
pub mod Main
