-- ===== src/Lib.antt =====
-- A verification library for the Go packages of zombiezen.com/go/sqlite.
--
-- The repository binds the SQLite library to Go (package sqlite, at the root) and builds on that:
-- sqlitex has savepoints, transactions and ways to execute statements; sqlitefile has a buffer and
-- a file whose bytes are kept in blobs of a temporary table; sqlitemigration brings a database up to
-- date by numbered scripts, each in a transaction. SQLite itself is not under verification. What a
-- component uses of it is a record of calls, with a record of laws that state what SQLite documents
-- of them; a small implementation in memory (a child module named Memory) meets the laws and runs
-- the tests.
--
-- Errors: result.go, the result codes and the errors that carry them. An error that wraps another
--   (%w) is the same error.
-- OpType and Auth: op_type.go and auth.go, the actions that an authorizer is asked about, what their
--   arguments are, and how they are printed.
-- Blob: blob.go, what reads, writes and seeks in an open blob. BlobApi is the interface (BlobApi,
--   BlobApiLaws): the calls of the SQLite library that read and write a part of a blob, and the test for
--   an interrupt. The loops over the buffer run on fuel; the length of p is enough, as each round is for at
--   least one byte.
-- Conn: sqlite.go, a connection with its cache of prepared statements. A statement is its place in a list, as
--   its pointer is; the map from queries to statements is an association list without two entries for a
--   query. The calls of the SQLite library, and whether a channel is closed, are the parameter Library.
--   The loops of Reset and Step, which wait for other connections to unlock a shared cache, run on fuel; how
--   often they wait is bounded by a measure of the world (Settles, StepSettles), and more fuel than it is
--   enough.
-- IdGen: func.go, next of the generator of numbers by which C code names Go values.
-- Sqlitefile.Buffer: sqlitefile/buffer.go, every operation. Sqlitefile.Blobs is the interface
--   (BlobStore, BlobLaws): the connection with its table of blobs, what seek, read, write, close,
--   insert and delete do to them. Sqlitefile.Slice has the two pages in memory, bytes and spare
--   bytes of one array. The fields of Buffer are those of the struct; a method is a function from
--   the buffer to a result and the buffer that it leaves. `write` is Write with the loop on fuel;
--   one more than the number of bytes is enough, as each round copies at least one byte.
-- Sqlitefile.File: sqlitefile/file.go, every operation; its child Data has the file, the positions and their
--   order, and what the calls on a blob do to its bytes. Which calls fail, and behind how many bytes, is a
--   parameter (Faults). File.Tape has the blobs one behind the other, File.Invariant what a file holds. An
--   index out of range, where the code panics, is an ending of its own (Ending); in `rem`, which is asked for
--   positions in a blob, a blob that is not there has no bytes. Loops run on fuel: as many rounds as there
--   are bytes to write, one more than there are to read, and one more than the offset to seek are enough. The
--   calls that the code makes on the table of the blobs are one call that may fail.
-- Sqlitex.Savepoint: sqlitex/savepoint.go, every function. Sqlitex.Database is the interface: a
--   connection with its contents, and the stack of what its open transaction may go back to. The
--   functions that Go returns as closures are the values of EndFn, and `run_end` calls them, with
--   the panic that unwinds the stack and the error that the argument points to. The name that Save
--   finds on the call stack is an argument.
-- Sqlitemigration.Migrate: sqlitemigration/sqlitemigration.go, migrateDB and what it calls.
--   Sqlitemigration.Store is the interface, on top of Database: prepared statements, PRAGMAs and
--   scripts. `round` is the body of the loop, `loop` the loop on fuel, one more than the migrations
--   that are left; ensureAppID runs in a transaction of Sqlitex.Savepoint, whose theorem on its end
--   is used. Other processes may change the contents where a transaction begins (`Others`). Scripts
--   hold no statements that begin or end transactions; ExecScript is a call that returns, and the panics of
--   the savepoint that it makes are left out. Run has the functions that
--   return early with an error, and `Post`, what they end with.
-- Sqlitemigration.Pool: sqlitemigration/sqlitemigration.go, NewPool with its goroutine, open, Close, Put and
--   CheckHealth. Pools is the interface: the pool of sqlitex, the migration on a connection of it, the
--   wait for a retry, and whether an error is one of a context that is done. migrateDB ends there as
--   `migrate_db` of Sqlitemigration.Migrate does, a panic included, which ends the process. The loop of open
--   runs on fuel, one for each retry, since the code bounds its retries by nothing: `out_of_fuel` is where
--   the model stops and the code would go on. Close is that of a pool that is ready: that it
--   cancels a migration, and waits, is left out.
-- Sqlitex.Statements: the interface (Statements, StatementLaws) of prepared statements, with the world
--   that their calls and the callbacks change: the connection, and what the callbacks keep.
-- Sqlitex.Attempt: functions that may return an error or panic, and what they end with.
-- Sqlitex.Exec: sqlitex/exec.go, exec and the functions that run one statement with it. `set_args`,
--   `set_named` and `checked_against` bind the arguments, `rows` is the loop over the rows on fuel: one
--   more than the number of rows that the statement has left is enough. A map is an association list,
--   an argument is its kind, as reflection finds it, with its value.
-- Sqlitex.Bitset: the bitset of sqlitex/exec.go, but for its printing. A word is the list of its
--   64 bits.
-- Sqlitex.Pool: sqlitex/pool.go, what a goroutine does with the pool in one go. Pool.System has the pool
--   with the goroutines that prepare, hold or return connections, and the steps that they make in any
--   order (`Step`, `Reach`); Pool.Moves has the invariant. Take's receive and its body behind the lock are
--   one step; Close of a pool that could not be opened is what it does to the channel, all connections in it
--   closed (`opened_by`).
-- Sqlitex.Query: sqlitex/query.go, every function; `result_of` is what they have in common.
-- Ext.Generateseries: ext/generateseries/generateseries.go. BestIndex is in the module itself (`scan` is
--   its first loop), the cursor in Cursor. Rows has `read_all`, what SQLite does with a cursor: it reads
--   the value and calls Next until EOF holds, on fuel; more than the numbers between the start and the
--   stop is enough. Ext.IndexTypes has the data of vtable.go and index_constraint.go that it uses.
-- Base: lists, options, tests and integers over the native natural numbers.
--
-- The numbers of Ext.Generateseries are integers, cut to 64 bits by `wrap` where the code computes.
-- Elsewhere sizes, offsets and counts are natural numbers without a bound: `int` and `int64` are not
-- exceeded by what fits in memory. A version is an int32, whose decrement and increment in the loop
-- cancel out also where they wrap.
--
-- Not modelled: the rest of the bindings at the root (of sqlite.go, func.go, vtable.go, session.go,
-- backup.go and others), which call the SQLite library through C memory; Take of the
-- pool of sqlitemigration, and ext/refunc; shell/ and cmd/, which are tools. Of
-- sqlitex/exec.go, the scripts of several statements and readString. Savepoint and Migrate run their
-- statements through calls of the interfaces Database and Store. onStart and Finalize in migrateDB are
-- left out, as they touch nothing that is modelled, and so is the state of the foreign_keys setting.
pub mod Auth
pub mod Base
pub mod Blob
pub mod BlobApi
pub mod Conn
pub mod Errors
pub mod Ext
pub mod IdGen
pub mod OpType
pub mod Run
pub mod Sqlitefile
pub mod Sqlitex
pub mod Sqlitemigration
