-- ===== src/Lib.antt =====
-- CourseDB: an educational relational database in C++20.
--
-- The files under src/ and include/ are modelled function by function, each name in snake case:
--   Status: include/common/status.h. A Status with its output parameters is a Result.
--   Binary: src/common/binary_io.cpp, the byte-level readers and writers.
--   Value: src/execution/value.cpp, the values of columns and their comparison.
--   Schema: include/catalog/schema.h and the descriptors of tables and indexes.
--   Serialization: src/common/value_serialization.cpp (Values), row_serialization.cpp (Rows) and
--     catalog_serialization.cpp (Catalog), over Binary.
--   Locks: src/transaction/lock_manager.cpp; Transactions: src/transaction/transaction_manager.cpp,
--     which owns a pointer to a lock manager and releases the locks of a transaction that ends.
--   Keys: src/index/key_encoder.cpp, index keys as bytes.
--   Pages: src/storage/page_manager.cpp, a page file as its bytes.
--   RowStore: src/storage/row_store.cpp over Pages and Serialization. Format has the bytes of a page
--     and the split into pages, State the store and its methods' type, Paging the work on single
--     pages, Rewrite RewriteAllRows, Methods the public methods; the other children prove.
--   Parser: src/parser/lexer.cpp (Lexer) and parser.cpp, with include/parser/. Monad has the helpers of
--     ParserImpl, Expressions and Statements what it parses, Timestamp the time of a REVERT; Total
--     proves. The position is the rest of the tokens; reading behind the last one is a fault apart.
--   Evaluation: src/execution/expression.cpp, the value of a condition at a row.
--   Versions: src/versioning/version_log.cpp, the log of a table's changes; Revert is revert.cpp, over
--     the storage node engine as an interface.
--   HashRing: src/cluster/consistent_hash.cpp, which storage node a key belongs to.
--   Tasks: src/queue/task_queue.cpp, the tasks that workers run and their log. Each section under its
--     mutex is a step; new ids, the clock, the executor's answer and the order of an unordered_map
--     are arguments.
--   Catalog: src/catalog/catalog_manager.cpp over src/common/file_utils.cpp (Files), with its checks
--     (Checks) and operations (Manager); a file system is its directories and its files' bytes, by
--     paths that are texts: names with a single dot, and links, are left out.
--   Indexes: src/index/index_manager.cpp, the open indexes by name; the B*-tree is an interface.
--   Runtime: src/runtime/storage_node_engine.cpp. Parts has what it calls and keeps, Maintenance the
--     indexes and version records of a row, Operations the methods; Interface fills the interfaces of
--     Execution and of Versions.Revert with it.
--   Planner: src/planner/binder.cpp (Binder) and planner.cpp (Build), with the plans of include/planner/
--     (Plans). The catalog is its GetTable at the state in which the statement is bound.
--   Execution: src/execution/ and src/server/query_processor.cpp, over the storage node engine as an
--     interface (Engine), which Runtime fills. Select has both scans, Write the other executors, Execute
--     the dispatch and the query processor; IndexChoice, SelectPlan, Changes, Rows and Bound prove.
--   Tables: src/storage/table_storage.cpp, the check of tuples against the schema over RowStore.
--
-- Prelude holds what all share. Byte buffers are lists of numbers; std::string is its bytes;
-- int64_t is an integer with its two's complement pattern; the byte order is little-endian. Pointer
-- parameters are taken to be valid. Allocation does not fail; the file system's calls neither,
-- but for reading past the end of a file, and the padding of a written structure is zero. Sizes and
-- file offsets are taken not to wrap; counters do. Messages of a Status are left out.
-- Each call of the lock manager runs under its mutex, so that concurrent sessions are sequences of
-- calls. The loops of the lexer run on fuel, one more than the bytes of the input, since each turn takes
-- a byte; those of the parser, and its nesting of parentheses, on one more than the tokens, since each
-- turn takes a token; that of the version log's ReadAll on one more than the bytes of the file, since
-- each entry has four bytes for its size. std::mktime, which reads the time zone of the machine, and
-- std::regex_match are parameters; the character classes are those of the C locale, and std::strtoll
-- stops at the largest number.
--
-- Not modelled: the B*-tree, the entrypoint, users and permissions, and the storage service; and sockets, threads,
-- logging, metrics, cryptography, JSON and the command line, which are input and output or other
-- libraries' work.
mod Prelude
pub mod Status
pub mod Binary
pub mod Value
pub mod Schema
pub mod Serialization
pub mod Locks
pub mod Transactions
pub mod Pages
pub mod Keys
pub mod RowStore
pub mod Tables
pub mod Parser
pub mod Evaluation
pub mod Versions
pub mod HashRing
pub mod Tasks
pub mod Planner
pub mod Execution
pub mod Catalog
pub mod Indexes
pub mod Runtime
