-- ===== src/Lib.antt =====
-- Verification of StateDB, a database server that keeps objects under `size_t` keys in memory.
--
-- The database (StateDatabase/db.h) stores its objects (object.h) in a B+ tree of order 6 (bpt.h), whose
-- internal nodes (bpt_internal.h) lead to leaves (leaf.h) that keep sorted chains of pairs (list.h).
-- The file behind it holds only a header (db_header.h).
-- An object has a type (dtypes.h), and values may be big integers (bigint.h). Clients talk to the
-- server (asio_server.h) in messages (net_message.h, commands.h) over connections that queue their
-- reads and writes (connection.h). A message is a preamble and a body; the server looks up a handler
-- for its command (dispatcher.h), which works on the database and writes to one connection or to all.
--
-- Files, and the code that they model:
--   Base            names of the library, Boolean tests, lists, characters, integers over the native
--                   numbers, and `Outcome`, the result of code that may dereference null (`crash`),
--                   loop for ever (`hang`) or follow a pointer to memory that another object owns
--                   (`astray`)
--   Bpt/LeafList    StateDatabase/list.h: leaf_list, with its cached count as a word of 64 bits
--   Bpt/Node        StateDatabase/leaf.h, bpt_internal.h: get_val_ptr, insert, set and split
--   Bpt/Tree        StateDatabase/bpt.h: get and set on the root
--   Bpt/Remove      delete_key of all three classes, with delete_child
--   Bpt/Iterate     iterate of all four classes, along the links between the leaves; Setting and Writes
--                   follow the leaves through set
--   BigInt          StateDatabase/bigint.h: operator=, +, -, <, trim, and *=, /=, % by an int
--   BigInt/Division divmod, operator/ and operator% of two bigints, and gcd
--   BigInt/Product  convert_base, karatsubaMultiply and operator* of two bigints
--   BigInt/Power    operator^ of two bigints; BigInt/Lcm: lcm
--   BigInt/Compare  >, <=, >=, == and !=; BigInt/Measure: size, sumof and longValue
--   BigInt/Text     read, operator<< and to_string of bigint
--   Dtypes          StateDatabase/dtypes.h, dtypes.cpp, dtypes_utils.h: values as bytes
--   Object          StateDatabase/object.h, object.cpp, and of dtypes.h and dtypes.cpp the table of
--                   the types and the implementor of bigint
--   Db              StateDatabase/db.h, db.cpp, hash.h: the database's operations on the tree
--   File            StateDatabase/db.h, db_header.h, db_header.cpp, basic_types.h, utils.cpp: the file
--   File/Wrapper    StateDatabase/db_wrapper.h: opening, verifying and disposing of the file
--   DynamicStorage  StateDatabase/dynamic_storage.h: the typed buffer of a connection
--   Duration        StateDatabase/format_utils.cpp: the text of a duration
--   Segment         StateDatabase/segment_container.h: rounding up to blocks
--   Skip            StateDatabase/net_utils.cpp: discarding bytes of a socket
--   Dispatcher      StateDatabase/dispatcher.h: the table of handlers
--   Message         StateDatabase/net_message.h, net_message.cpp, commands.h, flags.h
--   Connection      StateDatabase/connection.h, connection.cpp: the queues of pending reads and writes;
--                   Connection/Greeting is the life of a connection, from its greeting to its end
--   Server          StateDatabase/asio_server.h, asio_server.cpp: the handlers; Server/Session is the
--                   loop of a connection over its messages (connection.cpp), and Server/Acceptor how
--                   connections are accepted, closed and forgotten
--   Examples        inputs for the theorems about the tree and BigInt; the other components have an
--                   Examples of their own
--
-- State. A tree of nodes is a value: each node is owned by one slot of its parent. Two pointers of
-- the code alias memory with another owner, and have constructors of their own (`alias`, `shared`).
-- Allocation is explicit: `fresh` is the next address and `junk` what the memory held, as the code leaves the
-- count of a new chain as it finds it. The theorems on trees assume memory that is handed out zeroed.
-- The state of the server is the tree and the list of its connections; how that list comes about is
-- the matter of the acceptor, whose state is the map of the connections and what the asio library has
-- been asked for. A handler returns the new state and the responses in the order in which it requests
-- them, each with the connection it goes to. A response is a preamble, and a body that is requested when
-- the preamble is written. On the wire the body follows its preamble, but several responses to one
-- connection change their order in its queue (Connection/Order). A `Run` tells an exception and an access outside of memory from a result.
--
-- Bounds. Keys are `size_t`, below 2^64. The loops are structural recursions and need no fuel, but for
-- the carry behind a product by an int, where three limbs hold any `int` (value-push_carry), the
-- digits of an `int`, of which there are ten at most, the limbs that are read from a text, which are no
-- more than its characters (read_lem), the depth of Karatsuba's method, which is at most the count of
-- the limbs (karatsuba_multiply-IsPower), the zeros that are pushed up to a power of two
-- (pad_to_power-IsPower), the walk along the leaves, which passes each once (walk-pairs),
-- the loop of delete_child, where fuel above the count of the list nodes changes nothing (spin_fuel),
-- and the messages of a session, which are counted. The loop of divmod that lowers a digit recurses on the
-- digit, which never falls below zero (lower_lem), and gcd runs on fuel above its second magnitude
-- (gcd-IsGcd), operator^ above the magnitude of the exponent (to_ℤ-power). A skip of bytes is a relation
-- between states, whose steps are counted (Skips-IsSkip).
--
-- Vectors and texts are indexed with `int`s: the limbs of a canonical number are fewer than 2^30
-- (Order.IsCanonical), and the theorems bound what their code adds to that; the counts that the code
-- returns as an `int` or a `long long` are `none` where they do not fit. The product is bounded so that no
-- coefficient leaves a `long long` and no carry an `int`.
--
-- Assumptions. The pointer `inner` of a `db` is never set before it is tested and deleted: what the
-- memory held is an argument, and the theorem that every start succeeds is of memory that was zeroed. A
-- read of a connection delivers all the bytes that were asked for. Asserts are compiled out, as in a
-- release build. The packed preambles are bytes with the lowest of a number first, as on the machines that the program is built for.
--
-- Not modelled: db_wrapper::resize_file and the directories, the product of a big integer and a long
-- long, segment_container::read_from, the clock behind the timers, the text of the statistics,
-- streams, logging, and the test terminal.
pub mod Base
pub mod BigInt
pub mod Bpt
pub mod Connection
pub mod Db
pub mod Dispatcher
pub mod Dtypes
pub mod Duration
pub mod DynamicStorage
pub mod Examples
pub mod File
pub mod Message
pub mod Object
pub mod Segment
pub mod Server
pub mod Skip
