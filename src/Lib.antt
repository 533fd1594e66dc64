-- ===== src/Lib.antt =====
-- Pedis, a Redis server over seastar: the connections, the parser of requests, the service that
-- routes them to shards, and of a shard the database handlers, the cache, the data structures and
-- the replies.
--
-- A connection (server.cc) has a fiber that reads requests and one that writes replies, with a
-- queue between them. The parser (native_protocol_parser.cc) makes a request of the bytes of a
-- connection, which the map of commands (server.cc) hands to the service by its name; the service
-- (redis.cc) reads its arguments and calls the shard that owns the key, where a handler of
-- `database` (db.cc, db.hh) looks the key up in the `cache` (cache.hh), reads or changes the value
-- that it finds, or makes a new entry, and builds a reply (reply_builder.hh). A value is a number,
-- a text, a list (structures/list_lsa.hh), a hash or set (structures/dict_lsa.hh) or a sorted set
-- (structures/sset_lsa.hh). Entries with a timeout are in the cache's timer set as well, whose
-- callback erases them.
--
-- The files:
--
--   Base, Base/*: shared names, lists and integers over native numbers; Base/Bytes is
--     utils/bytes.hh.
--   Ordered, DictLsa: structures/dict_lsa.hh. An intrusive set is the list of its entries in key
--     order.
--   ListLsa: structures/list_lsa.hh. `none` is a failed assertion, an invalid iterator or a call
--     that has not come back.
--   SsetLsa, SsetLsa/Range: structures/sset_lsa.hh, the key index and the score list.
--   BitsOperation: structures/bits_operation.cc, bits of a text. Tables has what is checked for
--     every byte.
--   Keys, Cache: keys.hh and cache.hh. The unordered set is the list of its entries; SET's
--     `insert_if`, `expire`, `never_expired`, `erase`, `replace` have the source's names.
--   TimerSet, Double: seastar's timer set and the type `double`, as interfaces with the laws that
--     the code relies on: a timer is inserted where it is not in the set, and an order is one of
--     numbers, NaN apart.
--   Database and its children: db.hh and db.cc, one function per handler, with the handler's name;
--     `none` is a failed assertion, or behaviour that the language leaves undefined. A handler takes
--     the state and returns the reply and the new state, counters and commit log included.
--   Database/Expiry: the timer's callback, `flush_all` and the initial state.
--   Database/Sound, Database/Steps: the invariant of a shard, and its states as a step relation.
--     Database/Spares: what a handler leaves alone.
--   Service/Ownership: the states of all shards together.
--   Database/Laws: what a client sees of one handler after another.
--   Protocol, Protocol/*: native_protocol_parser.cc. A pointer into the buffer is the bytes from
--     it on; Progress is about the end of its loop, Lines and RoundTrip about requests in the wire
--     format.
--   Service and its children Strings, Lists, Hashes, Sets, SortedSets, Bitmaps, Others, Unions:
--     redis.cc, redis.hh. A request is the arguments that the parser completed it with, one function
--     per request with its name; the shards are a function of the core. A text or a vector that is
--     moved into a call is empty afterwards. Service/Routing, Keyspace, Options, Algebra, Members,
--     Moves, Scores and Unions/Aggregates are about what a client sees over all shards.
--   Service/Store, Service/Store/*: what the service promises of keys, texts, counters and lists,
--     as one map over all shards, and the handlers and requests against it. It is about keys without
--     timeouts, since DEL leaves the timer of a key armed, and has no APPEND, whose outcome for a
--     text is undefined.
--   Server, Server/Commands, Server/Wire: the map of commands of server.cc and its dispatch; the
--     parameters of the requests are the fields of Environment and Moment.
--   Server/Connection, Server/Connection/*: server.cc, server.hh, protocol_parser.hh. What a fiber
--     does between two waits is one function; Steps has the interleavings of the two fibers and the
--     other connections.
--   Reply, Reply/Wire, Reply/Framing: reply_builder.hh.
--   Tests: instances of the interfaces and runs at concrete inputs.
--
-- Bounds. `uint64_t` counters and `int64_t` values keep their wrap-around at 2^64; indices and
-- times are integers, far from the ends of their type. LINSERT runs on fuel, the depth of nested
-- calls, and has no result for any fuel on a list that is not empty; the loop of `wrap_end` runs
-- on fuel equal to the distance of `end` below 0, which is enough; the loop of `parse` runs on
-- fuel, one more round than bytes, since a round takes a byte at least; the loop over the options
-- of ZUNIONSTORE has one round more than arguments, which it only needs where its index has
-- wrapped around, and then it does not end. The queue of a connection has 16 places, as in the
-- source.
--
-- Parameters. The clock, the random numbers, the timer set, the printers of numbers, the C
-- library's `atoi`, `atol` and `atof`, the C++ library's `stod`, `stoi` and `stol`, `std::hash`,
-- the number of cores, the order of an unordered map and the type `double` are arguments. So are
-- the parser of a connection, in the program the one that ragel generates, which the native parser
-- is an instance of as well, and seastar's input stream and queue, with the laws that the code
-- relies on; a stream gives its next buffer, and a request that is spread over several buffers is
-- left to the parser's law.
--
-- Not modelled: other orders in which the shards answer the calls of one request; the geo requests
-- and PFADD, and the geo and HyperLogLog handlers; the ragel parser, which is generated; the store
-- behind the commit log (an append is taken to succeed), the reuse of memory by the allocator,
-- metrics, gossip and messaging, the listening socket, start-up.
pub mod Base
pub mod Ordered
pub mod DictLsa
pub mod ListLsa
pub mod Double
pub mod SsetLsa
pub mod BitsOperation
pub mod Keys
pub mod TimerSet
pub mod Cache
pub mod Reply
pub mod Database
pub mod Protocol
pub mod Service
pub mod Server
pub mod Tests
