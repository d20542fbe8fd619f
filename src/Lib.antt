-- ===== src/Lib.antt =====
-- Redis, the server that the grid application keeps its readings in (webserver/redis/src): its
-- keyspace, its commands on keys, strings and lists, transactions, clients that wait for a push,
-- publish and subscribe, hash tables, dumps, and the parser of requests.
--
-- A request reaches the server as a command with byte strings as arguments. The command looks its
-- keys up in the dictionary of a database, where a lookup first drops a key whose time to live has
-- passed; it reads numbers from its arguments and from string objects; it writes objects back, which
-- hold an integer in place of a string where the string is the decimal print of one; and it replies.
--
-- - Prelude: shared names, lists and integers over the native numbers, byte strings, and
--   dictionaries from byte strings as association lists. `find`, `put` and `del` are
--   what dictFind, dictReplace and dictDelete do to a map; module Dict has the hash tables.
-- - Util.Number (util.c): ll2string, string2ll, string2l. `Option` is the result of a conversion
--   that can fail. The digit loop recurs on the accessibility of the number, so it needs no fuel.
-- - Util.Memory (util.c): memtoll.
-- - Util.Glob (util.c): stringmatchlen, with a read outside of the pattern or of the string as a result
--   of its own. Each loop has fuel for the bytes of the pattern, and every round takes one.
-- - Object (object.c, redis.h): values of keys, `tryObjectEncoding` and its inverse, and the reading
--   of integers by strtoll, whose behaviour in the C locale is written out with `errno`.
-- - Db (db.c): the state `Keyspace` of one database with the counters that its operations change, and
--   each function of the C-level API as an action on it. `aborted` is a failed redisAssert, or an
--   allocation that fails. Db.Evict
--   and Db.Effects describe the functions as maps on the keyspace; Db.Keeps has the rules by which a
--   command is shown to end well.
-- - Reply (redis.h, redis.c): the replies and the error texts.
-- - Strings (t_string.c) and Keys (db.c): one definition for each command. `x_rest` is the part of a
--   command behind the reading of its arguments, which is a continuation of `with_long`.
-- - Lists (t_list.c, adlist.c): the commands on lists that concern no blocked client, as LPUSHX, LPOP,
--   LRANGE, LTRIM, LINSERT and LREM; a list is the bytes of its elements, and a node is its place.
--   Whether it is a ziplist or a linked list, which compare elements in different ways, is read from
--   `Env`, as it depends on the configuration and on the past of the list.
--   A read or a deletion where there is no node is `none`, and aborts the command.
-- - Blocking (t_list.c): the pushes, RPOPLPUSH, and the clients that wait for a push by BLPOP, BRPOP and
--   BRPOPLPUSH, with the two sides of a wait: the clients of a key and the keys of a client. A value that
--   is handed on may be handed on again; the fuel of the rounds is the server's count of blocked clients,
--   and without fuel a run is `aborted`, as by a failed assertion. The time at which a wait ends is
--   kept, but the cron that ends it is not modelled. Where a push is rewritten as an LPUSH with one value,
--   the loop over its values ends.
-- - Commands (redis.c): the 40 rows of the command table that concern one database and no blocked
--   client.
-- - Multi (multi.c, redis.c): the transactions of any number of clients on one database, with the
--   proofs in its child modules. A command signals the keys that it writes by a list in the
--   keyspace; the clients are marked by it when the command has run, as no command reads the marks.
-- - Intset (intset.c): integer sets as ascending arrays of values with a width. The search loop has
--   fuel for as many rounds as there are elements, and every round shortens the range.
-- - Dict (dict.c): the hash tables. A table is the function from an index to its chain, with the size
--   of the array; `none` is an access outside of it. The search for the next bucket has fuel for as
--   many rounds as the table has buckets, and the doubling of a capacity for 61 rounds, which reach
--   2^63. The hash function is a parameter, and `gen_hash` is the one of the code for byte strings.
--   Indices are unbounded numbers, where the code has an `int` or 32 bits of a hash: they differ in
--   tables of more than 2^31 buckets only.
-- - Rdb (rdb.c): the dump file as a list of bytes. Rdb.Snapshot has rdbSave and rdbLoad over all
--   databases; a `Format` writes and reads the values, and Rdb.Strings gives the one of strings. LZF is
--   a pair of parameters. The loop of rdbLoad has fuel for the bytes of the file and one, and every
--   round that goes on reads a byte at least. Rdb.Reads and Rdb.Restore say what it means that a text
--   is read as it was written, and the proofs follow the parts of the file.
-- - Protocol (networking.c): processMultibulkBuffer. The state of the parser in a client is a `Reader`,
--   and the loop recurs on the count of arguments that are missing.
-- - PubSub (pubsub.c, networking.c): the channels and patterns of any number of clients, PUBLISH, and
--   what freeClient does to them; what the clients are sent is a log. The order in which a hash table
--   gives the channels of a client is that of a list.
-- - Tests: concrete keyspaces, and the theorems at inputs that meet their hypotheses.
--
-- What a command reads from outside (the time, whether the server loads or is a slave, `errno`, and how
-- a list is encoded) is its argument `Env`. Times and 64-bit sums wrap around in two's complement, as
-- the compiled code does. A string object is written in place by the code, after a copy if it is shared or encoded; in
-- the model the key is given the new bytes. Reference counts, the LRU clock, virtual memory, other
-- memory exhaustion, replication and the append only file (but for the deletions of expired keys) are not
-- modelled. Nor are the commands on sets, hashes and sorted sets: their objects occur as values that
-- the commands on keys carry and the others refuse.
-- Of memory exhaustion there is one case: a string that SETRANGE would grow to 2^63 bytes or more
-- aborts the server, and a smaller one is taken to fit.
pub mod Blocking
pub mod Commands
pub mod Db
pub mod Dict
pub mod Intset
pub mod Keys
pub mod Lists
pub mod Multi
pub mod Object
pub mod Prelude
pub mod Protocol
pub mod PubSub
pub mod Rdb
pub mod Reply
pub mod Strings
pub mod Tests
pub mod Util
