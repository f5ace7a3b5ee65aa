-- ===== src/Lib.antt =====
-- A model of dnsd-rs, a recursive DNS resolver with its own wire codec, a tiered cache, operator
-- zones, a block list, client subnets derived from IPv6 addresses, listeners for UDP, TCP and
-- HTTPS, a query log, a tamper-evident audit log, a database behind them and a management API.
--
-- Parts and files (paths from the repository's root):
-- - Base: numbers, lists, byte strings, bit operations, maps, the split and the parsing of texts,
--   and Result with the outcomes ok, err and panic; Error is that of src/error.rs.
-- - Proto: src/proto.rs. Types has the messages, Texts the texts of types and rcodes, Cursor the
--   readers of integers, Name the functions read_name and Encoder::write_name, Flags the flag word,
--   Ecs the client subnet and the masks, Parse Message::parse, Encode Message::encode, Edns
--   build_query, add_edns, strip_ecs and echo_ecs. The other modules below Proto prove what these
--   do together: Name/RoundTrip, Data/RoundTrip, RoundTrip/Records, RoundTrip/Messages, Queries,
--   Masks, Soa, Fuel.
-- - Cache/L1: src/cache/l1.rs, the shards of the cache in memory, with get, put, del, purge_prefix,
--   len.
-- - Cache/Reader and Cache/L2: src/cache/l2.rs, the log on disk: its records and the buffered
--   reader, then the index with get, put, delete, replay and compact. Cache/Tiered:
--   src/cache/mod.rs over both, and over an interface that Cache/Redis, src/cache/redis.rs, fills.
-- - Logs: the audit log of src/store/logs.rs and its chain of hashes. Logs/Queries: its query log,
--   from the channel to the batches.
-- - Resolve/Recurse and Resolve/Iterate: src/resolve/recurse.rs, from the exchange with one server
--   to do_resolve. Resolve/Flight: the single flights of Resolver::resolve as steps of threads.
-- - Resolve/Geo: src/resolve/qqwry.rs, the location libraries.
-- - Resolve/Net and Resolve/Dualstack: src/resolve/dualstack.rs, from the IPv6 networks to
--   derive_ecs.
-- - Resolve/Block: src/resolve/block.rs. Resolve/ZoneRecords and Resolve/Custom:
--   src/resolve/custom.rs. Resolve/Replies: the replies and the times to live of
--   src/resolve/mod.rs. Resolve/Limiter: its rate limiter. Resolve/Requests and Resolve/Pipeline:
--   its process, which calls all of the above in order. Resolve/Handle: its handle, which adds the
--   row of the query log.
-- - Server: src/server. Service is the interface of the listeners to the pipeline, which
--   dns_service of Resolve/Handle fills. Http: http.rs, the reader of requests and the responses.
--   Tcp: the loop of a connection of tcp.rs. Doh: doh.rs. Udp: udp.rs, its reader and its workers
--   as a step relation.
-- - Store: src/store/mod.rs, in Values the rows with the roles and users of src/model.rs, in
--   Statements its repositories. Api: src/api/mod.rs over Store, Logs and the policy of the
--   pipeline: Bodies has what goes in and out, Reload the audit row and reload_all, Route every
--   branch of route, and handle. Config: src/config.rs: Variables has the readers of the
--   environment, Files load_dotenv, Settings the fields, validate and from_env.
-- - Tests: concrete runs.
-- A reply of Resolve is a Message, which goes out through Proto/Encode; a derived subnet is an
-- EcsInfo of Proto/Ecs, which add_edns puts into a query. A write of Api goes to the database, and
-- what Store then reads from it becomes the block list and the zones that process answers from.
--
-- State. A String is its UTF-8 bytes, an integer a native number with its wrap-around written out,
-- a HashMap an association list, an IPv6 address its 16 octets. Encoder and the caches are passed
-- on explicitly. An index or slice out of range is the outcome panic. The clock is an argument, or
-- part of the world that the network passes on. The file of the log is its bytes; a write may stop
-- anywhere. Threads that share a flight, and the workers of the UDP listener, take turns in a step
-- relation, with a panic as a step. A connection is the bytes that come in, and how many bytes it
-- takes; the environment is an association list that the .env file adds to.
--
-- Fuel. read_name has the source's own bound, 256 turns, after which it reports a loop. parse_txt
-- and parse_options have the number of bytes left as fuel, of which every turn takes at least one:
-- see Proto/Fuel. replay and compact have the length of the file, of which every record takes 21
-- bytes at least. iterative has the depth of the stack, the end of which is a panic, and
-- country_area likewise. The chase of do_resolve has two turns more than its bound allows. The
-- search of qqwry halves a range of at most 2^32 numbers, for which 64 rounds are enough. The loop
-- of a TCP connection has one turn more than there are bytes, of which every turn takes at least
-- two. The other loops are structural: read_records and read_questions on the counts of the header,
-- the writer of the query log on the events of its channel.
--
-- Parameters. Proto/Text takes lossy UTF-8 decoding, case mapping and trimming from the standard
-- library, with their behaviour on ASCII as laws, which ascii_text meets. Server/Http takes the
-- split of the request line at white space as HttpText, which ascii_words meets. Resolve/Dualstack
-- takes the parsers of addresses and numbers; that a parsed IPv6 address has 128 bits is a law,
-- which the parsers of Tests/Policy meet. Sockets (Network, RedisPeer), the database (Database),
-- and what its client makes of a column, serde_json (Json), SHA-256, the base64url and the GBK
-- decoder and the arithmetic of f64 are parameters. The mapping API, the text of a client's
-- address, split_whitespace and the identifiers of uuid are functions or values that the
-- definitions take.
--
-- Not modelled: src/main.rs, which wires the parts and starts the threads; the threads that accept
-- connections, which hand each to a handler; TieredCache::new and Store::connect, which open files
-- and connections, and the text of the schema; how long the writer of the query log waits for a
-- row; mask_ipv6 in src/proto.rs, and bailiwick_of and ns_in_bailiwick in src/resolve/recurse.rs,
-- which nothing uses.
pub mod Base
pub mod Proto
pub mod Cache
pub mod Resolve
pub mod Tests
pub mod Logs
pub mod Server
pub mod Store
pub mod Api
pub mod Config
