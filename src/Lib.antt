-- ===== src/Lib.antt =====
-- The DNS server errantdns.io: its configuration, its caches, the records and their validation, the
-- storages, the resolver, the handler of requests and the log.
--
-- A request goes through Server (internal/dns/server.go), which turns each question into a query and
-- asks the Resolver (internal/resolver/resolver.go). The resolver walks up the domain hierarchy for SOA
-- queries and passes every other query to a storage, the interface Storage/Interface. There are three:
-- Storage/Postgres is the database, and Storage/Cached and Storage/Redis put caches in front of another
-- storage: the first one the cache of memory, Cache (internal/cache/memory.go), the second one that
-- cache and a Redis server (Redis/Client). The records and keys are those of Models (internal/models).
-- cmd/dns-server/main.go loads and validates the configuration (Config), makes the connection of the
-- database in a pool (Pool) and the client of Redis in a registry (Redis/Registry), and stacks the
-- storages.
--
-- Files:
--   Base            numbers, lists, tables and texts: a text is a list of bytes, a map is a table of
--                   keys and values; strings.Split, TrimSuffix, Fields and ToLower, and strconv's
--                   ParseUint and Atoi are written out in Base/Text
--   Cache           internal/cache/memory.go: MemoryCache with Get, Set, Delete, Clear and
--                   cleanupExpired. Cache/Run runs sequences of calls, Cache/Reads views a cache as
--                   a map whose entries expire, Cache/Eviction, Cache/Cleanup and Cache/Own use it
--   Models/Record   internal/models/dns.go: DNSRecord, LookupQuery, CacheKey, NormalizeDomainName
--   Models/RecordSet, Models/Validate   internal/models/dns.go: RecordSet and Validate
--   Models/DomainName                   internal/models/domain-name.go
--                   Models/DomainName/Parts is about the labels, Models/DomainName/Accepted about names
--   Models/Targets  internal/models/a.go, aaaa.go, cname.go, mx.go, ns.go, ptr.go
--   Models/Soa, Models/Txt, Models/Srv, Models/Caa   internal/models/soa.go, txt.go, srv.go, caa.go
--   Models/Net      net.ParseIP, To4 and String of an address, as the code uses them
--   Resolver        internal/resolver/resolver.go, with and without the source of a record
--   Storage/Interface   the interface Storage of internal/storage/postgres.go, and source.go
--   Storage/Select  selectFromArray, generateSeed and roundRobinIndex of internal/storage/cached.go
--   Storage/Cached  the methods of CachedStorage in internal/storage/cached.go; Storage/Cached/Lookup,
--                   Invalidation and Freshness are about what it serves
--   Storage/Redis   internal/storage/redis_cache.go: the lookups; Storage/Redis/Manage has the writes and
--                   the invalidation, Storage/Redis/Status the health and the statistics.
--                   Storage/Redis/Reads views the server as a map whose entries expire
--   Storage/Postgres    internal/storage/postgres.go: the methods on the table dns_records;
--                   Storage/Postgres/Columns is the conversion of a record to a row and back
--   Redis/Client    internal/redis/client.go, for the functions that the program calls
--   Redis/Registry  internal/redis/init.go: the named clients, as steps of a registry. NewClient holds the
--                   mutex for its search and its insertion only: Redis/Registry/Safety is about calls
--                   one after another, Redis/Registry/Interleaved about parts of calls in any order
--   Pool            internal/pgsqlpool/pool.go: the named connections; Pool/Transaction has the
--                   statements and transactions, Pool/Start is NewPostgresStorage
--   Logging         internal/logging/logger.go: the levels, the sampling, the lines and the counters;
--                   Logging/Start is the global logger
--   Server          internal/dns/server.go: handleDNSRequest, processQuestion and the statistics;
--                   Server/Message is createResourceRecord,
--                   Server/Outage puts the server on a database that fails, and
--                   Server/Totals runs sequences of requests
--   Config          internal/config/config.go: the Validate methods; Config/Load is Load with the
--                   environment as a function
--   Samples and the modules Tests   inputs at which the results are applied
--
-- State and errors: a method takes the state and returns the new one; a mutex is a sequence of whole
-- calls, but for NewClient of Redis/Registry, whose parts are steps. An error is a value of a sum, `none` of a check is a nil error, and `none` of Set or a method
-- that calls it is a call that does not return. A pointer in a list that was read from JSON may be nil:
-- it is an option, and a lookup that reads a field of nil panics, which is `none` as well. Clock readings are arguments. Counters wrap at 2 ^ 64
-- as bit patterns. Cases and white space are those of ASCII, which is what a domain name, a type and
-- a number may hold.
--
-- Fuel: the loop of Set that evicts makes at most one round for each entry of the table and one more,
-- which is enough because each round deletes an entry of a cache whose order and table agree
-- (Cache/Invariant). The loop that reads an IPv6 address makes at most 9 rounds, since an address has
-- at most 8 groups. The loop of SCAN asks the server again until the cursor is 0, which is up to the
-- server: its rounds are an argument, and `none` is a loop that has not ended by then. Every other loop
-- is structural.
--
-- The database is a list of rows with the next id and the faults of its next calls; a SQL statement is
-- a function on the rows. What database/sql answers to the pool is an argument of each call.
--
-- Parameters: publicsuffix (SuffixList, with the form of a registrable domain as IsSuffixList), net/url
-- (Packages), math/rand and md5 (Chance), miekg/dns (DnsPackage), go-redis with its server
-- (RedisServer, with the documented commands as IsRedis),
-- encoding/json (Json, IsJson), time.ParseDuration, strconv.ParseFloat and the comparisons of a
-- floating-point rate (ConfigPackages, IsFloat), and the storage behind a cache or a resolver (Storage).
--
-- Not modelled: the functions of internal/redis/client.go that nothing calls; the fields of a line
-- and the global functions of internal/logging; the settings and the address of a connection
-- of internal/pgsqlpool; the start, the signals, the reports and the stop in cmd/dns-server and the
-- start and stop of the servers, which only call other systems; the goroutine that calls
-- cleanupExpired, of which only the calls are seen; the hit rate, a floating-point number.
pub mod Base
pub mod Cache
pub mod Models
pub mod Redis
pub mod Pool
pub mod Logging
pub mod Storage
pub mod Resolver
pub mod Server
pub mod Config
pub mod Samples
