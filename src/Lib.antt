-- ===== src/Lib.antt =====
-- RuleBaseProxy, a rule based proxy: connections come in from the listeners, the tunnel picks an
-- outbound adapter for each one by a list of rules, and a built-in resolver answers names, with
-- addresses of a pool of its own. These files model the parts of the program that decide and that
-- keep state, each translated from its Go source, and prove what makes them correct. Paths are from
-- the repository's root.
--
-- How the parts meet: a listener reads the target of a connection (for SOCKS, Socks4 or Socks5) into a
-- `Metadata` (Rule/Metadata). The tunnel completes it (Tunnel/Prehandle) by the enhancer of the
-- package dns (Dns), which asks the fake IP pool (FakeIp), which keeps both directions of its
-- mapping in an LRU cache (LruCache). The tunnel then takes a rule (Tunnel/Dispatch) or one it has
-- cached (Tunnel/RuleCache): the rules (Rule) are tried in order, with the hosts table, a domain
-- trie (Trie), and the resolver (Resolver) for a rule that wants an address. The adapter is a proxy
-- (Adapter) or a group that chooses one (Groups); all of this is set up from the configuration
-- (Config).
--
-- Common, Net: shared notation, Boolean tests, lists, texts and addresses. A string is the list of
--   its bytes (`Text`), an address of the package net the list of its 4 or 16 bytes (`Ip`). Net/*
--   models what is used of the packages net and strconv: printing, networks and numbers.
-- Trie: component/trie/domain.go and component/trie/node.go. Trie/Domain has the splitting of a
--   domain name, Trie/Node the nodes (`Node`, `getChild`, `addChild`, `hasChild`) and `Insert` and
--   `Search`. The map of children is an association list, read and written by key only; data that
--   is nil is `none`. Trie/Split, Trie/Store, Trie/Priority and Trie/Search have the theorems.
-- LruCache: common/cache/lrucache.go. LruCache/Entries has the linked list, as the entries from
--   the front to the back, LruCache/Cache the options and every method. The map from keys to
--   elements is the list of its keys, an element is found by its key, and that both stay
--   in step is the invariant. The clock is an argument of each method that reads it, and the mutex
--   makes each method one step. The remaining files hold the theorems.
-- FakeIp: component/fakeip/pool.go. FakeIp/Address converts addresses, FakeIp/Pool has the
--   pool, on 32-bit words with their wrap-around, over the cache of LruCache. Where the code would
--   panic, a model function returns `none`. FakeIp/Scan, FakeIp/Lookup, FakeIp/LookBack and
--   FakeIp/New have the theorems. The search for a free offset runs on fuel: one round of the range, after which
--   the code's loop is back where it began and stops.
-- Rule: rule/*.go, constant/rule.go and constant/metadata.go. Rule/Kinds has the rules as one
--   record with a `Condition` for the struct that implements the interface, Rule/Parser the
--   constructors and `ParseRule`, Rule/Matching the methods `Match`, which thread the global
--   `processCache` and the clock. `net.ParseCIDR`, the database of countries and the search for a
--   process are arguments. Comparisons without case are those of ASCII. Rule/Strings has the
--   functions of the package strings; Rule/Outcomes, Rule/Faults, Rule/Hosts and Rule/Processes
--   the theorems.
-- Tunnel: tunnel/tunnel.go (`match`, `shouldResolveIP`, `preHandleMetadata`, `needLookupIP`,
--   `resolveMetadata`), tunnel/mode.go (Tunnel/Modes) and
--   tunnel/matchRuleCache.go (`matchHashMap`). The package's variables are a `Config`; the cache of
--   the package golang-lru is a record of its operations. Tunnel/Selection, Tunnel/Choice,
--   Tunnel/Sticky and Tunnel/MappedTargets have the theorems.
-- Socks5: transport/socks5/socks5.go. Socks5/Stream is a connection: the bytes that the peer has
--   sent before it closed, those that were written, and the number of writes before one fails.
--   Socks5/Addr has addresses and UDP packets, Socks5/Handshake both handshakes, Socks5/Framing and
--   Socks5/Sessions the theorems. On an error a model function returns the error alone.
-- Dns: dns/*.go. Dns/Enhancer has dns/enhancer.go, Dns/Messages dns/util.go, Dns/Exchange the
--   resolver of dns/resolver.go and dns/filters.go, Dns/Middleware and Dns/Handlers the chain of
--   dns/middleware.go with dns/server.go. A client is a function from a query to its answer. The
--   clock is read once in a call, one flight of `group.Do` is one call, and the order in which the
--   answers of parallel queries arrive is an argument. Dns/Parallel has the two queries of
--   `dualQuery` side by side: a call takes a step for each access to what they share, and a schedule
--   says which one is next; when it is used up each takes the three steps that a call has at most.
--   Dns/Mapping, Dns/Caching, Dns/Upstreams, Dns/Results, Dns/Interleaving, Dns/Merging,
--   Dns/Remembering and Dns/Chain have the theorems.
-- Resolver: component/resolver/resolver.go, with the theorems in Resolver/Versions. The resolvers
--   it calls are arguments.
-- Queue: common/queue/queue.go; Queue/Races has the steps of goroutines that share a queue.
-- Config: config/utils.go and config/config.go. Config/Graph has the graph of
--   `proxyGroupsDagSort`, a map as a list of pairs, Config/Sorting the function, with the order in
--   which Go walks a map as an argument. The walk runs on fuel, as much as the graph has nodes: a
--   round removes one. Config/Proxies has `parseProxies`, for providers that are parsed, and
--   Config/Rules `parseRules`; Config/Hosts has `parseHosts`, Config/NameServers and Config/DnsSetup
--   `parseDNS`. Config/Order, Config/Complete, Config/Served, Config/Localhost and Config/DnsChecks
--   have the theorems, the other files the lemmas: Config/ServerChecks on the
--   name servers, Config/Changes on changes of a node,
--   Config/Balance, Config/Members and Config/Building on the indegrees and the members in the
--   graph, Config/Rounds and Config/Walks on the walk, Config/Known on the members that have a proxy.
-- Adapter: adapter/adapter.go. Adapter/Proxy has the health of a proxy and its tests,
--   Adapter/Limits the dials and the tests as steps of goroutines, where a test takes the lock of its
--   history three times, with the theorem on the bounds; Adapter/Delays has the one on the delay. A
--   test is given by what its three requests see.
-- Groups: adapter/outboundgroup. Groups/Parsing has `ParseProxyGroup`, which the package config
--   calls, with lemmas in Groups/Found and Groups/Named; Groups/Selection has the choices of a
--   proxy, Groups/Choosing and Groups/RoundRobin the theorems. `jumpHash`, which computes with
--   floating point numbers, the hash of common/murmur3 and the public suffix list are arguments.
-- Socks4: transport/socks4/socks4.go, over the streams of Socks5/Stream: Socks4/Handshake has both
--   handshakes, Socks4/Sessions the theorems.
-- Pool: common/pool/alloc.go, with the theorem in Pool/Classes. A buffer is its capacity and length.
-- Transport: transport/vmess/chunk.go in Transport/Chunk, over the streams of Socks5/Stream, with
--   the theorems in Transport/Reads and Transport/Writes.
-- Tests: the examples, one for each theorem that has conditions, and runs on small inputs.
--
-- Not modelled: the outbound protocols and their ciphers, the sockets of the listeners and of the
-- DNS clients, the REST interface, the reading of the configuration's document into structures and
-- the persistent store, which are input and output around the parts above or call libraries.
pub mod Common
pub mod Net
pub mod Trie
pub mod LruCache
pub mod FakeIp
pub mod Rule
pub mod Tunnel
pub mod Socks5
pub mod Tests
pub mod Adapter
pub mod Config
pub mod Dns
pub mod Groups
pub mod Pool
pub mod Queue
pub mod Resolver
pub mod Socks4
pub mod Transport
