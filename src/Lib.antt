-- ===== src/Lib.antt =====
-- GaleLB, a load balancer: nodes report their health to the load balancer over gRPC, the load
-- balancer keeps a registry of them, and requests are spread over the nodes by consistent
-- hashing. This library models the Go code of the repository and proves what its parts promise.
--
-- Parts, and where they stand:
-- - pkg/routing/ring.go (`newRing`, `addNode`, `removeNode`, `getNode`, `addrToString`), with
--   pkg/common/common.go: Routing. A ring is a record of its sorted points, the map from points
--   to nodes, the number of virtual nodes and the hash function. Every operation holds the lock
--   from its first line to its last, so it is a function of the whole state. Go's panic on an
--   index out of range is `none`. Routing/Ring/Ideal says what a ring promises, without a ring: a
--   search through the virtual nodes of the members that a history of calls leaves.
-- - pkg/routing/hashing.go (`CRC32Hasher`): Routing/Hashing, with the checksum of package crc32
--   written out bit by bit and tested on its check value.
-- - pkg/routing/router.go and pkg/routing/xdp.go: Routing/Router, a ring under that checksum, and
--   Routing/Xdp, with package ebpf and the kernel behind it as the parameter `Ebpf`; the deferred
--   closes run on every return behind them.
-- - pkg/registry/registry.go (`RegisterNode`, `ReportNewHealthCheck`, `ReportNodeFailure`):
--   Registry; Registry/History says what a history of calls leaves behind.
-- - pkg/consensus/v1 (const.go, and the messages of consensus.proto): Consensus. The code that
--   protoc generates and gRPC are the parameter `Rpc`, with their documented behaviour in
--   `RpcLaws`.
-- - pkg/lbnetwork/nodemanager/node_manager.go: NodeManager has `GetConfig` and the set-up of a
--   health stream; NodeManager/Stream has its listener and its handler as the steps of one system
--   with the two channels of capacity 1, the timer, the clock and the calls that other streams
--   make on the shared registry; Stream/Counted keeps the account of the reports that a stream
--   has received; NodeManager/Setup puts set-up and stream together. Other streams' calls may be
--   for any node; the states of `Reach`, and the account, are those of a node with one stream at
--   a time, as registry.go takes for granted. One connection can carry two streams of one node,
--   whose calls would then mix. NodeManager/Process has all streams of one process, which share
--   the registry and the clock; streams are named by numbers, and a panic of one listener ends
--   the process.
-- - pkg/lbnetwork/nodemanager/node_manager_server.go: NodeManager/Server; the listener of package
--   net and gRPC's `Serve` are the parameter `Sockets`.
-- - pkg/lbnetwork/api/v1: LoadBalancer/Api. cmd/lb (`main`, `Execute`): LoadBalancer/Command,
--   which calls it and NodeManager/Server.
-- - config/common.go, config/lb/config.go, config/node/config.go: Config, with the flags in
--   Config/LoadBalancer/Flags and Config/NodeConfig/Flags. Packages viper and cobra are the
--   parameter `Settings`; Config/LoadBalancer/Sources states the documented order in which viper
--   decodes flags, environment and file, as the hypothesis `DecodesInOrder`.
-- - pkg/util/dns.go: Util/Dns. Sockets and the resolver of the operating system are the parameter
--   `Resolver`.
-- - pkg/util/util.go (`IsValidIP`, `GetIPv4FromInterface`): Util/Addresses, over the addresses of
--   package net in Util/Ip, whose textual form is written out.
-- - pkg/util/icmp.go (`Ping`): Util/Icmp, its two goroutines, its channel of capacity 1 and its
--   two selects as the steps of one system; what the raw socket answers is an argument of the
--   step.
-- - pkg/util/arp.go: Util/Arp, on the lines of the kernel's table; the ARP client is the
--   parameter `ArpNetwork`. NodeManager/Macs puts them together with the set-up of a health
--   stream.
-- - cmd/node/main.go (`retrieveIPAndPorts`, `resolveHostname`): Node/Targets, on top of Config
--   and Util/Dns; `main` is Node/Main, a system in which its calls of the dispatcher interleave
--   with those of the API.
-- - pkg/nodenetwork/dispatcher.go: Node/Dispatcher, `NewDispatcher`, `Start`, `Stop` and the
--   health loops as the steps of one system; a loop reads the context, tests it and reports in
--   three steps, between which `Stop` can come and go; calls of `Start`, contexts and loops are
--   named by numbers, and what the client answers to the launch is an argument of the step.
-- - pkg/nodenetwork/client.go: Node/Client, with what the dispatcher does with a client up to the
--   start of its health loop; gRPC is the parameter `Grpc`. Health puts it together with
--   NodeManager: a node that reports to the load balancer whose timeout it has asked for, where
--   the stream handles each report as it arrives.
-- - pkg/nodenetwork/api/v1: Node/Api, the handlers over the dispatcher. What both APIs use of
--   net/http and gin is in Http.
--
-- Numbers: a hash is a number below 2 ^ 32 (a hypothesis on the hash function of a ring where it
-- matters, and a theorem on the checksum), the count of health checks wraps around at 2 ^ 64,
-- times and durations are whole nanoseconds. Strings and byte slices are lists of bytes. Loops
-- are structural recursion on the number of rounds left or on the list; the binary search of
-- package sort recurses on fuel, the length of its range, which is enough since every round
-- shortens the range. The parser of DNS messages against which the query is checked reads on
-- fuel, the length of the message. The order in which Go walks a map is not fixed by the
-- language; a map is a list of its entries, which gives it one.
--
-- Not modelled: the eBPF program (C code for the kernel), what net/http, gin, gRPC and cobra do
-- behind the calls that are made of them, how they time out, logging, the end-to-end tests.
pub mod Prelude
pub mod Routing
pub mod Registry
pub mod Consensus
pub mod NodeManager
pub mod Http
pub mod LoadBalancer
pub mod Health
pub mod Util
pub mod Config
pub mod Node
