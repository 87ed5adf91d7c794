-- ===== src/Lib.antt =====
-- Verification of outline-go-tun2socks: the way of packets from a TUN device to the network, in the apps
-- Intra and Outline.
--
-- The parts, and how they work together. The TUN device gives TCP connections and UDP packets to the
-- handlers of package intra. The TCP handler (intra/tcp.go) sends connections to the fake DNS address to
-- DNS over TCP, and dials the others: on port 443 through intra/split, which cuts the TLS hello into two
-- segments, always or as a retry after the first attempt failed. The UDP handler (intra/udp.go) sends
-- packets to the fake DNS address to the DNS transport, and the others to a socket of their own. The DNS
-- transport (intra/doh) pads a query, sends it over HTTPS to an address that intra/doh/ipmap keeps for
-- the server's host, and checks the response. A session of Intra (intra/tunnel.go) has both handlers and
-- gives them the DNS transport; a session of Outline (outline/tunnel.go) has the handlers of package
-- shadowsocks instead, or one that falls back to DNS over TCP where the connectivity check says so. Both
-- stand on package tunnel, whose loop hands the packets of the device to the network stack.
--
-- The files. Each definition has the name of the function that it models, in small letters; a method is a
-- function whose state is an argument and a result, and an error is a value.
--   Common: tests, lists, options and bytes. Net: IP addresses, TCP connections and the dialer of the
--     standard library. What the network does is a plan that a dialled connection is given.
--   Split/Hello, Split/Copy and Split/Retrier: intra/split/retrier.go (splitHello, copyOnce, the type
--     retrier). Split/Retrier/Threads: the thread that reads and the thread that writes, as a sequence of
--     events; an event is what one thread does between two points where the other can run.
--   Split/Splitter: intra/split/direct_split.go.
--   Ipmap/Set, Ipmap/Shuffle and Ipmap/Map: intra/doh/ipmap/ipmap.go (IPSet, GetAll, ipMap). The sets are
--     on a heap; other threads act between the two locks of Get.
--   Doh/Message: what the program uses of dnsmessage.Message. Doh/Padding: intra/doh/padding.go.
--   Doh/Transport: doQuery, sendRequest and Query of intra/doh/doh.go; Doh/Dial: its dial; Doh/Forward:
--     its Accept and forwardQuery.
--   Intra/Udp: intra/udp.go; the map and the goroutines share trackers on a heap. Intra/Udp/Runs: runs of
--     the handler as sequences of events. Intra/Tcp: intra/tcp.go and intra/sni_reporter.go,
--     and Intra/Tcp/Forwarding the two goroutines of a connection.
--     Intra/Protect: the choice of a resolver in intra/protect/protect.go, and Intra/Protect/Sockets the rest.
--   Intra/Session: intra/tunnel.go, and Intra/Session/Events the events of its runs.
--   Tunnel: tunnel/tunnel.go. Tunnel/Packets: tunnel/tun.go, the loop and any number of calls of Disconnect
--     and Write by other threads, each as steps between its statements: package tunnel has no lock. In the
--     runs of a session (Intra/Session/Events, Outline/Session/Runs) such a call is one step.
--   Shadowsocks/Connectivity, Shadowsocks/Udp and Shadowsocks/Tcp: the files of package shadowsocks; the
--     sockets to the proxy are on a heap.
--   Doh/Transport/Creation: NewTransport of intra/doh/doh.go. Doh/Certificate: intra/doh/client_auth.go.
--   Ipmap/Abstract: the abstract set of addresses that an IPSet stands for.
--   Intra/Mobile: intra/android/tun2socks.go. Outline/Mobile: outline/android/tun2socks.go and
--     outline/apple/tun2socks.go. Outline/Command: outline/electron/main.go.
--   Outline/Connectivity: outline/shadowsocks/connectivity.go. Outline/Session: outline/tunnel.go.
--   Examples: the definitions and the theorems at concrete inputs.
--
-- Bounds and fuel. Integers of a fixed width are kept modulo 2^w where they are counted up. Accept loops on
-- fuel; each turn takes at least two bytes off the stream, so the number of bytes to come is enough.
-- The other loops are recursions on lists.
--
-- Parameters. The DNS message library, the resolver, the HTTP client, the TLS library that finds the
-- server's name, the clock and the random numbers are arguments. The theorems that need it assume of the
-- DNS library that an option takes four bytes and its payload, and that the ID is the first two bytes.
--
-- Not modelled: logging; LocalAddr; the callbacks of the HTTP trace that only log;
-- the configuration of the HTTP client, and what a dial inside a request does to the addresses; the
-- choir library; the protection of sockets in the system; the
-- Shadowsocks client and its relay; the flag library, the wait for signals and the garbage collector's
-- settings of the entry points; the example program of intra/split. A method that holds a
-- lock is one step. An error of a request is its status; the error wrapped inside is kept as its HTTP
-- status only.
pub mod Common
pub mod Net
pub mod Tunnel
pub mod Shadowsocks
pub mod Outline
pub mod Split
pub mod Ipmap
pub mod Doh
pub mod Intra
mod Examples
