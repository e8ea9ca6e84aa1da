-- ===== src/Lib.antt =====
-- Verification library of Mutiauk, the agent that carries a host's traffic through a TUN interface
-- to a SOCKS5 proxy of the Muti Metroo mesh.
--
-- The parts and how they interact. Packets of the tunnel become flows; a flow has an entry of the
-- NAT table (internal/nat) and a connection through the SOCKS5 client (internal/socks5). Which
-- traffic enters the tunnel is a matter of the routes: the mesh offers some (internal/autoroutes),
-- the configuration gives others, and the manager (internal/route) brings the kernel's table and
-- the state file to what is desired. Local services are offered to the mesh over one connection on
-- which streams are multiplexed (internal/expose). UDP and ICMP packets are taken from the packet
-- stack before it sees them, and answers are built by hand (internal/stack); the forwarders keep
-- relays and pending connections for the flows (internal/proxy). Names of the mesh are answered by a
-- resolver of its own (internal/dns).
--
-- Base: tests, lists over the native numbers, Go maps as association lists (Base/GoMap), a
--   connection as the bytes still to come, the bytes written and the number of writes that succeed
--   (Base/Conn), big-endian words (Base/Words), net.IP (Base/Ip).
-- NatTable: internal/nat/table.go and gc.go. Entry has the entries, as references into a heap, since
--   callers keep an entry after the table dropped it; Table has Insert, Lookup, Remove, Clear, Stats
--   and gc. Time is a number of nanoseconds that each operation takes as an argument. gc returns
--   the entries that its goroutine closes, and the closing is a step of its own.
-- Socks5: internal/socks5/protocol.go, auth.go and client.go. Address has MarshalBinary and
--   ReadAddress; Client has handshake, Authenticate, sendRequest, readReply and the relays' frames.
-- Expose: internal/expose. Frame has EncodeFrame, DecodeFrame and the messages of rawConn; Stream
--   has a stream's buffer; Session has the maps and the writing side; Dispatch has the handlers of
--   inbound frames, SendRegister, SendUnregister and stream.Write; Run has the events of a session.
--   Manager has expose.go; Agent has its calls in any order.
-- Proxy: internal/proxy. Pool has relay_pool.go, and Relays the goroutines that share a pool; Tcp has
--   the pending connections and the NAT entries of tcp_forwarder.go; Echo has sendEcho of
--   icmp_forwarder.go.
-- Stack: internal/stack/intercept_endpoint.go. Checksum has checksum; Packets has the packets that
--   are built; Intercept has DeliverNetworkPacket and handleIPv6Packet.
-- Dns: internal/dns/server.go. Names has the names and suffixes; Server has SetState, Lookup and
--   handle.
-- Route: internal/route. Types has the routes; Kernel has kernel_linux.go; Store has state.go; Plan
--   has Diff and Apply of plan.go; Manager has manager.go; Conflicts has conflict.go.
-- Autoroutes: internal/autoroutes/filter.go, resolver.go and snapshot.go, all in Rules.
-- Config: the expose section of internal/config/config.go (Forwards), and the waits of the manager of
--   the forwards with it (Waits).
-- Daemon: internal/daemon/route_events.go (Events) and protected_routes.go (Protected), with
--   internal/backoff/backoff.go and internal/stack/ratelimit.go (Pacing).
--
-- Arguments of the model, for code that is not the repository's: netlink, encoding/json,
-- IPNet.String, ParseCIDR and the sizes of masks, the JSON bodies of the expose protocol, the
-- handlers known by key, the answers of the file system, random numbers, and the methods of the
-- packet library on headers (Stack/Headers, Stack/Intercept). What a theorem relies on of
-- them is a hypothesis: of netlink, that a success adds or takes away one route and any other answer changes none
-- (Route/ApplyExact); of encoding/json, that it reads back a state that it wrote, up to the form
-- of addresses (Route/Persisted); of package net, that networks in CIDR notation with masks of one
-- size are nested if they share an address (Route/Overlaps); of rand.Int63n, that it answers below
-- its argument (Config/Waits); of the packet library, the layouts that it writes (Documented of
-- Stack/Headers), that its readers read the fixed part of a header, and that an ICMPv6 message has 8
-- bytes at least (ReadersDocumented of Stack/Agreement and Readers6Documented of Stack/Agreement6).
--
-- Bounds. Machine words are written out where the code narrows a number (Base/Words.byte and the
-- put functions). The session's counters of callbacks and references, the NAT table's times and
-- reference counts, and the backoffs of the forwards' manager, an int64 in the source, are unbounded
-- here. Fuel is that of write_chunks, the length of the slice, of which every round takes a byte at
-- least, and that of fold_carries, two rounds, after which a uint32 has no carry left. Names of the
-- resolver are ASCII: lower case and white space are those of ASCII.
--
-- Not modelled: the Go scheduler (each locked method is one step, and a Read that would wait
-- answers `blocked`; the orders of steps that goroutines take are those of Proxy/Relays and
-- Expose/Agent), timers, logging, dialling, partial writes of the state file, the assembly of the
-- packet stack and its link endpoints, the copying between connections, the listeners of the
-- resolver and its integration into the host, the rest of the daemon and of the configuration, the
-- control API, the admin interface, the command line, and what wraps the operating system.
pub mod Base
pub mod NatTable
pub mod Socks5
pub mod Dns
pub mod Expose
pub mod Route
pub mod Autoroutes
pub mod Config
pub mod Daemon
pub mod Proxy
pub mod Stack
