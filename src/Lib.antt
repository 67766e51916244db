-- ===== src/Lib.antt =====
-- Verification library of snac-router, a stub router in Rust with stateful NAT64, service discovery and
-- router advertisements.
--
-- The parts and their files. Paths of the program are from the repository's root.
--   Base: the shared names; lists, words, byte strings, results, and the ordered maps of the standard
--     library (BTreeMap) as association lists under a key interface.
--   Time: src/time.rs. Lifetimes, and the rejection sampling over a source of random bytes, which is a
--     list of the words that its calls return.
--   Scheduler: src/scheduler.rs. When a link sends its router advertisements.
--   Wire: src/wire.rs. The IPv6 envelope and checksum, neighbour discovery, prefixes, the options of
--     advertisements, and the hop-by-hop options. An address is a number below 2 ^ 128.
--   Ports: src/service_io/ports.rs. The registry of ports, shared by local services and the translation.
--   Families: src/io/families.rs. The Ethernet family of a frame and the queue of frames for the IPv4 side.
--   OnLink: src/router/on_link.rs. The on-link prefixes of both links.
--   Nat64.Tcp: src/nat64/tcp.rs. The transport states of a session and the checks on a TCP header.
--   Nat64.Icmp: src/nat64/icmp.rs. The translation of ICMP errors.
--   Nat64.Headers: src/nat64/translate/headers.rs. The walk over the extension headers.
--   Nat64.Observations: src/nat64/mod.rs. The PREF64 options that were seen on both links.
--   Nat64.Selection: src/nat64/selection.rs. The parent has the selector and its operations, Select the
--     selection; the tests of the caller on routers and routes are functions.
--   Nat64.Bindings: src/nat64/bindings.rs with its children tcp.rs and icmp.rs. The binding tables: Tables
--     has the state and its readers, Expire the end of sessions, Allocate the choice of a port, Sessions
--     what the outbound and inbound operations of Udp, Tcp and Icmp share. A binding claims its port from
--     Ports with a lease, and the end of its last session drops the lease.
--   Dns: src/dns/wire.rs. Name, Rdata for the data types, Reader for the checked reads, Fields for the
--     record data, Message for the sections, and Writer with the compression dictionary.
--   Ipv4: src/ipv4/wire.rs and src/ipv4/mod.rs. Wire, Arp and Icmp read and build packets; Routing has the
--     state of the host and the choice of the next hop, Neighbors the table, its queues and the input.
--   Reassembly: src/ip_reassembly.rs. Parse reads the fragment that a packet is, the parent keeps the
--     contexts, and Split cuts a packet.
--   Examples: the theorems at concrete inputs.
--
-- The state of a component is a record, and an operation takes the state and gives the new one with the
-- result of the code. An error is a value of Io or of the component's own type. Where the code would
-- panic, on an unwrap, a missing key or an underflow, the operations on the binding tables, the leases,
-- the queue and the IPv4 host give none, so a theorem that says `some` says that there is no panic.
--
-- Loops are structural recursions, and these run on rounds: the walks over extension headers have the 16
-- rounds of the code's own `for`; the port search has the rounds of the code's own bound; the folding of
-- a checksum has two, enough for every 32-bit sum; the scans of options have as many as there are bytes,
-- each round consuming one at least; the loop over a DNS name has 320, its labels adding two to a size of
-- 255 at most and its pointers being 64 at most, and would give an error of its own kind without a round
-- left; and the sampling recurses over the list of random words.
--
-- Not modelled: the operating system, sockets, TLS, files and the event loop, which only call; the frames of
-- DNS over TCP, which are about the capacities of vectors; and, for now, the translation of whole packets,
-- DHCP, the DNS services, mDNS, SRP, and the router's own reducer.
mod Base
mod Examples
pub mod Time
pub mod Wire
pub mod Scheduler
pub mod Nat64
pub mod Ports
pub mod Families
pub mod OnLink
pub mod Dns
pub mod Ipv4
pub mod Reassembly
