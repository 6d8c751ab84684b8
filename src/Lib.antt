-- ===== src/Lib.antt =====
-- Verification of the Outline SDK.
--
-- The Outline SDK builds network transports that can be nested: a dialer makes a connection, and a
-- wrapper changes what goes over it. The development models the parts whose logic is their own.
--
-- Prelude.antt     shared names, tests on numbers, lists, signed integers.
-- Io.antt          package io as the program uses it: errors as values, writers, what a call
--                  delivered (Io/Delivery), readers as lists of answers (Io/Source).
-- Split.antt       transport/split: writer.go with the iterators (Split/Iterator), NewWriter, advance
--                  and Write (Split/Writer); the dialer of stream_dialer.go (Split/Dialer).
-- Tls.antt         transport/tlsfrag: tls.go (Tls/Header), buffer.go (Tls/Buffer), writer.go
--                  (Tls/HelloWriter), Write of record_len_writer.go (Tls/LenWriter), the
--                  dialer with a fixed length of stream_dialer.go (Tls/FixedLen), and the
--                  specification of the fragmented stream (Tls/Fragment), which both writers refer to.
-- Shadowsocks.antt transport/shadowsocks: of stream.go the nonces (Shadowsocks/Nonce), Writer
--                  (Shadowsocks/Writer) and the reader (Shadowsocks/Reader); cipher.go
--                  (Shadowsocks/Cipher, Shadowsocks/Cipher/Table), packet.go (Shadowsocks/Packet),
--                  packet_listener.go (Shadowsocks/PacketConn), and salt.go with init of Writer
--                  (Shadowsocks/Salt).
-- Socks5.antt      transport/socks5: addresses (Socks5/Address), the request of the client with a proxy
--                  to read it (Socks5/Request), packets and ListenPacket (Socks5/Packet), the last with
--                  MakeNetAddr of transport/address.go.
-- Dns.antt         dns/resolver.go: what is tested of a response (Dns/Check), and the exchanges of the
--                  resolvers (Dns/Query).
-- Truncate.antt    network/dnstruncate/packet_relay.go: the response (Truncate/Response), and the
--                  channel between the two ends of an association (Truncate/Queue).
-- Intercept.antt   network/dnsintercept/packet_relay.go: what the goroutines share, with a function
--                  for each stretch of code under the mutex, and the goroutines
--                  (Intercept/Threads).
-- Relay.antt       network/packetrelay: timeout_packet_relay.go (Relay/Timeout) and
--                  packet_listener_relay.go (Relay/Listener), each with its goroutines.
-- Eyeballs.antt    transport/happyeyeballs.go: the loop of DialStream as rounds over events
--                  (Eyeballs/Attempts, Results), and the lookups with their channel (Eyeballs/Resolve).
-- Smart.antt       x/smart: cache.go with moveToFront of slice_helper.go, the list of the DNS cache
--                  (Smart/Cache); racer.go (Smart/Racer, and Smart/Racer/Run for a race as a whole);
--                  strategy_result.go (Smart/Strategy) and stream_dialer.go: parseConfig
--                  (Smart/Strategy/Parse), newProxylessDialer and findFallback (Smart/Strategy/Search),
--                  and NewDialer with a cache (Smart/Strategy/Finder).
-- Disorder.antt    x/disorder/writer.go.
-- Tests.antt       tests by evaluation and instances of the theorems.
--
-- A struct is a record and a method a function from the record to the new record and the results.
-- A byte is a number and a slice a list; a uint16 keeps its wrap-around written out; an int that may
-- be negative is a signed integer. A connection that a component wraps is not code of the
-- repository: it is a parameter, any state with any answers that keep to the contract of io.Writer,
-- and the model keeps a log of what it accepted. Callbacks (frag, SplitIterator) are parameters.
--
-- Fuel: the loop of Write in transport/split takes the length of the slice plus one, and each round
-- but the last leaves less of the slice. LazyWrite of Shadowsocks takes one more, for the flush of a
-- full buffer, and the loop of ReadFrom the count of the answers and bytes that the reader still has,
-- plus one. For WriteTo of the reader any fuel above the length of the plaintext is enough, since each
-- round but the last hands over some of it. simpleEVPBytesToKey takes the length of the key plus one,
-- which is enough if the hash is not empty. All other loops recur on a list.
--
-- Concurrency: Flush of the Shadowsocks Writer may run on another thread during the first read of
-- ReadFrom; a Boolean argument tells whether it does. In network/dnstruncate each call of the sender
-- holds the mutex, and so is one step of a step relation. In network/dnsintercept any number of
-- goroutines run, a stretch of code between two locks at a time and in any order; what the relays,
-- the senders and the receivers answer is left open; a goroutine that waits on the condition variable
-- goes on only after a Broadcast, and a receive from closeChan only after it was closed. The associations of network/packetrelay are
-- modelled so, too, with a clock that ticks between the stretches. In transport/happyeyeballs.go
-- what the select sees is an event, in any order in which it can come, and time is left open, as it
-- is in x/smart/racer.go, where the searches of stream_dialer.go take the order of events of each race as
-- an argument; an order that ends before the race does is followed by the end of the context. The ciphers are parameters: an AEAD is any pair of functions of which Open
-- undoes Seal and Seal adds Overhead bytes.
--
-- Not modelled: deadlines as the connections keep them, contexts but for their end as an event, the
-- passing of time within a step, logs, buffer pools, and the nil checks of constructors; in x/smart
-- the tests of the dialers over the network, the making of dialers and resolvers from an entry, and the
-- YAML package; the packages that the manifest lists as
-- not modelled, most of which drive other libraries, the operating system or the network.
pub mod Prelude
pub mod Io
pub mod Split
mod Tests
pub mod Tls
pub mod Shadowsocks
pub mod Smart
pub mod Socks5
pub mod Dns
pub mod Eyeballs
pub mod Truncate
pub mod Intercept
pub mod Relay
pub mod Disorder
