-- ===== src/Lib.antt =====
-- Gole: the swarm package, the control plane of a network of endpoints that reach each other
-- directly or through relays; the root package, which punches holes through NATs and carries
-- TCP, UDP and SOCKS5 through them; and s5, the SOCKS5 server.
--
-- An endpoint enrolls with the registrar, answers its challenge, is approved (a relay at once, a
-- pre-approved fingerprint at once, others by an administrator), receives an address and a token
-- signed by the registrar, and is activated. The controller decides from the token, the address
-- and the registrar's records whether a message may flow. The registrar is also the broker that
-- introduces two endpoints to each other. A relay lets in whoever shows a token of the registrar's
-- and forwards frames between the connections it has. Apart from the swarm, a tunnel joins two
-- peers: both read the same command line, punch the hole (TCP or UDP) and then run a client or a
-- server over it, and a server may hand its streams to the SOCKS5 server.
--
-- Files, by the part of the repository that they model:
--   Base (and its children): bytes, byte-wise equality as an interface, lists measured by native
--     numbers, association lists for Go's maps, results for (value, error), little-endian words,
--     signed 64-bit integers, decimal digits (strconv.Itoa), the functions of the package strings
--     that are used.
--   Swarm/Types/*: swarm/types.go. EndpointAddr, roles and states in Address; the transport
--     configuration in Transport; requests and records in Enroll; messages, frame headers and
--     reachability in Wire; Roles is about the role flags and address keys.
--   Swarm/Paseto: swarm/paseto.go. Encoding is about pae, Tokens about SignToken and VerifyToken,
--     Toy is a concrete instance of the external cryptography.
--   Swarm/Registrar: swarm/registrar.go. State has the record Registrar with the maps of the
--     source and the lookups, Ids is allocateID, Enrollment is Enroll to DenyEnrollment,
--     Activation is ActivateEndpoint to FullRegistrationInfo. Trace has the sequences of calls;
--     the other children are proofs, named for what they prove.
--   Swarm/Relay: swarm/relay.go. Frames is the wire protocol, Server the sessions, the routers and
--     HandleConn; RoundTrip, Sessions, Served, Delivery and Loop are proofs, and Run has the
--     interleavings of connections.
--   Swarm/Discovery: swarm/discovery.go. Select has the functions, Sorting the contract of
--     sort.Slice; Ranking, Weighing and Priority are proofs.
--   Swarm/Endpoint: swarm/endpoint.go. State has the record and what answers do to it, Lifecycle the
--     operations; Messages is about prepared messages at the controller, Outcomes about how
--     AutoEnroll ends, Polling about later polls.
--   Swarm/Config: swarm/config.go, past the decoding of the file; Flags is about the role flags.
--   Swarm/MachineId: swarm/machineid.go. Interfaces and Fingerprints are proofs.
--   Swarm/Demo: cmd/swarm/demo.go, the whole life of an endpoint beside its registrar. Approved and
--     Granted have the registrar's part of a run without flags, ZeroTouch the run.
--   S5: s5/s5.go. Stream has the reads of a connection, Address the texts of net, Server handShake
--     and parseTarget, Proxy reply, HandleConnection and the list Conns; Reading, Requests,
--     Rebuilding, Accepting, Serving and Conns are proofs.
--   Tunnel: the root package. Common is common.go; Punch is holepunch.go, with Tcp and Udp for the
--     two protocols, Runs for what a run takes from outside, and Rounds, Invariant, Results and
--     Progress as proofs; Cli is cli.go, with Configs and Socks5 as proofs; Kcp is kconfig.go, with
--     Keys; Forward is the part of client.go and server.go that has no sockets, with KeepAlive,
--     Deliveries and Datagrams as proofs.
--   Crypt: crypt.go. Stream is about the stream connections, Packets about datagrams.
--   Swarm/Policy, Swarm/Controller: swarm/policy.go, swarm/controller.go.
--   Swarm/Examples, S5/Examples, Tunnel/Examples, Crypt/Examples: concrete runs.
--
-- State and operations: a method that changes its receiver is a function from the record to the
-- record and the result; a method that only reads returns the result alone. A Go map is an
-- association list without order, and what the source does on a missing key is written out.
-- time.Now and the bytes of crypto/rand are arguments (`none` for an error of the generator).
-- Errors are data types with one constructor for each message.
--
-- Parameters: Ed25519, base64 and encoding/json are the record Paseto.Crypto, and the behaviour
-- that is relied on is Paseto.CryptoLaws: a signature verifies under its key's public half and has
-- 64 bytes, base64 decodes what it encoded, JSON reads back the claims that it wrote where their
-- strings are ASCII. sort.Slice, which leaves the order of equal elements open, is the argument
-- sort_slice of the transport selection, with Discovery.Sorting.SortLaws as its contract; an
-- insertion sort meets it. xorsimd.Bytes is the argument xor_slices of Crypt, with
-- Crypt.Stream.XorLaws as what its documentation says. time.ParseDuration and fmt.Sscanf are
-- arguments of Config's transport_config. HMAC is an argument of MachineId, the dialing of a target
-- one of S5, the lookups of names and addresses are Tunnel.Cli's Lookups, and what the file of the
-- KCP configuration decodes to and the derived key are arguments of Kcp, where the key lengths that
-- the ciphers accept are those of their documentation. That a signature cannot be forged is not
-- assumed.
--
-- Loops: allocateID's loop is the recursion of Ids.probe on the rounds left, 65534 of them as in
-- the source; pae's loop and the scans of maps and lists are by recursion on the list. HandleConn's
-- loop over frames has as fuel one round more than there are bytes left, of which each frame takes
-- at least nine. AutoEnroll's loop is by recursion on
-- the list of what others ask of the registrar before each poll. The reads of S5 are by recursion on
-- the pieces in which a client's bytes arrive; the loop that takes a connection from Conns has as
-- many rounds as Conns had entries; PunchTCP has the 60 rounds of the source, and PunchUDP, whose
-- sender and receiver run beside each other, is a relation of steps.
--
-- Not modelled: the mutexes (every method holds its mutex from its first access of the state to
-- its return, so calls are taken as atomic steps; the relay's connections interleave frame by
-- frame, although a NoRoute frame, which is written without the session's mutex, can fall between
-- the header and the payload of a frame that is forwarded to the same connection); the order in
-- which Go iterates over a map, which is here the association list's; the text of the error
-- messages; the closing of connections and deadlines in the relay; the
-- goroutine, ticker and channels of the transport monitor and the callback by which it stores a
-- decision in its endpoint; the clock between an endpoint's polls; the reading of configuration
-- files and DNS in swarm/config.go; the printing commands of cmd/swarm and main.go; the parsing of
-- flags by the package flag and the usage texts; pbkdf2; sockets, their options, their TTL and
-- deadlines, the copying between two connections and the set-up of smux and kcp in the tunnels; the
-- platform files of s5 and changes of its Conns from several goroutines at once.

pub mod Base
pub mod Crypt
pub mod Swarm
pub mod S5
pub mod Tunnel
