-- ===== src/Lib.antt =====
-- Socket.IO server for Deno: the core of its packages, and the theorems about them.
--
-- A Socket.IO server keeps long-lived sessions with clients. An Engine.IO socket
-- (packages/engine.io) carries packets over a transport, HTTP long-polling or a WebSocket; its wire
-- format is packages/engine.io-parser. On top of it packages/socket.io groups sockets in namespaces,
-- whose adapter knows who is in which room and delivers broadcasts; in a cluster the adapters send
-- each other requests and responses. Every class with events extends
-- the emitter of packages/event-emitter.
--
-- Which file models what:
--
--   Adapter.antt              packages/socket.io/lib/adapter.ts, `InMemoryAdapter`: the record
--                             `Adapter` holds the maps `rooms` and `sids` and the emitted events;
--                             `add_all`, `del` and `del_all` are `addAll`, `del` and `delAll`.
--   Adapter/Apply.antt        the same file: `apply` and `computeExceptSids`, `fetchSockets`,
--                             `addSockets` and `delSockets`. The callback of `apply` is a function
--                             on whatever state the caller keeps.
--   Adapter/Broadcast.antt    the same file: `broadcast` and `broadcastWithAck`, with the counter
--                             `_ids` of the namespace and the `_acks` of its sockets.
--   Adapter/Membership, Invariant, Events, Targets, Targets/Fetch, Targets/Moves
--                             proofs: membership as the specification of the two maps, the events
--                             as a record of it, and which sockets an operation reaches.
--   EventEmitter.antt         packages/event-emitter/mod.ts, `BaseEventEmitter`. A function is known
--                             by an identity; what it does when called is a parameter.
--   EventEmitter/Registry, Emission
--                             proofs: the arrays of listeners, and who is called by `emit`.
--   EngineParser.antt         packages/engine.io-parser/mod.ts: `encodePacket`, `decodePacket`,
--                             `encodePayload` and `decodePayload`. Texts are lists of code units.
--   EngineParser/Base64.antt  packages/engine.io-parser/base64-arraybuffer.ts, and `generateId` of
--                             packages/engine.io/lib/util.ts on given random bytes.
--   EngineParser/Base64/Indices, Base64/RoundTrip, Packets, Payloads
--                             proofs about the parser.
--   Engine/Session.antt       packages/engine.io/lib/transport.ts and transports/polling.ts and
--                             transports/websocket.ts: the record `Session` holds the fields of a
--                             socket and of its transport, and a log of what leaves them.
--   Engine/Socket.antt        packages/engine.io/lib/socket.ts, and the requests, WebSocket events and
--                             timers that drive a session, as inputs of a step function.
--   Engine/Socket/Faithful, Delivery
--                             proofs about the order and the loss of packets.
--   Engine/Socket/Closing, Announced
--                             proofs about the event "close".
--   Engine/Cors.antt          packages/engine.io/lib/cors.ts: `addCorsHeaders` on a list of headers; a
--                             regular expression is a parameter.
--   Engine/Server.antt        packages/engine.io/lib/server.ts: `verify`, `handshake`, `handleRequest`
--                             and `close` on the map `clients`, whose values are sessions. A request
--                             waits while `verify` and `allowRequest` are awaited; the listener of
--                             "close" takes a session out of the map, unless `off()` removed it.
--   Engine/Cors/Caching, Server/Requests, Server/Healthy, Server/Sessions
--                             proofs: which answers depend on the origin, which requests are let in,
--                             and which sessions are kept.
--   SocketParser.antt         packages/socket.io-parser/mod.ts: `extractAttachments` and
--                             `injectAttachments` on trees of data.
--   SocketParser/Packets      `Encoder`; SocketParser/Decoder: `Decoder`. `JSON` is a parameter.
--   SocketParser/Attachments, Decoder/Texts, Arrays, Binaries, RoundTrip, Valid
--                             proofs: what comes back of data and of packets, and what kind of
--                             packets a decoder gives.
--   Msgpack.antt              packages/msgpack: the values. Msgpack/Utf8: `utf8Write`, `utf8Length`
--                             and `utf8Read`. Utf8/RoundTrip, Fuel: proofs about them.
--   Msgpack/Headers, Encode   packages/msgpack/lib/encode.ts: the bytes of headers, numbers and dates;
--                             `_encode`, `_encodeObject` and the second pass of `encode`.
--   Msgpack/Reads, Decode     packages/msgpack/lib/decode.ts: the reads; `parse`, `_array`, `_map` and
--                             `decode`. `parse` is on fuel: two units for each byte are enough.
--   Msgpack/Encode/Layout     the layout that the format asks for; Encode/Chunks, Fill and Passes are
--                             proofs about it.
--   Msgpack/Decode/Fuel, RoundTrip, Numbers, Plain, Steps, Inverse
--                             proofs: the end of the recursion, and what is read back.
--   Operator.antt             packages/socket.io/lib/broadcast-operator.ts: `to`, `except`, the flags,
--                             `emit` and the calls of the adapter in memory.
--   Operator/Acks             what `emit` with a callback waits for, as a state and its events.
--   Operator/Chains, Answers, Acks/Once, Acks/Complete
--                             proofs: whom an operator reaches, and when the callback is called.
--   Client.antt               packages/socket.io/lib/client.ts, with `_add` and `_remove` of namespace.ts
--                             and the life of a socket of socket.ts: one client, its sockets and the
--                             namespaces. Client/Closing, Balance: its proof.
--   Cluster.antt              packages/socket.io/lib/adapter.ts, the class `Adapter`: the state of one
--                             server and its `addSockets`, `delSockets`, `disconnectSockets`.
--   Cluster/Handlers          `serverSideEmit`, `broadcastWithAck`, `onResponse`, the timers.
--   Cluster/Requests          `fetchSockets`, `broadcast`, `onRequest`. Cluster/Runs: all of it as a
--                             state machine on inputs.
--   Cluster/Settled, Once     proofs: a call that waits is settled once.
--   Cluster/Complete, Fetching, Moves
--                             proofs: what comes of a call when the other servers have answered, and
--                             what a call does on all the servers.
--   SocketAcks.antt           packages/socket.io/lib/socket.ts: `emit`, `registerAckCallback` and
--                             `onack`, with the timers and the packets kept until a connection.
--   SocketAcks/Entries, Once  proofs: the callbacks of a socket are called once.
--   Common and its folder     tests on numbers, association lists for `Map` (Dict), lists without
--                             repetition for `Set` (KeySet), lists, and bit operations.
--   Tests                     in each folder: the theorems at concrete inputs, and runs.
--
-- How the code is modelled. Methods are functions from state to state; a call that emits an event
-- appends it to a log. A `Map` is an association list and a `Set` a list, both in the order of
-- insertion. Rooms, ids, event names and functions are keys with a decidable equality. Every loop is
-- a recursion on the list it goes over, but for `utf8Read` and `parse` of packages/msgpack, which are on
-- fuel. `parse` does not run out of it, on any bytes (Msgpack/Decode/Fuel). The loop of `utf8Read` has a
-- unit for each byte that it is to read, and a round reads at least one: more fuel changes nothing, on
-- any bytes (Msgpack/Utf8/Fuel). Numbers of the code are natural numbers;
-- the bit operations of base64 keep their masks, and a byte is taken modulo 256.
--
-- Parameters: `JSON`, what `socket.disconnect` does to a namespace when a cluster calls it, the
-- encoder of the server options, what a listener does, what `FileReader` reads, random bytes, the
-- eight bytes of a float and regular expressions. What `allowRequest` says and the ids of
-- `generateId` are given with the calls that use them. The listeners of a user are taken to leave
-- an Engine.IO session alone while they run, and the encoding of a packet to finish at once, which holds for all data but a `Blob`.
--
-- Not modelled: the upgrade of an Engine.IO session from one transport to another, the middlewares
-- and the catch-all listeners of a Socket.IO socket, the flags of a packet other than `volatile`,
-- `local` and `timeout`, namespaces by pattern, the Redis adapter, logging and vendored code; of
-- packages/msgpack, `toJSON`, BigInt and a view as the input of `decode`. There and in the texts of
-- packets, numbers are exact also from 2^53 on; objects list their keys as they were set. For a
-- client, what an event or an acknowledgement comes to is only told of; SocketAcks takes up the
-- acknowledgements.
pub mod Common
pub mod Adapter
pub mod EventEmitter
pub mod EngineParser
pub mod Engine
pub mod SocketParser
pub mod Msgpack
pub mod Operator
pub mod Client
pub mod SocketAcks
pub mod Cluster
