-- ===== src/Lib.antt =====
-- minip2p: a verification library for the protocol crates of the repository.
--
-- The program is a libp2p stack without I/O in its core: each protocol is a state machine that takes
-- inputs (bytes of a stream, requests of the application), and queues outputs that a driver polls.
--
-- The files and the code:
--   Prelude   shared names, lists over native numbers, ordered maps, bit operations, the result
--             type.
--   Varint    crates/identity/src/peer_id.rs: uvarint_len, write_uvarint, read_uvarint.
--   Wire      the protobuf helpers of crates/relay/src/message.rs: tags, varint and
--             length-delimited fields, skipping of unknown fields, the loop of the decoders. They
--             are stated over the error type of the crate that decodes (the record WireError).
--   Frame     decode_frame and encode_frame of crates/relay/src/message.rs; the copies in
--             crates/dcutr/src/message.rs have the same text.
--   Relay     crates/relay/src: Codes (enums and errors), Peer, Reservation, Limit, HopMessage and
--             StopMessage (message.rs), Flow (shared parts of lib.rs), HopReservation, HopConnect
--             and StopResponder (the state machines of lib.rs).
--   Multistream  crates/multistream-select/src/lib.rs: the framing of protocol lines, and the
--             negotiation of dialer and listener.
--   Ping      crates/ping/src/lib.rs: Types (the data), Ping (streams, requests and data) and
--             Ping.Protocol (ends of streams, peers, time, and the trait methods).
--   Identity  crates/identity/src: PeerId (peer_id.rs: the binary form, over the record Multihash for
--             the third-party crate), Base58, Base32 and Text (peer_id.rs: the text forms), PublicKey
--             (key.rs, over the record Ed25519) and Signed (ed25519.rs, signed.rs, over the record
--             Signing). Identity.Sample is an instance of Multihash for the tests.
--   Core      crates/core/src: Protocol and Multiaddr (protocol.rs, multiaddr.rs: the components,
--             their binary form, encapsulation, equality), PeerAddr (peer_addr.rs), Candidates
--             (candidates.rs: which addresses are offered for a direct connection).
--   Identify  crates/identify/src: Message (message.rs, over Wire), Types (the data of lib.rs) and
--             the protocol with its trait methods.
--   Autonat   crates/autonat/src/lib.rs: Types (the data), Reader and Lossy (the loop of its decoders,
--             from_utf8_lossy), PeerInfo, Dial, DialResponse and Message (over Wire), Frame, Flow
--             (shared parts), Client and Server (the state machines), Exchange (one against the
--             other).
--   Dcutr     crates/dcutr/src: HolePunch (message.rs, over Wire), Flow (shared parts of lib.rs),
--             Initiator and Responder (the state machines), Exchange (one against the other).
-- A record has the fields of the Rust struct. A method on `&mut self` is a function from the state
-- to the new state and its result; a handler that can panic returns an Option, where none is the
-- panic. handle_input and poll_output are the methods of the trait SansIoProtocol. A `match` of
-- the source is a helper by clauses, named for what it does.
--
-- A multihash is a value of a third-party crate: its type is a parameter with its operations (the
-- record Multihash of Identity.PeerId), and what the code relies on is the record IsLawful. Ping and
-- Identify take the order of peer ids as a parameter (the record Order of Prelude.Maps), and the relay
-- messages hold the bytes of a peer id.
--
-- Numbers: bytes and machine integers are native natural numbers, a usize has 64 bits, and a sum
-- or shift that can wrap has its `% 2 ^ 64` written out (the shift of read_uvarint, the total of
-- decode_frame). That a list holds bytes is a hypothesis (IsByte) where it matters.
-- Loops: uvarint_len and write_uvarint recur on the accessibility of `<`, read_uvarint on the
-- input. The field loop of the decoders runs on fuel, one round for each byte of the input and one
-- more; every round consumes a byte, so that this is enough.
--
-- The receive loop of Multistream runs on three rounds: every line moves the state on, and there are
-- two before the end, so that the loop never runs out; so does the loop of a DCUtR responder. The
-- loop of Multiaddr::from_bytes has one round for each byte and one more, and every component takes a
-- byte.
-- Texts are their bytes, with is_utf8 for from_utf8. Where the source stores the text of an error, the
-- model stores the error.
--
-- Not modelled: cryptography, I/O (the QUIC transport,
-- the drivers, the example peer), the text form of addresses, and the swarm.
pub mod Prelude
pub mod Varint
pub mod Wire
pub mod Frame
pub mod Relay
pub mod Multistream
pub mod Ping
pub mod Identity
pub mod Core
pub mod Identify
pub mod Autonat
pub mod Dcutr
