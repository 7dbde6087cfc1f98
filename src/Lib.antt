-- ===== src/Lib.antt =====
-- A model of QDAP (Quantum-Inspired Dynamic Application Protocol), the Python package src/qdap,
-- with the theorems that make it correct.
--
-- The parts and how they interact. A sender puts a payload into frames (Frame), large payloads
-- into chunks or batches of chunks, one frame each (Chunking), on lossy channels with parities that
-- make up for lost packets (Fec); a receiver takes the subframes of
-- each frame to its reassembler, which gives the payload when all parts are there. Very large
-- payloads may go over several streams as chunk frames of their own (Parallel). Repetitive records
-- are sent as deltas against the last one (Delta). A broker speaks MQTT to its clients: a receive
-- loop cuts packets out of the bytes of a connection, the handler keeps sessions and the tree of
-- topic filters and writes to the subscribers (Broker). Connections are resumed with tickets of a
-- single use (Tickets), and frames may be encrypted
-- (Encryption) under keys that are changed from time to time (KeyRotation). Frames travel on TCP with a header
-- of their own (Tcp), and peers keep track of sent and received numbers without acknowledgments
-- (Ghost).
--
-- The files and the source, with paths from the repository's root:
--   * Base, Bytes: Python's lists, slices, dictionaries, exceptions and `struct` codes, and the
--     lemmas that the parts share. A `bytes` value is a list of numbers below 256; a `dict` is an
--     association list in the order of insertion; an exception is the error of a Result.
--   * Frame: src/qdap/frame/qframe.py. Subframe.serialize and deserialize, QFrame.serialize and
--     deserialize, the constructors and the control frames, under the source's names.
--   * Chunking: src/qdap/chunking. Strategy: strategy.py and batch_config.py. Meta, Split, Frames:
--     chunk_qframe.py. Reassembler: reassembler.py, where process_subframes is scan, dispatch,
--     process_batch and process_chunk. Transfer: a sender and a receiver together.
--   * Parallel: src/qdap/transport/parallel_sender.py, _build_chunk_frame, parse_chunk_frame,
--     plan_parallel_chunks, AssemblyBuffer and ParallelReceiver.
--   * Bridge: src/qdap/_rust_bridge.py, the Python form of the frame with a header of 60 bytes.
--   * Fec: src/qdap/_rust_bridge.py, _python_fec_encode and _python_fec_decode. Fec.Codec:
--     src/qdap/transport/fec.py, FECEncoder, FECDecoder, AdaptiveFEC and the profiles; their `encode`
--     and `decode` are encode_group, decode_group and adaptive_encode.
--   * Tcp: src/qdap/transport/tcp/adapter.py and backpressure.py, with acquire_slot and release_slot
--     for the controller, and frame_payload for the bytes that send_frame writes. Tcp.Starved: SendStep
--     and SendsReach cut send_frame at its waits, for sends that interleave. Tcp.Pool:
--     src/qdap/transport/tcp/pool.py; PoolStep and PoolReach are the calls of its users.
--   * Ghost: src/qdap/session/ghost_session.py, GhostSession; receive_subframes is the loop of
--     on_receive. GhostStep and GhostReach are its calls in any order.
--   * Delta: src/qdap/compression/delta_encoder.py and the delta functions of
--     src/qdap/_rust_bridge.py in their Python form.
--   * Broker.Packet: src/qdap/broker/packet_parser.py. Broker.Utf8: str.encode and bytes.decode.
--     Broker.Stream and Broker.Handler: src/qdap/broker/broker.py, the loop of handle_client and
--     _handle_packet. Broker.TopicTree: topic_tree.py. Broker.Sessions: session_store.py.
--     Broker.Priority: qdap_transport.py.
--   * Tickets: src/qdap/security/session_ticket.py.
--   * KeyRotation: src/qdap/security/key_rotation.py and derive_session_keys of handshake.py;
--     begin_rotation and finish_rotation are the two parts of _initiate_rotation, before and after
--     it has waited for the key of the peer.
--   * SessionCache: src/qdap/scheduler/session_cache.py.
--   * Encryption: src/qdap/security/encrypted_frame.py.
--   * Tests: runs at concrete inputs.
--
-- What is outside the source is a parameter: SHA3-256, HMAC, AES-GCM, msgpack, clocks, random
-- identifiers, X25519 and HKDF, and whether a writer drains. So are two things of the source: the
-- amplitudes that src/qdap/frame/encoder.py computes in floating point, as a total function, and
-- encrypt_frame and decrypt_frame of src/qdap/_rust_bridge.py, which call AES-GCM or the Rust core,
-- with a failed authentication as their one exception. Floats are IEEE bit patterns, which the code
-- copies or, where they are not negative, compares. A text is its UTF-8 bytes. A lock makes each
-- locked operation a single step. evict of SessionCache reads the clock once, where the code reads
-- it for each entry.
--
-- Fuel. The loops over the topics of a packet take the length of the body as fuel, of which each
-- round uses a position at least; the length encoder takes its number, which each round divides;
-- the receive loop takes the length of the buffer, of which each packet takes two bytes at least;
-- reading n bytes of a connection takes n, of which each round reads one at least; the loop of a
-- client takes the number of frames and one more.
-- No other definition runs on fuel.
--
-- Not modelled: learning and spectral scheduling in floating point (src/qdap/scheduler, but for its
-- cache, session/markov.py, broker/markov_bptt.py, broker/ghost_session_adaptive.py, verification),
-- the handshakes (security/handshake.py but for its key derivation, security/pqc_handshake.py), sockets and servers
-- (transport/quic, proxy, websocket, server.py, cli.py), logging and
-- statistics, and the Rust core.
pub mod Base
pub mod Bytes
pub mod Frame
pub mod Chunking
pub mod Tests
pub mod Broker
pub mod Tickets
pub mod Delta
pub mod Fec
pub mod Tcp
pub mod Ghost
pub mod KeyRotation
pub mod Parallel
pub mod Bridge
pub mod Encryption
pub mod SessionCache
