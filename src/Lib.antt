-- ===== src/Lib.antt =====
-- gbnet: a model of the networking library gbnet (gbnet/src), and what is proved of it.
--
-- The library sends messages between a client and a server over UDP. A message enters a channel,
-- which numbers it and gives it one of five delivery modes; a message that is too long for a
-- packet is split into fragments, small messages may be packed into batches, and each packet has
-- a CRC at its end. The receiving side undoes these steps, and its channel puts the messages back
-- in order where the mode asks for it. A server answers a first request with a cookie, so that it
-- keeps no state before the client has shown its address.
--
-- Files and the code that they model:
--
--   Prelude.antt, Prelude/: what the parts share. Tests on numbers, lists under native numbers,
--     results, bytes and their orders, signed numbers, the bits of a word, and Maps, a HashMap
--     with integer keys as an association list in its order of iteration.
--   Delta.antt: DeltaTracker and BaselineManager of gbnet/src/delta.rs; a message is the bytes of
--     a buffer that starts with the baseline number. Delta/RoundTrip is about decoding what was
--     encoded.
--   Float.antt: what the code does with an f32 or an f64, as a parameter of the parts that
--     compute with floats, with the laws that a theorem needs. Float/Fixed has fixed-point
--     numbers, which meet the laws and serve the runs.
--   Config.antt: delivery modes and channel configuration, gbnet/src/config.rs. Config/Network is
--     NetworkConfig and its validation.
--   Sequence.antt: circular comparison of u16 numbers, gbnet/src/util.rs. Sequence/Order is about
--     its meaning.
--   Channel.antt, Channel/Receive: Channel of gbnet/src/channel.rs, its sending and its receiving
--     side. Channel/Framing relates the frames of one to the other. Channel/Drain, Step and
--     Ordered are about the order of delivery, Keep and Complete about its completeness, Flush
--     about the timeout of the ordered buffer, Sequenced about the sequenced modes, Enqueue about
--     send, Sweeping, Sending and Retries about the retransmissions.
--   Reliability.antt: ReliableEndpoint of gbnet/src/reliability.rs: the packets in flight, the
--     acknowledgments, the RTT estimate and the loss window. Reliability/Acks is about what an
--     acknowledgment does to the packets in flight, PassedOver about the packets that it passes
--     over, Reported and Result about the lists that it returns, Bookkeeping and InFlight about
--     the bounds, and Window about the acknowledgment that goes out.
--   SequenceBuffer.antt: SequenceBuffer of gbnet/src/reliability.rs. SequenceBuffer/Window is
--     about what it remembers.
--   Fragment.antt: fragment_message, FragmentHeader, FragmentBuffer and FragmentAssembler of
--     gbnet/src/fragment.rs. Fragment/Split, Buffer, Reassembly, RoundTrip and Sizes are about
--     splitting, one buffer, the assembler at one message, whole runs, and the budget.
--   Interpolation.antt: SnapshotBuffer of gbnet/src/interpolation.rs. Interpolation/Order is
--     about what it holds, Sampled about what it gives.
--   Mtu.antt: MtuDiscovery of gbnet/src/fragment.rs. Mtu/Search is about what it finds.
--   Batch.antt: batch_messages and unbatch_messages of gbnet/src/congestion.rs. Batch/Decode,
--     Loop and RoundTrip are about reading, the writing loop, and both.
--   Congestion.antt: CongestionController of gbnet/src/congestion.rs; Congestion/Cwnd is
--     CongestionWindow, Congestion/Bandwidth is BandwidthTracker.
--   Serialize.antt: BitBuffer of gbnet/src/serialize/mod.rs. Serialize/Fields is what the derived
--     code of gbnet_macros/src/lib.rs does with fields of some bits. Serialize/Value reads bytes
--     as a number, Piece, Write and Read are about one call, Padding about into_bytes, and
--     Numbers and RoundTrip about many calls.
--   Packet.antt: headers, packet types and packets, gbnet/src/packet.rs; Packet/Wire is what a
--     packet looks like in bytes, and Packet/Reading and Packet/RoundTrip are about reading what
--     was written. Stats.antt: the statistics of a connection, gbnet/src/stats.rs.
--   Connection.antt: Connection of gbnet/src/connection/mod.rs. Connection/Operations has the
--     operations that do not depend on the state, Connection/Handshake those of
--     gbnet/src/connection/handshake.rs, and Connection/Sending and Connection/Tick the tick of
--     gbnet/src/connection/io.rs. Connection/Machine is the state machine, as a step relation;
--     Still and Refine show that each operation is a step of it, Run is about whole runs, and
--     Closing about the end of a connection. Connection/Io has the loops of io.rs over the
--     socket, and Connection/Datagrams is about what is taken from it.
--   Client.antt: NetClient of gbnet/src/client.rs, its handler of packets and its timers;
--     Client/Update is connect and the whole of update. Client/Events and Client/Announced are
--     about what it tells.
--   Server.antt: NetServer of gbnet/src/server.rs and its handshake. Server/Traffic has the
--     handler of packets and migration, Server/Tick the rest of update and the calls of the
--     application, and Server/Update bind and the whole of update. Server/Run has runs of a
--     server, Server/Table and Server/Room are about its bounds, and Server/Admission, Admitting
--     and Entry about who gets in.
--   Security.antt: gbnet/src/security.rs. Security/Crc is the CRC, Security/Cookie the cookies,
--     Security/RateLimit the limiter of requests, with what it keeps in Recent and what it lets
--     pass in Window, Security/Token the connect tokens, with what is accepted in its Replay, and
--     Security/Encryption the nonces and the encryption of packets, over a cipher that is a
--     parameter.
--   Priority.antt: PriorityAccumulator of gbnet/src/priority.rs. Priority/Drain is about what it
--     selects.
--   Each Tests file has runs at concrete inputs.
--
-- A struct is a record with the fields of the struct, except that data is payload; a method that
-- takes &mut self is a function from the state to the new state and the result. Instant::now() is
-- an argument, a number of nanoseconds, and elapsed() is the difference, 0 at least. A u16 or u32
-- keeps its wrap-around; counters of messages and bytes are u64 that no run exhausts, and are
-- plain numbers. A usize is a plain number, but for the subtraction in next_probe, which can
-- underflow and wraps at 2^64 there. A shift of a u64 takes its count modulo 64, as a release
-- build does. A connection calls the channels, the endpoint, congestion control and MTU discovery
-- that the other files model, in the order of the code.
--
-- Loops are recursion on the list they read, or on a number of rounds: the drain of an ordered
-- buffer has as many rounds as the buffer has entries, since each takes one out, which is proved
-- to be enough; the count of a skipped gap has 65536 rounds, which reach every u16; MTU discovery
-- has the ten attempts that it allows itself; the loop over the messages of a channel has as many
-- rounds as the channel has messages, since each takes one out, and Connection/Rounds is about
-- that.
--
-- A server calls the connections that the other files model. An address is the number of its
-- octets and its port, and the maps of a server have these numbers as keys. What the socket
-- takes, what waits at it, the salts and the seconds of the system's clock are arguments; a
-- datagram that is sent is an output. A write to a bit buffer has as many rounds as bits, and the
-- padding of a byte seven.
--
-- Not modelled: the formats of primitive types and collections, and the derive macros but for the
-- code that they give for packets; the calls of encryption in a connection; interest management,
-- the network simulator and the socket itself.
pub mod Batch
pub mod Channel
pub mod Client
pub mod Config
pub mod Congestion
pub mod Connection
pub mod Delta
pub mod Float
pub mod Fragment
pub mod Interpolation
pub mod Mtu
pub mod Packet
pub mod Prelude
pub mod Priority
pub mod Reliability
pub mod Security
pub mod Sequence
pub mod SequenceBuffer
pub mod Serialize
pub mod Server
pub mod Stats
