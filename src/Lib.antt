-- ===== src/Lib.antt =====
-- A model of the protocol core of naia, a networking library for games that replicates entities and
-- messages between a server and its clients over unreliable packets.
--
-- The parts, from the wire upwards:
-- * Serde (shared/serde/src): everything that is sent is written bit by bit. Serde/Interface is the
--   trait BitWrite with the law of its byte operation; Serde/Writer is BitWriter (bit_writer.rs)
--   and Serde/Counter is BitCounter (bit_counter.rs), its two implementations; Serde/Reader is
--   BitReader (bit_reader.rs). Serde/Number is SerdeNumberInner (number.rs), the numbers of fixed
--   and variable width. Serde/Codec is the trait Serde (serde.rs) with the laws of a round trip,
--   and its implementations for bool, unsigned integers, Option, Vec and VecDeque (impls/).
--   Serde/Wire joins writer and reader.
-- * Sequence (shared/src/wrapping_number.rs): comparisons of u16 numbers that wrap.
-- * KeyGenerator (shared/src/key_generator.rs) gives out keys, and gives them out again when they
--   were recycled some time ago.
-- * Connection (shared/src/connection): PacketType and Header are what stands in front of every
--   packet (packet_type.rs, standard_header.rs); SequenceBuffer remembers the packets received
--   (sequence_buffer.rs), LossMonitor counts losses (loss_monitor.rs), and AckManager, which holds
--   one of each, composes and processes the headers (ack_manager.rs). PingStore keeps when the last
--   pings were sent (ping_store.rs).
-- * Channels (shared/src/messages/channels): ReliableReceiver takes every message of a channel once,
--   whatever order messages arrive in and however often (receivers/reliable_receiver.rs);
--   ReliableSender sends every message until it is delivered (senders/reliable_sender.rs), where an
--   Instant is a number and the time before a message is sent again, which the code computes in f32,
--   is an argument.
-- * World (shared/src/world): Authority is what the status of an entity allows a host
--   (delegation/entity_auth_status.rs), EntityCommand the commands about entities
--   (entity_command.rs), and AuthChannel the lifecycle of publication and delegation that an entity
--   goes through as such commands come (sync/auth_channel.rs, sync/auth_channel_sender.rs), with
--   AuthChannelReceiver, which puts the peer's messages about it in order
--   (sync/auth_channel_receiver.rs). EntityMessage is what the peers tell each other
--   (entity/entity_message.rs), OrderedIds a buffer in the order of wrapping ids
--   (sync/ordered_ids.rs), RemoteComponentChannel the inserts and removes of one component of an
--   entity of the peer (sync/remote_component_channel.rs), RemoteEntityChannel all that comes about
--   such an entity (sync/remote_entity_channel.rs), and HostEntityChannel what goes out about an
--   entity of this host (sync/host_entity_channel.rs).
-- * Server (server/src/world): Server/AuthHandler is ServerAuthHandler, which decides who has the
--   authority over each delegated entity (server_auth_handler.rs), with HostAuthHandler
--   (shared/src/world/delegation/host_auth_handler.rs); Server/EntityRecord is what the server
--   records of an entity (entity_owner.rs, global_entity_record.rs, replication_config.rs), and
--   Server/GlobalWorldManager the records with the handler (global_world_manager.rs).
--   Server/EntityScopeMap keeps what the scopes of the users were set to (entity_scope_map.rs), and
--   Server/Room places entities in rooms, a Room (server/src/room.rs) in a RoomStore
--   (server/src/server/room_store.rs) beside the EntityRoomMap (entity_room_map.rs). Keys of users,
--   rooms and entities are numbers.
--
-- State is a record with the source's fields, an operation is a function from a state to the next,
-- with the name of the source's. A function that may fail returns an Outcome: a value, the error
-- SerdeErr, or a panic. A panic is also an overflow of a subtraction, addition or shift, as in a
-- build with overflow checks, and a slice or an index out of range. Machine integers are natural
-- numbers with their wrap-around written out; a counter of bits or bytes that the capacity bounds is
-- not wrapped, nor are the u32 counters of BitCounter, which no length of a packet fills. An i128 is
-- an integer with its casts.
--
-- Loops are structural, or on fuel: a number is written in at most 128 chunks, which is enough for
-- a magnitude below 2^127 as a chunk has one bit at least; and it is read in at most
-- 8 * (bytes) + 9 rounds, which is enough as each takes one bit at least.
--
-- The loop of ReliableReceiver that adds slots is on 65536 rounds, which reach every u16.
--
-- The loops of RemoteEntityChannel and HostEntityChannel are on one round more than there are
-- messages in the buffer.
--
-- Not modelled: f32 arithmetic (SerdeFloat's scaling, the percentage of losses, which is a fraction
-- here), the derive macros (a derived type is written field by field), compression, sockets, the
-- diff handlers of the server, and the loops of client and server that drive these parts.
--
-- Base holds what the modules share: the libraries' names passed on, tests, lists, maps, integers,
-- outcomes, laws of the Booleans and the arithmetic of bit fields. Tests holds runs on concrete input.
pub mod Base
pub mod Sequence
pub mod KeyGenerator
pub mod Serde
pub mod Connection
pub mod Channels
pub mod World
pub mod Server
pub mod Tests
