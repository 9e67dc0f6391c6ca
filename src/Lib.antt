-- ===== src/Lib.antt =====
-- The MPC server: servers that generate threshold ECDSA keys together and sign with them.
--
-- A request comes in over the API (src/server.rs), which answers with its id and queues it for the
-- coordinator (src/actors/coordinator.rs). The coordinator starts an actor for each request: a
-- player (src/actors/player.rs) that runs a key generation or the offline stage of a signature, and
-- then a signer (src/actors/signer.rs). Their messages go out through the coordinator, encrypted
-- where they have one receiver (src/crypto), signed (src/transport), to a broker
-- (messenger/src/main.rs or redis), and come in the same way: verified, filtered, checked against
-- the group of their room (src/core/group.rs, src/utils/mod.rs), decrypted and handed to the actor
-- of the room, or tried again later. Groups and shares are on disk (src/storage). Results go back
-- through a channel and are saved for the API (src/main.rs).
--
-- Which file models what:
--   Common         texts, numbers, lists, results, maps and handlers, shared by all
--   Failure        the errors of the code as one type
--   External       the libraries the code calls, as records of functions, and their laws
--   Externals      those that one server uses, together
--   Proto          src/pb/mpc.rs and src/pb/types.rs, the data
--   Messages       src/actors/messages.rs and src/actors/types.rs
--   Descriptions   src/actors/msg_utils.rs
--   Prom           src/prom.rs
--   Room           src/utils/mod.rs: extract_group_id, make_room_id
--   Group          src/core/group.rs and src/crypto/eciesext.rs; Agreement what two holders of a
--                  list of keys have in common
--   Storage        src/storage and the shares of src/core/types.rs
--   Cipher         src/crypto/encrypter.rs and src/crypto/decrypter.rs
--   Player         src/actors/player.rs; Preserves what holds through every message and timer
--   Signer         src/actors/signer.rs
--   Coordinator    src/actors/coordinator.rs: State its fields and effects, Retry, Incoming,
--                  Requests, Outputs and Dispatch its handlers, Actors to Reach what holds of it
--                  whatever reaches it, Lifecycle a key generation and then a signature, Signers
--                  one sign request at two servers, Held what is not accepted, Confidential what
--                  leaves
--   Transport      src/transport/common.rs; Clients messenger.rs and redis.rs beside it
--   Server         src/server.rs, and save_result and handle_response of src/main.rs
--   Startup        src/main.rs, src/cli.rs, and src/keystore.rs (Keystore); Addresses what
--                  std::net makes of an address
--   Identity       secp256k1-id/src/main.rs, the tool that makes keys
--   System         src/actors/mod.rs, and the tasks and channels of src/main.rs; Runs what may happen
--                  to a server, the end of its coordinator included, Order and Drained what becomes
--                  of the requests then, Network the way of messages from the sinks of some servers
--                  to the stream of another, Sealed the way of an encrypted one from coordinator to
--                  coordinator, Ready and Parties the same for two servers that have started one key
--                  generation, Keys and Signatures the way of a joint key from its player, and of a
--                  signature from the offline stage, to the API, Stopped a request after the end of
--                  the coordinator, Twice two requests with one id
--   Messenger      messenger/src/main.rs: Resume its header, Race two routes at once, Live
--                  whole routes one after the other
--   Examples       the theorems at concrete inputs, with concrete libraries
--
-- State and operations. A struct is a record with the same fields, and a method is a function that
-- returns the new record. A handler of the coordinator returns one of three outcomes: it panics,
-- fails and keeps what it has written, or is done. What leaves an actor (starts, messages, timers,
-- responses, counters) is a list in its state, oldest first. An address is the number of actors
-- that the coordinator had started before. The two stores and the encrypter share one database.
-- A `String` is the list of its bytes. A u16 wraps, as in the release build that is shipped.
--
-- Bounds and fuel. `Schedule.delays` counts down rounds of timers: 34 rounds are enough for any
-- message that no actor takes, which its theorem says by giving the result. `Decimal.to_string`
-- runs on one more than its number, and `Keystore.trim` on the length of its text.
--
-- Not modelled: sled, serde_json, libsecp256k1, ecies, eth_keystore, sha2, hex, base64, the file
-- system, surf, async_sse, redis, regex and the GG20 state machines are parameters. The page of
-- metrics, logging, the generated gRPC code and the parsing of the command line are left out, and
-- of the text of an IPv6 address only how it starts is known. A panic of a player or a signer is
-- the end of what is said of it. A coordinator stops by a panic, or at the end of the stream of
-- the queue, since its actor has no `finished` of its own: `System.stop` then drops its mailbox,
-- and `System.do_send` every request after that, and only System speaks of such a server.
-- Routes of the broker are single steps, but for two subscriptions at once (Race).
pub mod Cipher
pub mod Common
pub mod Coordinator
pub mod Descriptions
pub mod Examples
pub mod External
pub mod Externals
pub mod Failure
pub mod Group
pub mod Identity
pub mod Messages
pub mod Messenger
pub mod Player
pub mod Prom
pub mod Proto
pub mod Room
pub mod Server
pub mod Signer
pub mod Startup
pub mod Storage
pub mod System
pub mod Transport
