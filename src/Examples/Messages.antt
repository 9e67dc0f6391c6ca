-- ===== src/Examples/Messages.antt =====
-- The encryption of a message at a concrete input.
use mpc_server.Common.{[], ◌∷◌, ◌++◌, some, Text, bytes}
use mpc_server.Externals.{the_sled, the_crypto, the_raw, the_generic, the_sealed, the_groups}
use mpc_server.Messages.{GenericProtocolMessage}
use mpc_server.Proto.{CoreMessage}
use mpc_server.Examples.Codec.{pack}
use mpc_server.Examples.Instances.{libraries}
use mpc_server.Examples.Inputs.{alice, room, message_text}

-- A message of party 2 for party 1, in the clear and as it is sent.
abbrev pub message : GenericProtocolMessage
message = record { sender = 2; receiver = some 1; body = bytes "hello" }

abbrev pub clear : CoreMessage
clear = record { room = room; message = message_text 1 }

abbrev pub sealed_text : Text
sealed_text = pack ((2 ∷ []) ∷ pack ((alice ++ bytes "hello") ∷ []) ∷ (1 ∷ []) ∷ [])

abbrev pub sent : CoreMessage
sent = record { room = room; message = sealed_text }
