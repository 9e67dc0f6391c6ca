-- ===== src/Examples/Transport.antt =====
-- The filters of the transports at concrete inputs.
use mpc_server.Common.{◌≡◌, ◌↔◌, [], ◌∷◌, ◌++◌, some, ok, Text, take}
use mpc_server.Externals.{the_crypto}
use mpc_server.Proto.{WireMessage, CoreMessage}
use mpc_server.Transport.{do_parse_signed}
use mpc_server.Transport.Verified.{IsSigned, do_parse_signed_iff}
use mpc_server.Examples.Codec.{pack}
use mpc_server.Examples.Instances.{libraries, wire_serde}
use mpc_server.Examples.Inputs.{bob, room, broadcast_text}

abbrev pub hello : CoreMessage
hello = record { room = room; message = broadcast_text }

abbrev pub hash : Text
hash = take 32 (
    broadcast_text
    ++ (0 ∷ 0 ∷ 0 ∷ 0 ∷ 0 ∷ 0 ∷ 0 ∷ 0 ∷ 0 ∷ 0 ∷ 0 ∷ 0 ∷ 0 ∷ 0 ∷ 0 ∷ 0 ∷ 0 ∷ 0 ∷ 0 ∷ 0 ∷ 0 ∷ 0 ∷ 0
        ∷ 0 ∷ 0 ∷ 0 ∷ 0 ∷ 0 ∷ 0 ∷ 0 ∷ 0 ∷ 0 ∷ []))

abbrev signed : WireMessage
signed = record {
  room = room;
  payload = broadcast_text;
  sender_public_key = bob;
  signature = bob ++ hash;
}

abbrev pub text_in : Text → Text
text_in r = pack (r ∷ broadcast_text ∷ bob ∷ (bob ++ hash) ∷ [])

do_parse_signed_iff_example :
    (do_parse_signed (text_in room) ≡ ok signed)
    ↔ ((wire_serde.read (text_in room) ≡ some signed) × IsSigned signed)
do_parse_signed_iff_example = do_parse_signed_iff (text_in room) signed
