-- ===== src/Examples/Network.antt =====
-- The network at concrete inputs: two brokers and the messages of two servers.
use mpc_server.Common.{
  ◌≡◌, refl, List, [], ◌∷◌, ◌++◌, some, ok, Text, bytes, All, map, lookup, text_eq, arith,
}
use mathlib.Core.List.{filter_map}
use mpc_server.Externals.{the_crypto}
use mpc_server.External.Queues.{message, retry, Surf, Redis}
use mpc_server.Messenger.{watched}
use mpc_server.Messenger.Delivery.{events}
use mpc_server.Messenger.Race.{broadcast_all}
use mpc_server.System.Network.{signed_texts, said, as_events, network_delivers}
use mpc_server.Transport.{incoming, outgoing, hashed, sign_envelope}
use mpc_server.Transport.Verified.{IsAdmitted}
use mpc_server.Transport.Clients.{
  text_of_event, texts_of_events, subscribe_messenger, join_computation_via_messenger, new,
  subscribe, join_computation_via_redis,
}
use mpc_server.Transport.Joins.{joined-IsAdmitted}
use mpc_server.Examples.Codec.{pack}
use mpc_server.Examples.Instances.{libraries, plain_crypto_laws, wire_serde, wire_laws}
use mpc_server.Examples.Inputs.{alice, bob, room, broadcast_text}
use mpc_server.Examples.Messenger.{two, at_end}
use mpc_server.Examples.Transport.{hello, hash, text_in}

abbrev text_of_alice : Text
text_of_alice = pack (room ∷ broadcast_text ∷ alice ∷ (alice ++ hash) ∷ [])

signed : signed_texts ((bob, hello) ∷ (alice, hello) ∷ []) ≡ ok (text_in room ∷ text_of_alice ∷ [])
unfolding signed_texts outgoing hashed sign_envelope
signed = refl

network_delivers_example :
    map said (
      incoming alice (
        texts_of_events
          (as_events (events 2 at_end (broadcast_all (text_in room ∷ text_of_alice ∷ []) two)))))
    ≡ some (hello, bob) ∷ []
unfolding watched lookup text_eq
network_delivers_example =
    network_delivers plain_crypto_laws wire_laws alice ((bob, hello) ∷ (alice, hello) ∷ [])
      (text_in room ∷ text_of_alice ∷ []) at_end two (λ w text h. refl) signed refl refl
      (omega arith)

-- A broker that is the list of its messages, over HTTP and over redis.
instance abbrev pub list_surf : Surf
list_surf = record {
  Url = Text;
  Client = Text;
  Broker = List Text;
  with_base_url = λ url. some url;
  get = λ client path broker. some (some retry ∷ map (λ text. some (message text)) broker);
  post = λ client path text broker. some (broker ++ (text ∷ []));
}

instance abbrev pub list_redis : Redis
list_redis = record {
  Client = Text;
  Connection = Text;
  Msg = Text;
  Broker = List Text;
  open_client = λ url. some url;
  get_async_connection = λ client. some client;
  subscribe = λ connection channel broker. some broker;
  publish = λ connection channel text broker. some (broker ++ (text ∷ []));
  get_payload = λ msg. some msg;
}

abbrev texts : List Text
texts = text_in room ∷ text_of_alice ∷ []

joined-IsAdmitted_example :
    All (IsAdmitted alice) (incoming alice (ok (text_in room) ∷ ok text_of_alice ∷ []))
    × All (IsAdmitted alice) (incoming alice (ok (text_in room) ∷ ok text_of_alice ∷ []))
unfolding join_computation_via_messenger join_computation_via_redis subscribe_messenger subscribe
    new text_of_event filter_map
joined-IsAdmitted_example =
    joined-IsAdmitted (bytes "http://localhost/") (bytes "redis://localhost/") alice texts texts _ _
      refl refl
