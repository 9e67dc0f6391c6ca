-- ===== src/Transport/Clients.antt =====
-- src/transport/messenger.rs and src/transport/redis.rs: the clients of the two queues, and what
-- joining one gives to the coordinator.
use mpc_server.Common.{
  Option, none, some, List, Result, ok, err, ok_or, Text, bytes, map, if◌then◌else◌,
}
use mathlib.Core.List.{filter_map}
use mpc_server.Common.Fallible.{◌>>=◌}
use mpc_server.External.Crypto.{Crypto}
use mpc_server.External.Queues.{Event, message, retry, Surf, Redis}
use mpc_server.External.Serde.{Serde}
use mpc_server.Failure.{
  Failure, external, construct_sm_client, construct_redis_client, not_subscribed, sse_not_utf8,
  broadcast_message,
}
use mpc_server.Proto.{WireMessage, CoreMessage}
use mpc_server.Transport.{incoming, outgoing}

-- The two halves that the coordinator is given: the messages that come in, and the sink.
pub record Joined (Broker : Type 0) : Type 0 where
  pub messages : List (Result Failure WireMessage)
  pub sink : CoreMessage → Broker → Result Failure Broker

module _ ⦃crypto : Crypto⦄ where
  -- What `SmClient::subscribe` makes of an event.
  unfoldable pub text_of_event : Option Event → Option (Result Failure Text)
  text_of_event (some (message text)) =
      some (if crypto.is_utf8 text then ok text else err sse_not_utf8)
  text_of_event (some retry) = none
  text_of_event none = some (err external)

  abbrev pub texts_of_events : List (Option Event) → List (Result Failure Text)
  texts_of_events events = filter_map text_of_event events

  -- The own key, as the filter of the stream has it.
  abbrev pub own_pub_key : crypto.SecretKey → Text
  own_pub_key key = crypto.hex_encode (crypto.serialize_compressed (crypto.from_secret_key key))

  -- A sink that signs, serializes and broadcasts.
  unfoldable pub unfold_sink :
      {Broker : Type 0}
      → ⦃wire : Serde WireMessage⦄ → (Text → Broker → Option Broker)
      → crypto.SecretKey
      → CoreMessage
      → Broker
      → Result Failure Broker
  unfold_sink broadcast key unsigned broker = do
    serialized ← outgoing key unsigned
    ok_or (broadcast serialized broker) broadcast_message

  module _ ⦃surf : Surf⦄ where
    -- `SmClient::subscribe`
    unfoldable pub subscribe_messenger :
        surf.Client → surf.Broker → Option (List (Result Failure Text))
    subscribe_messenger client broker = elim (surf.get client (bytes "subscribe") broker) [
      | none ↦ none
      | some events ↦ some (texts_of_events events)
    ]

    -- `join_computation_via_messenger`
    unfoldable pub join_computation_via_messenger :
        ⦃wire : Serde WireMessage⦄
        → surf.Url
        → crypto.SecretKey
        → surf.Broker
        → Result Failure (Joined surf.Broker)
    join_computation_via_messenger url key broker = do
      client ← ok_or (surf.with_base_url url) construct_sm_client
      texts ← ok_or (subscribe_messenger client broker) not_subscribed
      ok (record {
        messages = incoming (own_pub_key key) texts;
        sink = unfold_sink (surf.post client (bytes "broadcast")) key;
      })

  module _ ⦃redis : Redis⦄ where
    -- `RedisClient`
    pub record RedisClient : Type 0 where
      pub channel_name : Text
      pub client : redis.Client
      pub connection : redis.Connection

    -- `RedisClient::new`
    unfoldable pub new : Text → Option RedisClient
    new url = elim (redis.open_client url) [
      | none ↦ none
      | some client ↦ elim (redis.get_async_connection client) [
        | none ↦ none
        | some connection ↦ some (record {
          channel_name = bytes "avalido.mpc";
          client = client;
          connection = connection;
        })
      ]
    ]

    -- `RedisClient::broadcast`
    unfoldable pub broadcast : RedisClient → Text → redis.Broker → Option redis.Broker
    broadcast self text broker = redis.publish self.connection self.channel_name text broker

    -- `RedisClient::subscribe`
    unfoldable pub subscribe : RedisClient → redis.Broker → Option (List (Result Failure Text))
    subscribe self broker = elim (redis.get_async_connection self.client) [
      | none ↦ none
      | some conn ↦ elim (redis.subscribe conn self.channel_name broker) [
        | none ↦ none
        | some msgs ↦ some (map (λ msg. ok_or (redis.get_payload msg) external) msgs)
      ]
    ]

    -- `join_computation_via_redis`
    unfoldable pub join_computation_via_redis :
        ⦃wire : Serde WireMessage⦄
        → Text
        → crypto.SecretKey
        → redis.Broker
        → Result Failure (Joined redis.Broker)
    join_computation_via_redis redis_connection_string key broker = do
      client ← ok_or (new redis_connection_string) construct_redis_client
      texts ← ok_or (subscribe client broker) not_subscribed
      ok (record {
        messages = incoming (own_pub_key key) texts;
        sink = unfold_sink (broadcast client) key;
      })
