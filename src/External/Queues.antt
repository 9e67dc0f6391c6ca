-- ===== src/External/Queues.antt =====
-- surf with async_sse, and redis: the clients of the two queues of messages. `none` is an error.
use mpc_server.Common.{Option, List, Text}

-- `async_sse::Event`, of a message only its bytes.
pub data Event : Type 0 where
  message : Text → Event
  retry : Event

pub record Surf : Type 1 where
  pub Url : Type 0
  pub Client : Type 0
  -- What the other side of the connection keeps
  pub Broker : Type 0
  -- `set_base_url`, and `try_into` a client
  pub with_base_url : Url → Option Client
  -- `get` of a path, and the events that its answer decodes to
  pub get : Client → Text → Broker → Option (List (Option Event))
  -- `post` to a path, with a body
  pub post : Client → Text → Text → Broker → Option Broker

pub record Redis : Type 1 where
  pub Client : Type 0
  pub Connection : Type 0
  pub Msg : Type 0
  pub Broker : Type 0
  pub open_client : Text → Option Client
  pub get_async_connection : Client → Option Connection
  -- `subscribe` to a channel, and the messages that come
  pub subscribe : Connection → Text → Broker → Option (List Msg)
  pub publish : Connection → Text → Text → Broker → Option Broker
  -- `get_payload`, as a string
  pub get_payload : Msg → Option Text
