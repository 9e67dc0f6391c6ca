-- ===== src/Transport/Joins.antt =====
-- What a server that has joined either queue takes in.
use mpc_server.Common.{◌≡◌, subst, ok, Text, All}
use mpc_server.Common.Fallible.{ok_or_bind-elim, ok-injective}
use mpc_server.External.Crypto.{Crypto}
use mpc_server.External.Queues.{Surf, Redis}
use mpc_server.External.Serde.{Serde}
use mpc_server.Failure.{construct_sm_client, construct_redis_client, not_subscribed}
use mpc_server.Proto.{WireMessage}
use mpc_server.Transport.Verified.{IsAdmitted, incoming-IsAdmitted}
use mpc_server.Transport.Clients.{
  Joined, own_pub_key, subscribe_messenger, join_computation_via_messenger, new, subscribe,
  join_computation_via_redis,
}

module _ ⦃crypto : Crypto⦄ ⦃wire : Serde WireMessage⦄ ⦃surf : Surf⦄ ⦃redis : Redis⦄ where
  messenger-IsAdmitted :
      (url : surf.Url) (key : crypto.SecretKey) (broker : surf.Broker) (j : Joined surf.Broker)
      → join_computation_via_messenger url key broker ≡ ok j
      → All (IsAdmitted (own_pub_key key)) j.messages
  unfolding join_computation_via_messenger
  messenger-IsAdmitted url key broker j h =
      ok_or_bind-elim (surf.with_base_url url) construct_sm_client _ h λ client _ h1.
        ok_or_bind-elim (subscribe_messenger client broker) not_subscribed _ h1 λ texts _ h2.
          subst (λ (k : Joined surf.Broker). All (IsAdmitted (own_pub_key key)) k.messages)
            (ok-injective h2) (incoming-IsAdmitted (own_pub_key key) texts)

  redis-IsAdmitted :
      (url : Text) (key : crypto.SecretKey) (broker : redis.Broker) (j : Joined redis.Broker)
      → join_computation_via_redis url key broker ≡ ok j
      → All (IsAdmitted (own_pub_key key)) j.messages
  unfolding join_computation_via_redis
  redis-IsAdmitted url key broker j h =
      ok_or_bind-elim (new url) construct_redis_client _ h λ client _ h1.
        ok_or_bind-elim (subscribe client broker) not_subscribed _ h1 λ texts _ h2.
          subst (λ (k : Joined redis.Broker). All (IsAdmitted (own_pub_key key)) k.messages)
            (ok-injective h2) (incoming-IsAdmitted (own_pub_key key) texts)

  -- Whatever the broker delivers: a server that has joined it, over HTTP or over redis, takes in
  -- only messages that are signed by their sender, who is not the server itself, and errors.
  pub joined-IsAdmitted :
      (url : surf.Url) (redis_url : Text) (key : crypto.SecretKey) (broker : surf.Broker)
      (channel : redis.Broker) (j : Joined surf.Broker) (k : Joined redis.Broker)
      → join_computation_via_messenger url key broker ≡ ok j
      → join_computation_via_redis redis_url key channel ≡ ok k
      → All (IsAdmitted (own_pub_key key)) j.messages
        × All (IsAdmitted (own_pub_key key)) k.messages
  joined-IsAdmitted url redis_url key broker channel j k over_http over_redis = (
    messenger-IsAdmitted url key broker j over_http,
    redis-IsAdmitted redis_url key channel k over_redis,
  )
