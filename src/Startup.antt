-- ===== src/Startup.antt =====
-- src/main.rs, src/cli.rs and src/keystore.rs: how a server starts.
pub mod Keystore
pub mod Addresses
pub mod Runs
pub mod Serving
use mpc_server.Common.{
  ℕ, ◌+◌, ◌%◌, Bool, true, false, Option, none, some, List, [], ◌∷◌, ◌++◌, Result, ok, err, Text,
  bytes, if◌then◌else◌,
}
use mpc_server.Externals.{Externals, the_sled, the_crypto, the_gg20}
use mpc_server.External.Queues.{Surf, Redis}
use mpc_server.External.Serde.{Serde}
use mpc_server.Failure.{Failure}
use mpc_server.Proto.{WireMessage}
use mpc_server.Server.{MpcImp}
use mpc_server.Transport.Clients.{
  Joined, join_computation_via_messenger, join_computation_via_redis,
}
use mpc_server.Coordinator.State.{Coordinator, new}
use mpc_server.Startup.Addresses.{Ipv6, IpAddr, api_address}
use mpc_server.Startup.Keystore.{Files, get_secret_key}

-- surf, redis and sled, as the start of a server sees them at that moment. A path is the list of
-- its components.
pub record Outside ⦃x : Externals⦄ : Type 1 where
  pub surf : Surf
  pub redis : Redis
  -- What the queues have at that moment
  pub broker : surf.Broker
  pub channel : redis.Broker
  -- `url.join("healthcheck")`
  pub join_healthcheck : surf.Url → Option surf.Url
  -- `surf::get` has an answer
  pub answers : surf.Url → Bool
  -- `get_connection` succeeds
  pub connects : redis.Client → Bool
  -- `sled::open`
  pub open_db : List Text → Option x.sled.Db
  pub files : Files
  pub ipv6 : Ipv6
  -- A server can be bound to an address and a port.
  pub binds : IpAddr ⦃six = ipv6⦄ → ℕ → Bool

-- `SetupError`, and the errors that are passed on
pub data SetupError : Type 0 where
  no_message_queue_connection multiple_message_queue_configured passed_on : SetupError

-- `AppError`
pub data AppError : Type 0 where
  metrics_server_error mpc_server_error : AppError

module _ ⦃x : Externals⦄ ⦃o : Outside⦄ ⦃wire : Serde WireMessage⦄ where
  -- `Cli`
  pub record Cli : Type 0 where
    pub messenger_address : Option o.surf.Url
    pub redis_url : Option Text
    pub address : IpAddr ⦃six = o.ipv6⦄
    pub port : ℕ
    pub keystore_path : List Text
    pub password_path : List Text
    pub db_path : List Text

  check_messenger : Option o.surf.Url → Result SetupError (Unit {0})
  check_messenger none = err passed_on
  check_messenger (some url) = if o.answers url then ok tt else err no_message_queue_connection

  check_redis : Option o.redis.Client → Result SetupError (Unit {0})
  check_redis none = err passed_on
  check_redis (some client) = if o.connects client then ok tt else err no_message_queue_connection

  choose : {A : Type 0} → Option o.surf.Url → Option Text → (o.surf.Url → A) → (Text → A) → A → A
  choose (some url) none messenger redis other = messenger url
  choose none (some url) messenger redis other = redis url
  choose (some _) (some _) messenger redis other = other
  choose none none messenger redis other = other

  -- `precheck`
  unfoldable pub precheck : Cli → Result SetupError (Unit {0})
  unfolding check_messenger check_redis choose
  precheck args =
      choose args.messenger_address args.redis_url (λ url. check_messenger (o.join_healthcheck url))
        (λ url. check_redis (o.redis.open_client url)) (err multiple_message_queue_configured)

  -- What becomes of the task of `bootstrap`: it has ended, and with it the queue of requests, or
  -- it forwards requests to a coordinator.
  pub data Task : Type 0 where
    ended : Task
    forwards : Coordinator → Task

  -- The end of `use_messenger` and `use_redis`.
  unfoldable pub joined :
      {Broker : Type 0} → Result Failure (Joined Broker) → x.crypto.SecretKey → x.sled.Db → ℕ → Task
  joined (ok _) sk db now = forwards (new sk db now)
  joined (err _) sk db now = ended

  -- The path of the shares.
  abbrev pub local_shares : Cli → List Text
  local_shares args = args.db_path ++ (bytes "local_shares" ∷ [])

  -- `use_messenger`; `none` is a panic of an `unwrap`.
  unfoldable pub use_messenger : Cli → ℕ → Option Task
  unfolding joined
  use_messenger args now = elim (get_secret_key o.files args.keystore_path args.password_path) [
    | err _ ↦ none
    | ok (sk, _) ↦ elim (o.open_db (local_shares args)) [
      | none ↦ none
      | some db ↦ elim args.messenger_address [
        | none ↦ none
        | some url ↦
            some (joined (join_computation_via_messenger ⦃surf = o.surf⦄ url sk o.broker) sk db now)
      ]
    ]
  ]

  -- `use_redis`
  pub use_redis : Cli → ℕ → Option Task
  unfolding joined
  use_redis args now = elim (get_secret_key o.files args.keystore_path args.password_path) [
    | err _ ↦ none
    | ok (sk, _) ↦ elim (o.open_db (local_shares args)) [
      | none ↦ none
      | some db ↦ elim args.redis_url [
        | none ↦ none
        | some url ↦
            some (joined (join_computation_via_redis ⦃redis = o.redis⦄ url sk o.channel) sk db now)
      ]
    ]
  ]

  -- `bootstrap`
  unfoldable pub bootstrap : Cli → ℕ → Option Task
  unfolding choose
  bootstrap args now =
      choose args.messenger_address args.redis_url (λ _. use_messenger args now)
        (λ _. use_redis args now) none

  -- What `main` has set up when it runs its servers, after `bootstrap` has come to its loop, or to
  -- its end: a closed queue of requests is one whose receiver went with the task.
  pub record Running : Type 0 where
    pub api : MpcImp
    pub task : Option Task

  abbrev is_forwarding : Option Task → Bool
  is_forwarding (some (forwards _)) = true
  is_forwarding (some ended) = false
  is_forwarding none = false

  abbrev pub results_path : Cli → List Text
  results_path args = args.db_path ++ (bytes "results" ∷ [])

  abbrev pub spawned : x.sled.Db → Option Task → Running
  spawned results_db task = record {
    api = record {
      tx = record { is_open = is_forwarding task; queue = [] };
      tx_res = record { is_open = true; queue = [] };
      results_db = results_db;
    };
    task = task;
  }

  -- `main`, up to its servers; `none` is a panic of an `unwrap`.
  unfoldable pub main : Cli → ℕ → Option Running
  main args now = elim (o.open_db (results_path args)) [
    | none ↦ none
    | some results_db ↦ elim (precheck args) [
      | err _ ↦ none
      | ok _ ↦ some (spawned results_db (bootstrap args now))
    ]
  ]

  -- The addresses that the two servers are bound to.
  pub record Bound : Type 0 where
    pub metrics : IpAddr ⦃six = o.ipv6⦄ × ℕ
    pub api : IpAddr ⦃six = o.ipv6⦄ × ℕ

  -- `metrics_server`; `none` is the panic of the `unwrap` behind `bind`.
  pub metrics_server : Cli → Option (IpAddr ⦃six = o.ipv6⦄ × ℕ)
  metrics_server args =
      let port = (args.port + 100) % 65536 in
      if o.binds args.address port then some (args.address, port) else none

  -- `mpc_server`; `none` is the panic of the `unwrap` behind `parse`.
  pub api_server : Cli → Option (IpAddr ⦃six = o.ipv6⦄ × ℕ)
  api_server args = elim (api_address ⦃six = o.ipv6⦄ args.address args.port) [
    | ok addr ↦ some addr
    | err _ ↦ none
  ]

  -- The two servers that `main` joins, the metrics first.
  unfoldable pub serving : Cli → Option Bound
  unfolding metrics_server api_server
  serving args = elim (metrics_server args) [
    | none ↦ none
    | some metrics ↦ elim (api_server args) [
      | none ↦ none
      | some api ↦ some (record { metrics = metrics; api = api })
    ]
  ]

-- The end of `main`: what the two servers ended with, the metrics first.
unfoldable pub combined : Bool → Bool → Result AppError (Unit {0})
combined true true = ok tt
combined true false = err mpc_server_error
combined false false = err mpc_server_error
combined false true = err metrics_server_error

module _ ⦃x : Externals⦄ ⦃o : Outside⦄ ⦃wire : Serde WireMessage⦄ where
  -- The end of `main`, by what the servers that are bound to some addresses end with; `none` is a
  -- panic.
  abbrev pub joined_servers :
      Option Bound → (Bound → Bool × Bool) → Option (Result AppError (Unit {0}))
  joined_servers none ends = none
  joined_servers (some bound) ends = let (metrics, api) = ends bound in some (combined metrics api)

  -- `main` from its start to its end.
  unfoldable pub run_main : Cli → ℕ → (Bound → Bool × Bool) → Option (Result AppError (Unit {0}))
  run_main args now ends = elim (main args now) [
    | none ↦ none
    | some _ ↦ joined_servers (serving args) ends
  ]
