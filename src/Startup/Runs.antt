-- ===== src/Startup/Runs.antt =====
-- What the check before the start promises for the start.
use mpc_server.Common.{
  sym, false, true, Result, err, ℕ, ◌≡◌, ◌⊎◌, refl, ap, ◌∙◌, none, some, ok, Text, Option-cases,
  inl, inr,
}
use mpc_server.Externals.{Externals, the_sled, the_crypto}
use mpc_server.External.Serde.{Serde}
use mpc_server.Failure.{Failure}
use mpc_server.Common.Fallible.{some-injective, Result-cases}
use mpc_server.Proto.{WireMessage, KeygenRequest}
use mpc_server.Server.{MpcImp, internal, keygen}
use mpc_server.Transport.Clients.{
  Joined, join_computation_via_messenger, join_computation_via_redis,
}
use mpc_server.Coordinator.State.{new}
use mpc_server.Startup.Keystore.{get_secret_key}
use mpc_server.Startup.{
  Running, results_path, spawned, main, Outside, Cli, ended, forwards, choose, joined, precheck,
  bootstrap, use_messenger, use_redis, local_shares,
}

module _ ⦃x : Externals⦄ ⦃o : Outside⦄ ⦃wire : Serde WireMessage⦄ where
  -- Exactly one queue is configured.
  abbrev IsConfigured : Cli → Type 0
  IsConfigured args =
      ((url : o.surf.Url) × (args.messenger_address ≡ some url) × (args.redis_url ≡ none))
      ⊎ ((url : Text) × (args.messenger_address ≡ none) × (args.redis_url ≡ some url))

  precheck-IsConfigured : (args : Cli) → precheck args ≡ ok tt → IsConfigured args
  unfolding precheck choose
  precheck-IsConfigured args h = elim (Option-cases args.messenger_address) [
    | inl no_messenger ↦ elim (Option-cases args.redis_url) [
      | inl no_redis ↦ absurd (cc (no_messenger, no_redis, h))
      | inr (url, e) ↦ inr (url, no_messenger, e)
    ]
    | inr (url, e) ↦ elim (Option-cases args.redis_url) [
      | inl no_redis ↦ inl (url, e, no_redis)
      | inr (other, f) ↦ absurd (cc (e, f, h))
    ]
  ]

  joined-cases :
      {Broker : Type 0} (r : Result Failure (Joined Broker)) (sk : x.crypto.SecretKey)
      (db : x.sled.Db) (now : ℕ)
      → ((f : Failure) × (r ≡ err f) × (joined r sk db now ≡ ended))
        ⊎ ((j : Joined Broker) × (r ≡ ok j) × (joined r sk db now ≡ forwards (new sk db now)))
  unfolding joined
  joined-cases (ok j) sk db now = inr (j, refl, refl)
  joined-cases (err f) sk db now = inl (f, refl, refl)

  -- The queue of messages that is configured can be joined.
  abbrev pub IsJoined : Cli → x.crypto.SecretKey → Type 0
  IsJoined args sk =
      ((url : o.surf.Url) × (args.messenger_address ≡ some url)
        × (j : Joined o.surf.Broker) × (join_computation_via_messenger ⦃surf = o.surf⦄ url sk
              o.broker
            ≡ ok j))
      ⊎ ((url : Text) × (args.redis_url ≡ some url)
          × (j : Joined o.redis.Broker) × (join_computation_via_redis ⦃redis = o.redis⦄ url sk
                o.channel
              ≡ ok j))

  -- It cannot.
  abbrev pub IsRefused : Cli → x.crypto.SecretKey → Type 0
  IsRefused args sk =
      ((url : o.surf.Url) × (args.messenger_address ≡ some url)
        × (f : Failure) × (join_computation_via_messenger ⦃surf = o.surf⦄ url sk o.broker ≡ err f))
      ⊎ ((url : Text) × (args.redis_url ≡ some url)
          × (f : Failure) × (join_computation_via_redis ⦃redis = o.redis⦄ url sk o.channel ≡ err f))

  use_messenger_lem :
      (args : Cli) (sk : x.crypto.SecretKey) (pk : x.crypto.PublicKey) (db : x.sled.Db) (now : ℕ)
      (url : o.surf.Url)
      → get_secret_key o.files args.keystore_path args.password_path ≡ ok (sk, pk)
      → o.open_db (local_shares args) ≡ some db
      → args.messenger_address ≡ some url
      → use_messenger args now
        ≡ some (joined (join_computation_via_messenger ⦃surf = o.surf⦄ url sk o.broker) sk db now)
  unfolding use_messenger
  use_messenger_lem args sk pk db now url unlocked opened e =
      rw (use_messenger, unlocked, opened, e) refl

  use_redis_lem :
      (args : Cli) (sk : x.crypto.SecretKey) (pk : x.crypto.PublicKey) (db : x.sled.Db) (now : ℕ)
      (url : Text)
      → get_secret_key o.files args.keystore_path args.password_path ≡ ok (sk, pk)
      → o.open_db (local_shares args) ≡ some db
      → args.redis_url ≡ some url
      → use_redis args now
        ≡ some (joined (join_computation_via_redis ⦃redis = o.redis⦄ url sk o.channel) sk db now)
  unfolding use_redis
  use_redis_lem args sk pk db now url unlocked opened e = rw (use_redis, unlocked, opened, e) refl

  -- A server whose check before the start has passed, whose key file opens and whose database of
  -- shares opens does not panic in the task that it starts then: either the queue of messages
  -- cannot be joined and the task ends, or it forwards requests to a new coordinator that has the
  -- secret key of the key file.
  pub bootstrap_runs :
      (args : Cli) (sk : x.crypto.SecretKey) (pk : x.crypto.PublicKey) (db : x.sled.Db) (now : ℕ)
      → precheck args ≡ ok tt
      → get_secret_key o.files args.keystore_path args.password_path ≡ ok (sk, pk)
      → o.open_db (local_shares args) ≡ some db
      → (IsRefused args sk × (bootstrap args now ≡ some ended))
        ⊎ (IsJoined args sk × (bootstrap args now ≡ some (forwards (new sk db now))))
  unfolding bootstrap choose
  bootstrap_runs args sk pk db now checked unlocked opened =
      elim (precheck-IsConfigured args checked) [
        | inl (url, e, f) ↦
            let runs = use_messenger_lem args sk pk db now url unlocked opened e in
            elim (joined-cases (join_computation_via_messenger ⦃surf = o.surf⦄ url sk o.broker) sk
              db now) [
                | inl (g, fails, ends) ↦
                    inl (inl (url, e, g, fails), rw (e, f) refl ∙ runs ∙ ap some ends)
                | inr (j, joins, forwarding) ↦
                    inr (inl (url, e, j, joins), rw (e, f) refl ∙ runs ∙ ap some forwarding)
              ]
        | inr (url, e, f) ↦
            let runs = use_redis_lem args sk pk db now url unlocked opened f in
            elim (joined-cases (join_computation_via_redis ⦃redis = o.redis⦄ url sk o.channel) sk db
              now) [
                | inl (g, fails, ends) ↦
                    inl (inr (url, f, g, fails), rw (e, f) refl ∙ runs ∙ ap some ends)
                | inr (j, joins, forwarding) ↦
                    inr (inr (url, f, j, joins), rw (e, f) refl ∙ runs ∙ ap some forwarding)
              ]
      ]

  main-inversion :
      (args : Cli) (now : ℕ) (r : Running)
      → main args now ≡ some r
      → (results_db : x.sled.Db) × (precheck args ≡ ok tt)
        × (r ≡ spawned results_db (bootstrap args now))
  unfolding main
  main-inversion args now r h = elim (Option-cases (o.open_db (results_path args))) [
    | inl closed ↦ absurd (cc (rw (main, closed) at h))
    | inr (results_db, opened) ↦ elim (Result-cases (precheck args)) [
      | inl (u, passed) ↦
          (results_db, passed, sym (some-injective (rw (main, opened, passed) at h)))
      | inr (e, failed) ↦ absurd (cc (rw (main, opened, failed) at h))
    ]
  ]

  closed_refuses :
      (k : KeygenRequest) (api : MpcImp)
      → api.tx.is_open ≡ false
      → x.sled.contains_key api.results_db k.request_id ≡ some false
      → (keygen k api).0 ≡ err internal
  unfolding keygen
  closed_refuses k api closed free = rw (free, closed) refl

  -- A server that has come to run its servers, whose key file and whose database of shares open:
  -- either the queue of messages that is configured is joined with the secret key of the key file,
  -- and its requests are forwarded to a new coordinator that has this key; or the queue cannot be
  -- joined, and then a key generation with a new id is refused as an internal error.
  pub main_lem :
      (args : Cli) (sk : x.crypto.SecretKey) (pk : x.crypto.PublicKey) (db : x.sled.Db) (now : ℕ)
      (r : Running) (k : KeygenRequest)
      → main args now ≡ some r
      → get_secret_key o.files args.keystore_path args.password_path ≡ ok (sk, pk)
      → o.open_db (local_shares args) ≡ some db
      → x.sled.contains_key r.api.results_db k.request_id ≡ some false
      → (IsJoined args sk × (r.task ≡ some (forwards (new sk db now))) × (r.api.tx.is_open ≡ true))
        ⊎ (IsRefused args sk × (r.task ≡ some ended) × ((keygen k r.api).0 ≡ err internal))
  main_lem args sk pk db now r k h unlocked opened free =
      let (results_db, checked, set_up) = main-inversion args now r h in
      elim (bootstrap_runs args sk pk db now checked unlocked opened) [
        | inl (refused, ends) ↦
            let same : r ≡ spawned results_db (some ended) =
              set_up ∙ ap (spawned results_db) ends in
            inr (
              refused,
              ap (λ v. v.task) same,
              closed_refuses k r.api (ap (λ v. v.api.tx.is_open) same) free,
            )
        | inr (joins, runs) ↦
            let same : r ≡ spawned results_db (some (forwards (new sk db now))) =
              set_up ∙ ap (spawned results_db) runs in
            inl (joins, ap (λ v. v.task) same, ap (λ v. v.api.tx.is_open) same)
      ]
