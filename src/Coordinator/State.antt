-- ===== src/Coordinator/State.antt =====
-- src/actors/coordinator.rs: the actor's state and what leaves it. An address is the number of
-- actors that were started before its own; the group store, the share store and the encrypter
-- share the one database.
use mpc_server.Common.{ℕ, suc, List, [], ◌∷◌, ◌++◌, Result, ok, err, Text, Exec, done}
use mpc_server.Common.{Map}
use mpc_server.Common.Handler.{modify}
use mpc_server.External.RoundBased.{Msg}
use mpc_server.Externals.{Externals, the_gg20, the_sled, the_crypto}
use mpc_server.Messages.{RetryMessage, IncomingMessage, EnrichedSignRequest}
use mpc_server.Player.{MpcPlayer}
use mpc_server.Prom.{Counter}
use mpc_server.Proto.{KeygenRequest, CheckResultResponse, CoreMessage}
use mpc_server.Signer.{Signer}

-- `CoordinatorError`
pub data CoordinatorError : Type 0 where
  unknown_group invalid_room wrong_public_key wrong_public_keys : CoordinatorError
  wrong_number_of_participants not_for_me invalid_payload : CoordinatorError

module _ ⦃x : Externals⦄ where
  open x.gg20 use {
    Keygen, KeygenBody, KeygenError, LocalKey, OfflineStage, OfflineBody, OfflineError,
    CompletedOfflineStage, PartialSignature,
  }

  abbrev pub MpcPlayerKg : Type 0
  MpcPlayerKg = MpcPlayer KeygenRequest Keygen KeygenBody KeygenError LocalKey

  abbrev pub MpcPlayerO : Type 0
  MpcPlayerO =
      MpcPlayer EnrichedSignRequest OfflineStage OfflineBody OfflineError CompletedOfflineStage

  pub data Effect : Type 0 where
    -- `tx_res.send`
    responds : CheckResultResponse → Effect
    -- `start()`, at an address
    starts_keygen : ℕ → MpcPlayerKg → Effect
    starts_offline : ℕ → MpcPlayerO → Effect
    starts_signer : ℕ → Signer EnrichedSignRequest → Effect
    -- `do_send` to an address
    sends_keygen : ℕ → IncomingMessage (Msg KeygenBody) → Effect
    sends_offline : ℕ → IncomingMessage (Msg OfflineBody) → Effect
    sends_partial : ℕ → IncomingMessage (Msg PartialSignature) → Effect
    -- `run_later`, in seconds, with a `Retry`
    schedules : ℕ → RetryMessage → Effect
    -- `send_one` into the sink
    sends_out : CoreMessage → Effect
    counts : Counter → Effect

  pub record Coordinator : Type 0 where
    pub pk_str : Text
    pub sk : x.crypto.SecretKey
    pub db : x.sled.Db
    pub keygen_runners : Map ℕ
    pub offline_state_runners : Map ℕ
    pub signers : Map ℕ
    pub started : ℕ
    -- `utils::current_timestamp`, which the environment moves on
    pub clock : ℕ
    pub effects : List Effect

  -- `Coordinator::new`, at a time.
  unfoldable pub new : x.crypto.SecretKey → x.sled.Db → ℕ → Coordinator
  new sk db now = record {
    pk_str = x.crypto.hex_encode (x.crypto.serialize_compressed (x.crypto.from_secret_key sk));
    sk = sk;
    db = db;
    keygen_runners = [];
    offline_state_runners = [];
    signers = [];
    started = 0;
    clock = now;
    effects = [];
  }

  abbrev pub after_effect : Effect → Coordinator → Coordinator
  after_effect e s = record s { effects = s.effects ++ (e ∷ []) }

  module _ {E : Type 0} where
    abbrev pub emit : Effect → Exec Coordinator E (Unit {0})
    emit e = modify (after_effect e)

    -- The address of the next actor.
    abbrev pub start : (ℕ → Effect) → Exec Coordinator E ℕ
    start e s = done s.started (after_effect (e s.started) (record s { started = suc s.started }))

    -- `let _ = …` on a call that may write the database.
    abbrev pub keep_db : {F : Type 0} → Result F x.sled.Db → Exec Coordinator E (Unit {0})
    keep_db (ok db) s = done tt (record s { db = db })
    keep_db (err e) s = done tt s
