-- ===== src/External/Gg20.antt =====
-- multi_party_ecdsa (GG20) and curv: the two state machines, their messages and results.
use mpc_server.Common.{ℕ, Bool, Option, List, Text}
use mpc_server.External.RoundBased.{Msg, StateMachine}
use mpc_server.External.Serde.{Serde}

pub record Gg20 : Type 1 where
  -- key generation
  pub Keygen : Type 0
  pub KeygenBody : Type 0
  pub KeygenError : Type 0
  pub LocalKey : Type 0
  pub keygen_machine : StateMachine Keygen KeygenBody KeygenError LocalKey
  pub keygen_msg : Serde (Msg KeygenBody)
  -- `Keygen::new(i, t, n)`
  pub new_keygen : ℕ → ℕ → ℕ → Option Keygen
  -- the error is `ReceivedOutOfOrderMessage`
  pub keygen_out_of_order : KeygenError → Bool
  pub key_threshold : LocalKey → ℕ
  -- `public_key().to_bytes(true)`
  pub key_public_bytes : LocalKey → Text
  pub local_key : Serde LocalKey
  -- the offline stage of signing
  pub OfflineStage : Type 0
  pub OfflineBody : Type 0
  pub OfflineError : Type 0
  pub CompletedOfflineStage : Type 0
  pub offline_machine : StateMachine OfflineStage OfflineBody OfflineError CompletedOfflineStage
  pub offline_msg : Serde (Msg OfflineBody)
  -- `OfflineStage::new(i, s_l, local_key)`
  pub new_offline : ℕ → List ℕ → LocalKey → Option OfflineStage
  pub offline_out_of_order : OfflineError → Bool
  -- the signature
  pub BigInt : Type 0
  pub PartialSignature : Type 0
  pub SignatureRecid : Type 0
  pub SignManual : Type 0
  pub partial_msg : Serde (Msg PartialSignature)
  pub from_hex : Text → Option BigInt
  -- `SignManual::new(message, stage)` and `state.complete(sigs)`
  pub new_sign_manual : BigInt → CompletedOfflineStage → Option (SignManual × PartialSignature)
  pub complete : SignManual → List PartialSignature → Option SignatureRecid
  -- `r.to_bytes()`, `s.to_bytes()` and `recid.to_be_bytes()`
  pub r_bytes : SignatureRecid → Text
  pub s_bytes : SignatureRecid → Text
  pub recid_bytes : SignatureRecid → Text
