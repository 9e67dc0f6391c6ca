-- ===== src/Externals.antt =====
-- The libraries that the actors of one server use, together.
use mpc_server.External.Crypto.{Crypto}
use mpc_server.External.Gg20.{Gg20}
use mpc_server.External.Sled.{Sled}
use mpc_server.External.Serde.{Serde}
use mpc_server.Cipher.{RawValue}
use mpc_server.Group.{PublicKeyGroup}
use mpc_server.Messages.{GenericProtocolMessage, Encrypted}
use mpc_server.Storage.ShareStore.{EncryptedStoredLocalShare}

pub record Externals : Type 1 where
  pub sled : Sled
  pub crypto : Crypto
  pub gg20 : Gg20
  pub raw : RawValue
  pub generic : Serde GenericProtocolMessage
  pub sealed : Serde Encrypted
  pub groups : Serde PublicKeyGroup
  pub shares : Serde EncryptedStoredLocalShare

module _ ⦃x : Externals⦄ where
  instance abbrev pub the_sled : Sled
  the_sled = x.sled

  instance abbrev pub the_crypto : Crypto
  the_crypto = x.crypto

  instance abbrev pub the_gg20 : Gg20
  the_gg20 = x.gg20

  instance abbrev pub the_raw : RawValue
  the_raw = x.raw

  instance abbrev pub the_generic : Serde GenericProtocolMessage
  the_generic = x.generic

  instance abbrev pub the_sealed : Serde Encrypted
  the_sealed = x.sealed

  instance abbrev pub the_groups : Serde PublicKeyGroup
  the_groups = x.groups

  instance abbrev pub the_shares : Serde EncryptedStoredLocalShare
  the_shares = x.shares
